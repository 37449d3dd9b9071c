-- ===== src/InputProfile.antt =====
-- src/domain/input_profile.rs: the registry of the input devices that were seen, with the settings of
-- each.
use hidshift.Prelude.Int.{pos, ℤ}
use hidshift.Settings.{InputSettings, default_input_settings}
use hidshift.Prelude.{
  ◌>>=◌, Bool, List, Option, Result, [], any, change_first, err, false, find, get_or, if◌then◌else◌,
  leb, length, ltb, max, none, ok, refuse_if, set, some, suc, true, zero, ℕ, ◌%◌, ◌&&◌, ◌++◌, ◌+◌,
  ◌==◌, ◌>>◌, ◌^◌, ◌∷◌,
}
pub mod Registry
pub mod Keys
pub mod Observe
pub mod Places
pub mod Free
pub mod Outcome
mod Tests

abbrev pub input_profile_capacity : ℕ
input_profile_capacity = 8

-- `InputProfileId` is a u8.
abbrev pub InputProfileId : Type 0
InputProfileId = ℕ

unfoldable pub new_profile_id : ℕ → Option InputProfileId
new_profile_id value = if leb 1 value && leb value input_profile_capacity then some value else none

pub record InputIdentity : Type 0 where
  pub vendor_id : ℕ
  pub product_id : ℕ
  pub instance_hash : ℕ

unfoldable pub same_identity : InputIdentity → InputIdentity → Bool
same_identity a b =
    (a.vendor_id == b.vendor_id)
    && (a.product_id == b.product_id)
    && (a.instance_hash == b.instance_hash)

pub record MouseScaleRemainders : Type 0 where
  pub x : ℤ
  pub y : ℤ
  pub wheel : ℤ
  pub pan : ℤ

abbrev pub zero_remainders : MouseScaleRemainders
zero_remainders = record { x = pos 0; y = pos 0; wheel = pos 0; pan = pos 0 }

pub record InputProfile : Type 0 where
  pub id : InputProfileId
  pub identity : InputIdentity
  pub connected : Bool
  pub last_seen : ℕ
  pub settings : InputSettings
  pub mouse_remainders : MouseScaleRemainders
  pub shortcut_armed : Bool

unfoldable pub restored : InputProfileId → InputIdentity → ℕ → InputSettings → InputProfile
restored id identity last_seen settings = record {
  id = id;
  identity = identity;
  connected = false;
  last_seen = last_seen;
  settings = settings;
  mouse_remainders = zero_remainders;
  shortcut_armed = true;
}

unfoldable pub reset_transform_state : InputProfile → InputProfile
reset_transform_state p = record p { mouse_remainders = zero_remainders; shortcut_armed = true }

pub data InputProfileError : Type 0 where
  registry_full_with_connected_profiles unknown_profile : InputProfileError
  duplicate_profile_id duplicate_identity : InputProfileError

pub record InputProfileRegistry : Type 0 where
  pub profiles : List InputProfile
  pub next_sequence : ℕ

unfoldable pub new_registry : InputProfileRegistry
new_registry = record { profiles = []; next_sequence = 1 }

unfoldable pub has_id : InputProfileId → InputProfile → Bool
has_id id p = p.id == id

unfoldable pub has_identity : InputIdentity → InputProfile → Bool
unfolding same_identity
has_identity identity p = same_identity p.identity identity

-- `wrapping_add(1)` of a u64
abbrev pub next_u64 : ℕ → ℕ
next_u64 n = (n + 1) % 2 ^ 64

-- `heapless::Vec::push`, which refuses beyond the capacity.
abbrev pub is_full : List InputProfile → Bool
is_full profiles = leb input_profile_capacity (length profiles)

-- A registry that refuses a profile is dropped by the caller.
unfoldable pub restore :
    InputProfileRegistry → InputProfile → Result InputProfileError InputProfileRegistry
unfolding has_id has_identity
restore r profile = do
  refuse_if (any (has_id profile.id) r.profiles) duplicate_profile_id
  refuse_if (any (has_identity profile.identity) r.profiles) duplicate_identity
  refuse_if (is_full r.profiles) registry_full_with_connected_profiles
  ok (record {
    profiles = r.profiles ++ (profile ∷ []);
    next_sequence = max r.next_sequence (next_u64 profile.last_seen);
  })

-- `take_sequence`: the sequence, and the registry after it.
unfoldable pub take_sequence : InputProfileRegistry → ℕ × InputProfileRegistry
take_sequence r = (r.next_sequence, record r { next_sequence = next_u64 r.next_sequence })

-- `profile.connected = true; profile.last_seen = sequence;`
unfoldable pub seen : ℕ → InputProfile → InputProfile
seen sequence p = record p { connected = true; last_seen = sequence }

-- The fold of `min_by_key` over the profiles that are not connected: the index and the age of the
-- first of those that were seen least recently.
unfoldable pub older : ℕ → ℕ → Option (ℕ × ℕ) → Option (ℕ × ℕ)
older i age none = some (i, age)
older i age (some (j, least)) = if ltb age least then some (i, age) else some (j, least)

unfoldable pub oldest_from : ℕ → List InputProfile → Option (ℕ × ℕ) → Option (ℕ × ℕ)
unfolding older
oldest_from i [] best = best
oldest_from i (p ∷ ps) best =
    oldest_from (suc i) ps (if p.connected then best else older i p.last_seen best)

-- `(1..=8).find_map(..)`: the first id that no profile has.
unfoldable pub free_id_from : List InputProfile → ℕ → ℕ → Option InputProfileId
unfolding has_id
free_id_from profiles zero candidate = none
free_id_from profiles (suc count) candidate =
    let rest = free_id_from profiles count (candidate + 1) in
    if any (has_id candidate) profiles then rest else some candidate

-- A device that was not seen before, under the id of the slot that it takes.
abbrev pub fresh : InputProfileId → InputIdentity → ℕ → InputProfile
fresh id identity sequence = record (restored id identity sequence default_input_settings) {
  connected = true;
}

abbrev pub with_profiles : InputProfileRegistry → List InputProfile → InputProfileRegistry
with_profiles r profiles = record r { profiles = profiles }

-- The profile at an index, whose id the new device keeps.
unfoldable pub evict_at :
    InputProfileRegistry
    → InputIdentity
    → ℕ
    → Option (ℕ × ℕ)
    → Result InputProfileError InputProfileId × InputProfileRegistry
unfolding restored
evict_at r identity sequence none = (err registry_full_with_connected_profiles, r)
evict_at r identity sequence (some (index, age)) =
    let id = (get_or r.profiles index (fresh 0 identity sequence)).id in
    (ok id, with_profiles r (set r.profiles index (fresh id identity sequence)))

unfoldable pub add_at :
    InputProfileRegistry
    → InputIdentity
    → ℕ
    → Option InputProfileId
    → Result InputProfileError InputProfileId × InputProfileRegistry
unfolding restored
add_at r identity sequence none = (err registry_full_with_connected_profiles, r)
add_at r identity sequence (some id) =
    (ok id, with_profiles r (r.profiles ++ (fresh id identity sequence ∷ [])))

unfoldable pub observe_new :
    InputProfileRegistry
    → InputIdentity
    → ℕ
    → Result InputProfileError InputProfileId × InputProfileRegistry
unfolding evict_at add_at oldest_from free_id_from
observe_new r identity sequence =
    if is_full r.profiles
    then evict_at r identity sequence (oldest_from 0 r.profiles none)
    else add_at r identity sequence (free_id_from r.profiles input_profile_capacity 1)

unfoldable pub observe_found :
    InputProfileRegistry
    → InputIdentity
    → ℕ
    → Option InputProfile
    → Result InputProfileError InputProfileId × InputProfileRegistry
unfolding observe_new seen has_identity
observe_found r identity sequence none = observe_new r identity sequence
observe_found r identity sequence (some p) =
    (ok p.id, with_profiles r (change_first (has_identity identity) (seen sequence) r.profiles))

unfoldable pub observe :
    InputProfileRegistry
    → InputIdentity
    → Result InputProfileError InputProfileId × InputProfileRegistry
unfolding take_sequence observe_found has_identity
observe r identity =
    let (sequence, advanced) = take_sequence r in
    observe_found advanced identity sequence (find (has_identity identity) advanced.profiles)

-- What `disconnect` does to the profile.
unfoldable pub gone : ℕ → InputProfile → InputProfile
unfolding reset_transform_state
gone sequence p = reset_transform_state (record p { connected = false; last_seen = sequence })

unfoldable pub disconnect :
    InputProfileRegistry
    → InputProfileId
    → Result InputProfileError (Unit {0}) × InputProfileRegistry
unfolding take_sequence has_id gone
disconnect r id =
    let (sequence, advanced) = take_sequence r in
    if any (has_id id) advanced.profiles
    then (
      ok tt,
      with_profiles advanced (change_first (has_id id) (gone sequence) advanced.profiles),
    )
    else (err unknown_profile, advanced)

unfoldable pub get : InputProfileRegistry → InputProfileId → Option InputProfile
unfolding has_id
get r id = find (has_id id) r.profiles
