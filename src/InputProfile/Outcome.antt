-- ===== src/InputProfile/Outcome.antt =====
-- What `observe` of src/domain/input_profile.rs does for a device.
use hidshift.InputProfile.Keys.{free_id_from-new}
use hidshift.InputProfile.Registry.{Distinct}
use hidshift.InputProfile.Observe.{IsRegistry}
use hidshift.InputProfile.Places.{find-append, find-place, find-set, has_id-own, same_identity-eq}
use hidshift.InputProfile.{
  InputIdentity, InputProfile, InputProfileError, InputProfileId, InputProfileRegistry, add_at,
  evict_at, free_id_from, fresh, get, has_id, has_identity, input_profile_capacity, is_full,
  observe, observe_found, observe_new, oldest_from, registry_full_with_connected_profiles, restored,
  seen, take_sequence,
}
use hidshift.Prelude.{
  Bool-cases, List, Option, Result, [], ap, arith, err, find, get_elem?, get_or, inl, inr, length,
  none, ok, refl, some, suc, true, zero, ℕ, ◌<◌, ◌∙◌, ◌∷◌, ◌≡◌,
}
use hidshift.InputProfile.Free.{
  AllConnected, free_id_from-some, oldest_from-IsRemovable, oldest_from-none,
}

-- The device has a profile that is connected, under the id that is returned; or all of eight profiles
-- are connected, and they stay.
pub data Observed (before : List InputProfile) (identity : InputIdentity)
    : Result InputProfileError InputProfileId × InputProfileRegistry → Type 0 where
  finds :
      (id : InputProfileId) (p : InputProfile) (r2 : InputProfileRegistry)
      → get r2 id ≡ some p
      → p.identity ≡ identity
      → p.connected ≡ true
      → Observed before identity (ok id, r2)
  refuses :
      (r2 : InputProfileRegistry)
      → AllConnected before
      → length before ≡ input_profile_capacity
      → r2.profiles ≡ before
      → Observed before identity (err registry_full_with_connected_profiles, r2)

get_or-some :
    (ps : List InputProfile) (i : ℕ) (d : InputProfile) {p : InputProfile}
    → get_elem? ps i ≡ some p
    → get_or ps i d ≡ p
get_or-some [] i d h = cc
get_or-some (x ∷ ps) zero d h = cc
get_or-some (x ∷ ps) (suc i) d h = get_or-some ps i d h

evict_at-Observed :
    (r : InputProfileRegistry) (identity : InputIdentity) (sequence : ℕ) (oldest : Option (ℕ × ℕ))
    → oldest_from 0 r.profiles none ≡ oldest
    → length r.profiles ≡ input_profile_capacity
    → Distinct [] r.profiles
    → Observed r.profiles identity (evict_at r identity sequence oldest)
unfolding evict_at restored get
evict_at-Observed r identity sequence none e full d =
    refuses r (oldest_from-none 0 r.profiles none e).1 full refl
evict_at-Observed r identity sequence (some (index, age)) e full d =
    let w = oldest_from-IsRemovable r.profiles {index = index} {age = age} e in
    let old = get_or r.profiles index (fresh 0 identity sequence) in
    let same : old ≡ w.profile =
      get_or-some r.profiles index (fresh 0 identity sequence) {p = w.profile} w.at in
    finds old.id (fresh old.id identity sequence) _
      (find-set [] r.profiles index (fresh old.id identity sequence) {p = w.profile} d w.at
        (ap (λ p. p.id) same))
      refl refl

add_at-Observed :
    (r : InputProfileRegistry) (identity : InputIdentity) (sequence : ℕ)
    (free : Option InputProfileId)
    → free_id_from r.profiles input_profile_capacity 1 ≡ free
    → length r.profiles < input_profile_capacity
    → Observed r.profiles identity (add_at r identity sequence free)
unfolding add_at restored get
add_at-Observed r identity sequence none e room = absurd (free_id_from-some r.profiles room e)
add_at-Observed r identity sequence (some id) e room =
    finds id (fresh id identity sequence) _
      (find-append (has_id id) r.profiles (fresh id identity sequence)
        (free_id_from-new r.profiles input_profile_capacity 1 e)
        (has_id-own (fresh id identity sequence) id refl))
      refl refl

observe_new-Observed :
    (r : InputProfileRegistry) (identity : InputIdentity) (sequence : ℕ)
    → IsRegistry r
    → Observed r.profiles identity (observe_new r identity sequence)
unfolding observe_new
observe_new-Observed r identity sequence w = elim (Bool-cases (is_full r.profiles)) [
  | inl full ↦ rw full (
      evict_at-Observed r identity sequence (oldest_from 0 r.profiles none) refl
        (ground (arith, full, w.few)) w.distinct)
  | inr room ↦ rw room (
      add_at-Observed r identity sequence (free_id_from r.profiles input_profile_capacity 1) refl
        (ground (arith, room)))
]

observe_found-Observed :
    (r : InputProfileRegistry) (identity : InputIdentity) (sequence : ℕ)
    (found : Option InputProfile)
    → find (has_identity identity) r.profiles ≡ found
    → IsRegistry r
    → Observed r.profiles identity (observe_found r identity sequence found)
unfolding observe_found get seen has_identity
observe_found-Observed r identity sequence none e w = observe_new-Observed r identity sequence w
observe_found-Observed r identity sequence (some p) e w =
    let (i, at_place, same, changed) = find-place (has_identity identity) r.profiles {p = p} e in
    finds p.id (seen sequence p) _
      (ap (find (has_id p.id)) (changed (seen sequence))
        ∙ find-set [] r.profiles i (seen sequence p) {p = p} w.distinct at_place refl)
      (same_identity-eq p.identity identity same) refl

-- `observe` fails only when eight devices are connected, and then it changes no profile; else the id
-- that it returns is the one under which `get` finds a connected profile of the device. The registry
-- is one with at most eight profiles, of different ids and identities.
pub observe-Observed :
    (r : InputProfileRegistry) (identity : InputIdentity)
    → IsRegistry r
    → Observed r.profiles identity (observe r identity)
unfolding observe take_sequence
observe-Observed r identity w =
    observe_found-Observed (take_sequence r).1 identity (take_sequence r).0
      (find (has_identity identity) r.profiles) refl (record { few = w.few; distinct = w.distinct })
