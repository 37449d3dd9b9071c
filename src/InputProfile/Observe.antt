-- ===== src/InputProfile/Observe.antt =====
-- The registry of src/domain/input_profile.rs under the calls of a running board.
use mathlib.Core.Path.{subst}
use hidshift.InputProfile.Registry.{pushed, Distinct, IsAbsent}
use hidshift.InputProfile.Keys.{
  Distinct-append, Distinct-change_first, Distinct-set, KeepsKeys, find-none, free_id_from-new,
}
use hidshift.InputProfile.{
  duplicate_identity, duplicate_profile_id, new_registry, registry_full_with_connected_profiles,
  InputIdentity, InputProfile, InputProfileId, InputProfileRegistry, add_at, disconnect, evict_at,
  free_id_from, fresh, gone, has_id, has_identity, input_profile_capacity, is_full, observe,
  observe_found, observe_new, oldest_from, reset_transform_state, restore, restored, seen,
  take_sequence, with_profiles,
}
use hidshift.Prelude.{
  List, length-append, passed, Bool, Bool-cases, Option, [], any, arith, change_first, false, find,
  get_or, inl, inr, length, length-change_first, length-set, none, ok, refl, some, ℕ, ◌<◌, ◌∷◌, ◌≡◌,
  ◌≤◌,
}

-- The registry holds at most eight devices, with different ids and different identities.
pub record IsRegistry (r : InputProfileRegistry) : Type 0 where
  pub few : length r.profiles ≤ input_profile_capacity
  pub distinct : Distinct [] r.profiles

seen-KeepsKeys : (sequence : ℕ) → KeepsKeys (seen sequence)
unfolding seen
seen-KeepsKeys sequence = record { id = λ p. refl; identity = λ p. refl }

gone-KeepsKeys : (sequence : ℕ) → KeepsKeys (gone sequence)
unfolding gone reset_transform_state
gone-KeepsKeys sequence = record { id = λ p. refl; identity = λ p. refl }

not-IsAbsent : (q : InputProfile) → IsAbsent q []
not-IsAbsent q = record { id = refl; identity = refl }

changed-IsRegistry :
    (r : InputProfileRegistry) (test : InputProfile → Bool) (f : InputProfile → InputProfile)
    → KeepsKeys f
    → IsRegistry r
    → IsRegistry (with_profiles r (change_first test f r.profiles))
changed-IsRegistry r test f keeps w = record {
  few = omega (arith, length-change_first test f r.profiles, w.few);
  distinct = Distinct-change_first test f [] r.profiles keeps w.distinct;
}

evict_at-IsRegistry :
    (r : InputProfileRegistry) (identity : InputIdentity) (sequence : ℕ) (oldest : Option (ℕ × ℕ))
    → any (has_identity identity) r.profiles ≡ false
    → IsRegistry r
    → IsRegistry (evict_at r identity sequence oldest).1
unfolding evict_at restored
evict_at-IsRegistry r identity sequence none new w = w
evict_at-IsRegistry r identity sequence (some (index, age)) new w =
    let id = (get_or r.profiles index (fresh 0 identity sequence)).id in
    record {
      few = omega (arith, length-set r.profiles index (fresh id identity sequence), w.few);
      distinct =
          Distinct-set [] r.profiles index (fresh id identity sequence) (fresh 0 identity sequence)
            refl refl new w.distinct;
    }

add_at-IsRegistry :
    (r : InputProfileRegistry) (identity : InputIdentity) (sequence : ℕ)
    (free : Option InputProfileId)
    → ((id : InputProfileId) → free ≡ some id → any (has_id id) r.profiles ≡ false)
    → any (has_identity identity) r.profiles ≡ false
    → length r.profiles < input_profile_capacity
    → IsRegistry r
    → IsRegistry (add_at r identity sequence free).1
unfolding add_at restored
add_at-IsRegistry r identity sequence none found new room w = w
add_at-IsRegistry r identity sequence (some id) found new room w = record {
  few = omega (arith, length-append r.profiles (fresh id identity sequence ∷ []), room);
  distinct =
      Distinct-append [] r.profiles (fresh id identity sequence)
        (not-IsAbsent (fresh id identity sequence)) (record { id = found id refl; identity = new })
        w.distinct;
}

observe_new-IsRegistry :
    (r : InputProfileRegistry) (identity : InputIdentity) (sequence : ℕ)
    → any (has_identity identity) r.profiles ≡ false
    → IsRegistry r
    → IsRegistry (observe_new r identity sequence).1
unfolding observe_new
observe_new-IsRegistry r identity sequence new w = elim (Bool-cases (is_full r.profiles)) [
  | inl full ↦
      rw full (evict_at-IsRegistry r identity sequence (oldest_from 0 r.profiles none) new w)
  | inr room ↦ rw room (
      add_at-IsRegistry r identity sequence (free_id_from r.profiles input_profile_capacity 1)
        (λ id found. free_id_from-new r.profiles input_profile_capacity 1 found) new
        (ground (arith, room)) w)
]

observe_found-IsRegistry :
    (r : InputProfileRegistry) (identity : InputIdentity) (sequence : ℕ)
    (found : Option InputProfile)
    → find (has_identity identity) r.profiles ≡ found
    → IsRegistry r
    → IsRegistry (observe_found r identity sequence found).1
unfolding observe_found
observe_found-IsRegistry r identity sequence none e w =
    observe_new-IsRegistry r identity sequence (find-none (has_identity identity) r.profiles e) w
observe_found-IsRegistry r identity sequence (some p) e w =
    changed-IsRegistry r (has_identity identity) (seen sequence) (seen-KeepsKeys sequence) w

observe-IsRegistry :
    (r : InputProfileRegistry) (identity : InputIdentity)
    → IsRegistry r
    → IsRegistry (observe r identity).1
unfolding observe take_sequence
observe-IsRegistry r identity w =
    observe_found-IsRegistry (take_sequence r).1 identity (take_sequence r).0
      (find (has_identity identity) r.profiles) refl (record { few = w.few; distinct = w.distinct })

disconnect-IsRegistry :
    (r : InputProfileRegistry) (id : InputProfileId) → IsRegistry r → IsRegistry (disconnect r id).1
unfolding disconnect take_sequence
disconnect-IsRegistry r id w =
    let advanced : IsRegistry (take_sequence r).1 = record { few = w.few; distinct = w.distinct } in
    elim (Bool-cases (any (has_id id) r.profiles)) [
      | inl there ↦ rw there (
          changed-IsRegistry (take_sequence r).1 (has_id id) (gone r.next_sequence)
            (gone-KeepsKeys r.next_sequence) advanced)
      | inr missing ↦ rw missing advanced
    ]

pushed-IsRegistry :
    (r : InputProfileRegistry) (p : InputProfile)
    → IsAbsent p r.profiles
    → length r.profiles < input_profile_capacity
    → IsRegistry r
    → IsRegistry (pushed r p)
pushed-IsRegistry r p absent room w = record {
  few = omega (arith, length-append r.profiles (p ∷ []), room);
  distinct = Distinct-append [] r.profiles p (not-IsAbsent p) absent w.distinct;
}

pub restore-IsRegistry :
    (r : InputProfileRegistry) (p : InputProfile) {r2 : InputProfileRegistry}
    → restore r p ≡ ok r2
    → IsRegistry r
    → IsRegistry r2
unfolding restore
restore-IsRegistry r p {r2 = r2} h w =
    let (id_new, h1) = passed (any (has_id p.id) r.profiles) duplicate_profile_id _ h in
    let (identity_new, h2) =
      passed (any (has_identity p.identity) r.profiles) duplicate_identity _ h1 in
    let (room, h3) = passed (is_full r.profiles) registry_full_with_connected_profiles _ h2 in
    let same : pushed r p ≡ r2 = cc in
    subst IsRegistry same (
      pushed-IsRegistry r p (record { id = id_new; identity = identity_new }) (ground (arith, room))
        w)

-- The calls on a running board.
pub data Call : Type 0 where
  observing : InputIdentity → Call
  disconnecting : InputProfileId → Call

unfoldable pub after : InputProfileRegistry → Call → InputProfileRegistry
unfolding observe disconnect
after r (observing identity) = (observe r identity).1
after r (disconnecting id) = (disconnect r id).1

unfoldable pub run : InputProfileRegistry → List Call → InputProfileRegistry
unfolding after
run r [] = r
run r (call ∷ calls) = run (after r call) calls

after-IsRegistry :
    (r : InputProfileRegistry) (call : Call) → IsRegistry r → IsRegistry (after r call)
unfolding after
after-IsRegistry r (observing identity) w = observe-IsRegistry r identity w
after-IsRegistry r (disconnecting id) w = disconnect-IsRegistry r id w

-- Whatever devices come and go on a running board, the registry keeps at most eight profiles, with
-- different ids and different identities, if it started so.
pub run-IsRegistry :
    (r : InputProfileRegistry) (calls : List Call) → IsRegistry r → IsRegistry (run r calls)
unfolding run
run-IsRegistry r [] w = w
run-IsRegistry r (call ∷ calls) w = run-IsRegistry (after r call) calls (after-IsRegistry r call w)

pub new_registry-IsRegistry : IsRegistry new_registry
unfolding new_registry Distinct
new_registry-IsRegistry = record { few = omega arith; distinct = tt }
