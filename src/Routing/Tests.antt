-- ===== src/Routing/Tests.antt =====
-- Runs of src/routing.rs on small tables, after the tests of that file.
use hidshift.Prelude.{ℕ, ◌≡◌, ◌≤◌, inr, refl, none, some, [], ◌∷◌, arith, ok, err}
use hidshift.Routing.{
  HostRouter, capacity, new, active, set_active_host, next_populated_slot, host_not_found,
}
use hidshift.Routing.Inv.{IsValid, sets, cycles, activates_host, run, run-new-IsValid}
use hidshift.Routing.Cycle.{Nearest, next_populated_slot-Nearest}

-- Hosts 10 and 12 in slots 0 and 2 of four, slot 0 active.
abbrev sparse : HostRouter
sparse = record { active_index = 0; hosts = some 10 ∷ none ∷ some 12 ∷ none ∷ [] }

cycles_over_empty_slots :
    (next_populated_slot sparse ≡ (ok (some 2), record sparse { active_index = 2 }))
    × (next_populated_slot (record sparse { active_index = 2 }) ≡ (ok (some 0), sparse))
    × (active (record sparse { active_index = 2 }) ≡ some 12)
unfolding next_populated_slot active
cycles_over_empty_slots = (refl, refl, refl)

selects_by_host :
    (set_active_host sparse 12 ≡ (ok 2, record sparse { active_index = 2 }))
    × (set_active_host sparse 99 ≡ (err host_not_found, sparse))
unfolding set_active_host
selects_by_host = (refl, refl)

run-new-IsValid_example :
    IsValid (run (new 3) (sets 1 7 ∷ cycles ∷ activates_host 7 ∷ []))
    × (capacity (run (new 3) (sets 1 7 ∷ cycles ∷ activates_host 7 ∷ [])) ≡ 3)
run-new-IsValid_example = run-new-IsValid 3 (sets 1 7 ∷ cycles ∷ activates_host 7 ∷ [])

next_populated_slot-Nearest_example :
    (k : ℕ) × (s : ℕ) × (k ≤ 4)
    × Nearest sparse 1 k s
    × (next_populated_slot sparse ≡ (ok (some s), record sparse { active_index = s }))
next_populated_slot-Nearest_example =
    next_populated_slot-Nearest sparse 2 (inr (omega arith)) (omega arith) refl
