-- ===== src/Routing/Inv.antt =====
-- The bound on `active_index` of src/routing.rs.
use native.Mathlib.Nat.{mod-lt}
use hidshift.Prelude.{
  position_from_bounds, ℕ, zero, suc, ◌+◌, ◌<◌, ◌≡◌, ◌⊎◌, inl, inr, refl, Option, none, some, List,
  [], ◌∷◌, arith, length-set, length-replicate, Option-cases,
}
use hidshift.Routing.{
  HostRouter, HostId, capacity, new, set_host, clear_host, set_active_slot, set_active_host,
  next_slot, next_populated_slot, slot_for_host, scan_populated, holds,
}

-- With a slot at all, the active one exists.
abbrev pub IsValid : HostRouter → Type 0
IsValid r = (capacity r ≡ 0) ⊎ (r.active_index < capacity r)

-- The calls that change a router.
pub data Call : Type 0 where
  sets : ℕ → HostId → Call
  clears : ℕ → Call
  activates_slot : ℕ → Call
  activates_host : HostId → Call
  cycles : Call
  cycles_populated : Call

pub after : HostRouter → Call → HostRouter
after r (sets slot h) = (set_host r slot h).1
after r (clears slot) = (clear_host r slot).1
after r (activates_slot slot) = (set_active_slot r slot).1
after r (activates_host h) = (set_active_host r h).1
after r cycles = (next_slot r).1
after r cycles_populated = (next_populated_slot r).1

pub run : HostRouter → List Call → HostRouter
unfolding after
run r [] = r
run r (c ∷ cs) = run (after r c) cs

scan_populated_bound :
    (r : HostRouter) (left offset : ℕ) {s : ℕ}
    → 0 < capacity r
    → scan_populated r left offset ≡ some s
    → s < capacity r
unfolding scan_populated
scan_populated_bound r zero offset h e = ground arith
scan_populated_bound r (suc left) offset {s} h e =
    ground (
      arith,
      scan_populated_bound r left (suc offset) {s = s} h,
      mod-lt (r.active_index + offset) h,
    )

IsValid-keep :
    (r r' : HostRouter)
    → capacity r' ≡ capacity r
    → r'.active_index ≡ r.active_index
    → IsValid r
    → IsValid r'
IsValid-keep r r' c a v = ground arith

set_active_host_lem :
    (r : HostRouter) (h : HostId)
    → IsValid r
    → IsValid (set_active_host r h).1 × (capacity (set_active_host r h).1 ≡ capacity r)
unfolding set_active_host slot_for_host
set_active_host_lem r h v = elim (Option-cases (slot_for_host r h)) [
  | inl e ↦ ground arith
  | inr (k, e) ↦ ground (arith, position_from_bounds (holds h) 0 r.hosts {k = k})
]

next_populated_slot_lem :
    (r : HostRouter)
    → IsValid r
    → IsValid (next_populated_slot r).1 × (capacity (next_populated_slot r).1 ≡ capacity r)
unfolding next_populated_slot
next_populated_slot_lem r v = elim (Option-cases (scan_populated r (capacity r) 1)) [
  | inl e ↦ ground arith
  | inr (k, e) ↦ ground (arith, scan_populated_bound r (capacity r) 1 {s = k})
]

after_lem :
    (r : HostRouter) (c : Call)
    → IsValid r
    → IsValid (after r c) × (capacity (after r c) ≡ capacity r)
unfolding after set_host clear_host set_active_slot next_slot
after_lem r (sets slot h) v = ground (arith, length-set r.hosts slot (some h))
after_lem r (clears slot) v = ground (arith, length-set r.hosts slot none)
after_lem r (activates_slot slot) v = ground arith
after_lem r (activates_host h) v = set_active_host_lem r h v
after_lem r cycles v = ground (arith, mod-lt (r.active_index + 1) {m = capacity r})
after_lem r cycles_populated v = next_populated_slot_lem r v

new-IsValid : (n : ℕ) → IsValid (new n) × (capacity (new n) ≡ n)
unfolding new
new-IsValid n = ground (arith, length-replicate {A = Option HostId} n none)

run_lem :
    (r : HostRouter) (cs : List Call)
    → IsValid r
    → IsValid (run r cs) × (capacity (run r cs) ≡ capacity r)
unfolding run
run_lem r [] v = (v, refl)
run_lem r (c ∷ cs) v = ground (arith, after_lem r c v, run_lem (after r c) cs)

-- After any sequence of calls on a fresh router of n slots, there are still n slots, and with n > 0
-- the active index is a slot.
pub run-new-IsValid :
    (n : ℕ) (cs : List Call) → IsValid (run (new n) cs) × (capacity (run (new n) cs) ≡ n)
run-new-IsValid n cs = ground (arith, new-IsValid n, run_lem (new n) cs (new-IsValid n).0)
