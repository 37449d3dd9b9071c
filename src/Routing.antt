-- ===== src/Routing.antt =====
-- src/routing.rs: the table of BLE host slots and the slot that input goes to.
-- The const generic N is the length of `hosts`. A read of `hosts[active_index]` that would be out
-- of bounds, where the code panics, reads `none` here; `Routing.Inv` rules it out.
use hidshift.Prelude.{
  ℕ, zero, suc, ◌+◌, ◌%◌, ◌≡◌, Bool, true, false, Option, none, some, List, [], ◌∷◌, ◌==◌, leb,
  if◌then◌else◌, length, get_or, set, replicate, Result, ok, err, is_some, position_from,
}
pub mod Inv
pub mod Cycle
mod Tests

-- `HostId` of src/ids.rs wraps a u8.
abbrev pub HostId : Type 0
HostId = ℕ

pub data ActiveTargetError : Type 0 where
  capacity_zero out_of_range host_not_found : ActiveTargetError

pub record HostRouter : Type 0 where
  pub active_index : ℕ
  pub hosts : List (Option HostId)

abbrev pub capacity : HostRouter → ℕ
capacity r = length r.hosts

pub new : ℕ → HostRouter
new n = record { active_index = 0; hosts = replicate n none }

pub active : HostRouter → Option HostId
active r = if capacity r == 0 then none else get_or r.hosts r.active_index none

pub active_slot : HostRouter → Option ℕ
active_slot r = if capacity r == 0 then none else some r.active_index

pub host : HostRouter → ℕ → Result ActiveTargetError (Option HostId)
host r slot = if leb (capacity r) slot then err out_of_range else ok (get_or r.hosts slot none)

-- A `&mut self` method returns its result beside the new router.
abbrev pub Method : Type 0 → Type 0
Method A = Result ActiveTargetError A × HostRouter

pub set_host : HostRouter → ℕ → HostId → Method (Unit {0})
set_host r slot h =
    if leb (capacity r) slot
    then (err out_of_range, r)
    else (ok tt, record r { hosts = set r.hosts slot (some h) })

pub clear_host : HostRouter → ℕ → Method (Unit {0})
clear_host r slot =
    if leb (capacity r) slot
    then (err out_of_range, r)
    else (ok tt, record r { hosts = set r.hosts slot none })

pub set_active_slot : HostRouter → ℕ → Method (Unit {0})
set_active_slot r slot =
    if capacity r == 0
    then (err capacity_zero, r)
    else if leb (capacity r) slot
    then (err out_of_range, r)
    else (ok tt, record r { active_index = slot })

-- `*candidate == Some(host)`
abbrev pub holds : HostId → Option HostId → Bool
holds h none = false
holds h (some k) = k == h

pub slot_for_host : HostRouter → HostId → Option ℕ
unfolding position_from
slot_for_host r h = position_from (holds h) 0 r.hosts

pub set_active_host : HostRouter → HostId → Method ℕ
unfolding slot_for_host
set_active_host r h = if capacity r == 0 then (err capacity_zero, r) else elim (slot_for_host r h) [
  | none ↦ (err host_not_found, r)
  | some slot ↦ (ok slot, record r { active_index = slot })
]

pub next_slot : HostRouter → Method ℕ
next_slot r =
    if capacity r == 0
    then (err capacity_zero, r)
    else (let next = (r.active_index + 1) % capacity r in
        (ok next, record r { active_index = next }))

pub all_none {ℓ} : {A : Type ℓ} → List (Option A) → Bool
all_none [] = true
all_none (none ∷ xs) = all_none xs
all_none (some x ∷ xs) = false

-- `for offset in 1..=N`, with `left` rounds to go.
pub scan_populated : HostRouter → ℕ → ℕ → Option ℕ
scan_populated r zero offset = none
scan_populated r (suc left) offset =
    let slot = (r.active_index + offset) % capacity r in
    let rest = scan_populated r left (suc offset) in
    if is_some (get_or r.hosts slot none) then some slot else rest

pub next_populated_slot : HostRouter → Method (Option ℕ)
unfolding all_none scan_populated
next_populated_slot r =
    if capacity r == 0
    then (err capacity_zero, r)
    else if all_none r.hosts
    then (ok none, r)
    else elim (scan_populated r (capacity r) 1) [
      | none ↦ (ok none, r)
      | some slot ↦ (ok (some slot), record r { active_index = slot })
    ]
