-- ===== src/OutputTarget.antt =====
-- src/output_target.rs and the host slots of src/ids.rs: where the input goes, and the next computer
-- that is ready.
use hidshift.Routing.{host}
use hidshift.Prelude.{
  Bool, Option, Result, err, false, if◌then◌else◌, leb, min, none, not, ok, some, suc, true, zero,
  ℕ, ◌%◌, ◌&&◌, ◌+◌, ◌-◌, ◌/◌, ◌==◌, ◌^◌, ◌||◌,
}
pub mod Next
pub mod Selected
pub mod Stored
mod Tests

-- `HostId` is a u8.
abbrev pub HostId : Type 0
HostId = ℕ

abbrev pub host_slot_count : ℕ
host_slot_count = 4

-- `HostSlot::try_from`, whose error is the value.
unfoldable pub host_slot : ℕ → Result ℕ ℕ
host_slot value = if leb 1 value && leb value 4 then ok value else err value

pub data OutputTarget : Type 0 where
  wired : OutputTarget
  ble : HostId → OutputTarget

pub data OutputTargetError : Type 0 where
  invalid_ble_host : OutputTargetError

unfoldable pub validate : OutputTarget → Result OutputTargetError OutputTarget
validate wired = ok wired
validate (ble host) =
    if leb 1 host && leb host host_slot_count then ok (ble host) else err invalid_ble_host

-- `ready_ble_mask & (1 << (host.0 - 1)) != 0`
unfoldable pub ble_host_ready : ℕ → HostId → Bool
ble_host_ready mask host =
    leb 1 host && leb host host_slot_count && (mask / 2 ^ (host - 1) % 2 == 1)

-- `Some(host) == wired_ble_host`
abbrev pub is_host : Option HostId → HostId → Bool
is_host none host = false
is_host (some other) host = other == host

unfoldable pub selected_index : OutputTarget → Option HostId → ℕ
selected_index wired wired_ble_host = 0
selected_index (ble host) wired_ble_host =
    if is_host wired_ble_host host then 0 else min host host_slot_count

unfoldable pub wired_computer : Bool → ℕ → Option HostId → Option OutputTarget
unfolding ble_host_ready
wired_computer true mask host = some wired
wired_computer false mask none = none
wired_computer false mask (some host) = if ble_host_ready mask host then some (ble host) else none

-- What the body of the loop returns at an index, or `none` when it goes on.
unfoldable pub computer_at : Bool → ℕ → Option HostId → ℕ → Option OutputTarget
unfolding wired_computer ble_host_ready
computer_at wired_ready mask host index =
    if index == 0
    then wired_computer wired_ready mask host
    else if not (is_host host index) && ble_host_ready mask index
    then some (ble index)
    else none

-- The early return of a round, or else what the later rounds give.
unfoldable pub or_later : Option OutputTarget → Option OutputTarget → Option OutputTarget
or_later (some target) rest = some target
or_later none rest = rest

-- The loop, from an offset on, for so many offsets.
unfoldable pub scan_computers : (ℕ → Option OutputTarget) → ℕ → ℕ → ℕ → Option OutputTarget
unfolding or_later
scan_computers at selected zero offset = none
scan_computers at selected (suc count) offset =
    or_later (at ((selected + offset) % (host_slot_count + 1)))
      (scan_computers at selected count (offset + 1))

unfoldable pub next_ready_computer_target :
    OutputTarget → Bool → ℕ → Option HostId → Option OutputTarget
unfolding selected_index computer_at scan_computers
next_ready_computer_target selected wired_ready mask host =
    scan_computers (computer_at wired_ready mask host) (selected_index selected host)
      host_slot_count 1

pub data OutputTargetAvailability : Type 0 where
  ready connected_not_ready unavailable : OutputTargetAvailability

pub data BleTargetReadinessPolicy : Type 0 where
  keyboard_required all_standard_reports any_report : BleTargetReadinessPolicy

unfoldable pub is_ready : BleTargetReadinessPolicy → Bool → Bool → Bool → Bool
is_ready keyboard_required keyboard mouse consumer = keyboard
is_ready all_standard_reports keyboard mouse consumer = keyboard && mouse && consumer
is_ready any_report keyboard mouse consumer = keyboard || mouse || consumer

pub record OutputTargetState : Type 0 where
  pub selected : OutputTarget
  pub active : Option OutputTarget
  pub availability : OutputTargetAvailability
  pub transition_operation_id : ℕ

unfoldable pub new : OutputTargetState
new = record {
  selected = wired;
  active = none;
  availability = unavailable;
  transition_operation_id = 0;
}

-- `wrapping_add(1)` of a u32
abbrev pub next_operation : ℕ → ℕ
next_operation id = (id + 1) % 2 ^ 32

unfoldable pub select_valid :
    OutputTargetState
    → Result OutputTargetError OutputTarget
    → OutputTarget
    → Result OutputTargetError ℕ × OutputTargetState
select_valid s (err e) target = (err e, s)
select_valid s (ok valid) target =
    let id : ℕ = next_operation s.transition_operation_id in
    (
      ok id,
      record {
        selected = target;
        active = none;
        availability = unavailable;
        transition_operation_id = id;
      },
    )

unfoldable pub select :
    OutputTargetState → OutputTarget → Result OutputTargetError ℕ × OutputTargetState
unfolding select_valid
select s target = select_valid s (validate target) target

unfoldable pub active_for : OutputTargetAvailability → OutputTarget → Option OutputTarget
active_for ready target = some target
active_for connected_not_ready target = none
active_for unavailable target = none

unfoldable pub set_availability : OutputTargetState → OutputTargetAvailability → OutputTargetState
unfolding active_for
set_availability s availability = record s {
  availability = availability;
  active = active_for availability s.selected;
}

unfoldable pub begin_transition : OutputTargetState → ℕ × OutputTargetState
begin_transition s =
    let id : ℕ = next_operation s.transition_operation_id in
    (
      id,
      record s { active = none; availability = connected_not_ready; transition_operation_id = id },
    )

pub data MirrorConfiguration : Type 0 where
  disabled : MirrorConfiguration
  mirror_selected : ℕ → MirrorConfiguration

pub data UsbPresentation : Type 0 where
  fallback : UsbPresentation
  mirror : ℕ → UsbPresentation

unfoldable pub effective_presentation : OutputTarget → MirrorConfiguration → Bool → UsbPresentation
effective_presentation wired (mirror_selected candidate) true = mirror candidate
effective_presentation wired (mirror_selected candidate) false = fallback
effective_presentation wired disabled available = fallback
effective_presentation (ble host) config available = fallback
