-- ===== src/MouseAccumulator.antt =====
-- src/mouse_accumulator.rs: for each host, the movement that waits for a report. A report is its
-- buttons and its movement; the seven bytes of src/reports/ble_mouse.rs only carry them.
use hidshift.Prelude.Int.{ltb_ℤ, neg_part, negsuc, pos, pos_part, ℤ, ◌+ℤ◌, ◌-ℤ◌}
use hidshift.Prelude.{
  Bool, List, Option, false, get_or, if◌then◌else◌, length, ltb, none, not, replicate,
  saturating_add32, set, some, true, ℕ, ◌%◌, ◌&&◌, ◌-◌, ◌==◌, ◌||◌,
}
pub mod Conserve
pub mod Drain
mod Tests

pub record MouseMovement : Type 0 where
  pub x : ℤ
  pub y : ℤ
  pub wheel : ℤ
  pub pan : ℤ

pub record MouseReport : Type 0 where
  pub buttons : ℕ
  pub movement : MouseMovement

pub record PendingMouseState : Type 0 where
  pub buttons : ℕ
  pub x : ℤ
  pub y : ℤ
  pub wheel : ℤ
  pub pan : ℤ
  pub pending : Bool

pub record MouseAccumulatorStats : Type 0 where
  pub reports_coalesced : ℕ
  pub movement_saturated : ℕ

pub record MouseReportAccumulator : Type 0 where
  pub hosts : List PendingMouseState
  pub stats : MouseAccumulatorStats

-- `PendingMouseState::default()`
unfoldable pub idle : PendingMouseState
idle = record { buttons = 0; x = pos 0; y = pos 0; wheel = pos 0; pan = pos 0; pending = false }

unfoldable pub new : ℕ → MouseReportAccumulator
unfolding idle
new hosts = record {
  hosts = replicate hosts idle;
  stats = record { reports_coalesced = 0; movement_saturated = 0 };
}

unfoldable pub host_index : ℕ → ℕ → Option ℕ
host_index hosts host_id =
    if host_id == 0 then none else if ltb (host_id - 1) hosts then some (host_id - 1) else none

abbrev pub i32_max : ℤ
i32_max = pos 2147483647

abbrev pub i32_min : ℤ
i32_min = negsuc 2147483647

-- The sum of two i32, and the count of the sums that were saturated.
unfoldable pub saturating_add : ℤ → ℤ → ℕ → ℤ × ℕ
unfolding ◌+ℤ◌
saturating_add current delta saturated =
    if ltb_ℤ i32_max (current +ℤ delta)
    then (i32_max, saturating_add32 saturated 1)
    else if ltb_ℤ (current +ℤ delta) i32_min
    then (i32_min, saturating_add32 saturated 1)
    else (current +ℤ delta, saturated)

-- `clamp`
unfoldable pub clamp : ℤ → ℤ → ℤ → ℤ
clamp low high value = if ltb_ℤ value low then low else if ltb_ℤ high value then high else value

-- The part that fits a report, and what remains.
unfoldable pub take_axis : ℤ → ℤ → ℤ → ℤ × ℤ
unfolding clamp ◌-ℤ◌
take_axis low high value = (clamp low high value, value -ℤ clamp low high value)

unfoldable pub take_axis_i16 : ℤ → ℤ × ℤ
unfolding take_axis
take_axis_i16 = take_axis (negsuc 32767) (pos 32767)

unfoldable pub take_axis_i8 : ℤ → ℤ × ℤ
unfolding take_axis
take_axis_i8 = take_axis (negsuc 127) (pos 127)

-- The four sums of `push`.
unfoldable pub add_movement :
    PendingMouseState
    → MouseMovement
    → MouseAccumulatorStats
    → PendingMouseState × MouseAccumulatorStats
unfolding saturating_add
add_movement s m stats =
    let (x, n1) = saturating_add s.x m.x stats.movement_saturated in
    let (y, n2) = saturating_add s.y m.y n1 in
    let (wheel, n3) = saturating_add s.wheel m.wheel n2 in
    let (pan, n4) = saturating_add s.pan m.pan n3 in
    (
      record s { x = x; y = y; wheel = wheel; pan = pan; pending = true },
      record stats { movement_saturated = n4 },
    )

abbrev pub coalesced : Bool → MouseAccumulatorStats → MouseAccumulatorStats
coalesced pending stats =
    if pending
    then record stats { reports_coalesced = saturating_add32 stats.reports_coalesced 1 }
    else stats

-- `push` on the state of the host; `none` is a refusal.
unfoldable pub push_state :
    PendingMouseState
    → MouseReport
    → MouseAccumulatorStats
    → Option (PendingMouseState × MouseAccumulatorStats)
unfolding add_movement
push_state s r stats =
    if not (r.buttons == s.buttons) && s.pending
    then none
    else some
        (add_movement (record s { buttons = r.buttons }) r.movement (coalesced s.pending stats))

unfoldable pub push : MouseReportAccumulator → ℕ → MouseReport → Bool × MouseReportAccumulator
unfolding host_index push_state idle
push a host_id r = elim (host_index (length a.hosts) host_id) [
  | none ↦ (false, a)
  | some index ↦ elim (push_state (get_or a.hosts index idle) r a.stats) [
    | none ↦ (false, a)
    | some (s, stats) ↦ (true, record { hosts = set a.hosts index s; stats = stats })
  ]
]

unfoldable pub set_buttons : MouseReportAccumulator → ℕ → ℕ → Bool × MouseReportAccumulator
unfolding host_index idle
set_buttons a host_id buttons = elim (host_index (length a.hosts) host_id) [
  | none ↦ (false, a)
  | some index ↦ (
    true,
    record a {
      hosts = set a.hosts index (record (get_or a.hosts index idle) { buttons = buttons });
    },
  )
]

unfoldable pub buttons_of : MouseReportAccumulator → ℕ → Option ℕ
unfolding host_index idle
buttons_of a host_id = elim (host_index (length a.hosts) host_id) [
  | none ↦ none
  | some index ↦ some (get_or a.hosts index idle).buttons
]

abbrev pub is_zero : ℤ → Bool
is_zero v = (pos_part v == 0) && (neg_part v == 0)

-- `MouseButtons::from_bits_truncate`
abbrev pub from_bits_truncate : ℕ → ℕ
from_bits_truncate bits = bits % 32

-- `take_next` on the state of the host.
unfoldable pub take_state : PendingMouseState → Option MouseReport × PendingMouseState
unfolding take_axis_i16 take_axis_i8
take_state s =
    let (x, x_left) = take_axis_i16 s.x in
    let (y, y_left) = take_axis_i16 s.y in
    let (wheel, wheel_left) = take_axis_i8 s.wheel in
    let (pan, pan_left) = take_axis_i8 s.pan in
    if not s.pending then (none, s) else (
      some (record {
        buttons = from_bits_truncate s.buttons;
        movement = record { x = x; y = y; wheel = wheel; pan = pan };
      }),
      record s {
        x = x_left;
        y = y_left;
        wheel = wheel_left;
        pan = pan_left;
        pending =
            not (is_zero x_left)
            || not (is_zero y_left)
            || not (is_zero wheel_left)
            || not (is_zero pan_left);
      },
    )

unfoldable pub take_next : MouseReportAccumulator → ℕ → Option MouseReport × MouseReportAccumulator
unfolding host_index take_state idle
take_next a host_id = elim (host_index (length a.hosts) host_id) [
  | none ↦ (none, a)
  | some index ↦
      let taken = take_state (get_or a.hosts index idle) in
      (taken.0, record a { hosts = set a.hosts index taken.1 })
]

unfoldable pub discard : MouseReportAccumulator → ℕ → MouseReportAccumulator
unfolding host_index idle
discard a host_id = elim (host_index (length a.hosts) host_id) [
  | none ↦ a
  | some index ↦ record a { hosts = set a.hosts index idle }
]

unfoldable pub discard_all : MouseReportAccumulator → MouseReportAccumulator
unfolding idle
discard_all a = record a { hosts = replicate (length a.hosts) idle }

unfoldable pub is_pending : MouseReportAccumulator → ℕ → Bool
unfolding host_index idle
is_pending a host_id = elim (host_index (length a.hosts) host_id) [
  | none ↦ false
  | some index ↦ (get_or a.hosts index idle).pending
]
