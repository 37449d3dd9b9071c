-- ===== src/TargetControl.antt =====
-- The buttons of src/target_control.rs: the recovery button at start, the debouncer, and the switch
-- that turns presses of different lengths into intents.
use hidshift.Prelude.{
  Bool, Option, false, if◌then◌else◌, leb, ltb, none, not, saturating_add64, some, true, ℕ, ◌-◌,
}
pub mod Debounce
pub mod Alternation
pub mod Recovery
pub mod Switch
mod Tests

pub data ButtonIntent : Type 0 where
  next_connected_target enter_pairing_mode clear_active_host_bond : ButtonIntent

pub data BootRecoveryAction : Type 0 where
  normal suppress factory_reset : BootRecoveryAction

pub record BootRecoveryControl : Type 0 where
  pub arm_until_ms : ℕ
  pub pressed_since_ms : Option ℕ
  pub hold_ms : ℕ

unfoldable pub new_recovery : ℕ → ℕ → ℕ → BootRecoveryControl
new_recovery now_ms arm_window_ms hold_ms = record {
  arm_until_ms = saturating_add64 now_ms arm_window_ms;
  pressed_since_ms = none;
  hold_ms = hold_ms;
}

-- `sample`, by what `pressed_since_ms` and `pressed` are.
unfoldable pub sample_by :
    BootRecoveryControl → Option ℕ → Bool → ℕ → BootRecoveryAction × BootRecoveryControl
sample_by c (some since) true now_ms = (suppress, c)
sample_by c (some since) false now_ms = (
  if leb c.hold_ms (now_ms - since) then factory_reset else suppress,
  record c { pressed_since_ms = none },
)
sample_by c none true now_ms =
    if leb now_ms c.arm_until_ms
    then (suppress, record c { pressed_since_ms = some now_ms })
    else (normal, c)
sample_by c none false now_ms = (normal, c)

unfoldable pub sample : BootRecoveryControl → Bool → ℕ → BootRecoveryAction × BootRecoveryControl
unfolding sample_by
sample c pressed now_ms = sample_by c c.pressed_since_ms pressed now_ms

pub data DebouncedButtonEvent : Type 0 where
  pressed_event released_event : DebouncedButtonEvent

pub record DebouncedButton : Type 0 where
  pub debounce_ms : ℕ
  pub stable_pressed : Bool
  pub candidate_pressed : Bool
  pub candidate_since_ms : ℕ
  pub press_reported : Bool

unfoldable pub new_button : ℕ → DebouncedButton
new_button debounce_ms = record {
  debounce_ms = debounce_ms;
  stable_pressed = false;
  candidate_pressed = false;
  candidate_since_ms = 0;
  press_reported = false;
}

-- `==` of Booleans
abbrev pub same_bool : Bool → Bool → Bool
same_bool a b = if a then b else not b

-- `update`, once the candidate has been stable for long enough.
unfoldable pub settle : DebouncedButton → Bool → Option DebouncedButtonEvent × DebouncedButton
settle b true =
    if b.press_reported
    then (none, record b { stable_pressed = true })
    else (some pressed_event, record b { stable_pressed = true; press_reported = true })
settle b false = (some released_event, record b { stable_pressed = false; press_reported = false })

unfoldable pub update : DebouncedButton → Bool → ℕ → Option DebouncedButtonEvent × DebouncedButton
unfolding settle
update b pressed now_ms =
    if not (same_bool pressed b.candidate_pressed)
    then (none, record b { candidate_pressed = pressed; candidate_since_ms = now_ms })
    else if same_bool pressed b.stable_pressed
    then (none, b)
    else if ltb (now_ms - b.candidate_since_ms) b.debounce_ms
    then (none, b)
    else settle b pressed

pub record TargetSwitchControl : Type 0 where
  pub button : DebouncedButton
  pub long_press_ms : ℕ
  pub very_long_press_ms : ℕ
  pub pressed_since_ms : Option ℕ

abbrev pub default_debounce_ms : ℕ
default_debounce_ms = 30

abbrev pub default_long_press_ms : ℕ
default_long_press_ms = 3000

abbrev pub default_very_long_press_ms : ℕ
default_very_long_press_ms = 8000

unfoldable pub with_timings : ℕ → ℕ → ℕ → TargetSwitchControl
unfolding new_button
with_timings debounce_ms long_press_ms very_long_press_ms = record {
  button = new_button debounce_ms;
  long_press_ms = long_press_ms;
  very_long_press_ms = very_long_press_ms;
  pressed_since_ms = none;
}

unfoldable pub with_debounce_ms : ℕ → TargetSwitchControl
unfolding with_timings
with_debounce_ms debounce_ms =
    with_timings debounce_ms default_long_press_ms default_very_long_press_ms

unfoldable pub new_switch : TargetSwitchControl
unfolding with_timings
new_switch = with_timings default_debounce_ms default_long_press_ms default_very_long_press_ms

-- The intent of a press that was held for so long.
unfoldable pub intent : TargetSwitchControl → ℕ → ButtonIntent
intent c held_ms =
    if leb c.very_long_press_ms held_ms
    then clear_active_host_bond
    else if leb c.long_press_ms held_ms
    then enter_pairing_mode
    else next_connected_target

-- The arms of the match on the button's event.
unfoldable pub on_event :
    TargetSwitchControl
    → ℕ
    → Option DebouncedButtonEvent
    → Option ButtonIntent × TargetSwitchControl
unfolding intent
on_event c now_ms none = (none, c)
on_event c now_ms (some pressed_event) = (none, record c { pressed_since_ms = some now_ms })
on_event c now_ms (some released_event) = elim c.pressed_since_ms [
  | none ↦ (none, c)
  | some since ↦ (some (intent c (now_ms - since)), record c { pressed_since_ms = none })
]

unfoldable pub target_button_sample :
    TargetSwitchControl → Bool → ℕ → Option ButtonIntent × TargetSwitchControl
unfolding update on_event
target_button_sample c pressed now_ms =
    let updated : Option DebouncedButtonEvent × DebouncedButton = update c.button pressed now_ms in
    on_event (record c { button = updated.1 }) now_ms updated.0
