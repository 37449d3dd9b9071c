-- ===== src/Settings.antt =====
-- src/settings.rs: what a user can set for the board and for each input device. The table of
-- descriptors, whose texts are for people, is not here.
use hidshift.Prelude.{
  Bool, Option, from_le16, if◌then◌else◌, leb, none, not, some, true, ℕ, ◌%◌, ◌&&◌, ◌/◌, ◌==◌, ◌||◌,
}
pub mod Shortcut
mod Tests

-- The usage of a key and the modifier bits are u8.
pub record KeyboardShortcut : Type 0 where
  pub modifiers : ℕ
  pub key : ℕ

unfoldable pub disabled_shortcut : KeyboardShortcut
disabled_shortcut = record { modifiers = 0; key = 0 }

unfoldable pub new_shortcut : ℕ → ℕ → Option KeyboardShortcut
new_shortcut modifiers key =
    if key == 0 || (leb 0xe0 key && leb key 0xe7)
    then none
    else some (record { modifiers = modifiers; key = key })

-- `value as u8` and `(value >> 8) as u8` of a u16.
unfoldable pub from_packed : ℕ → Option KeyboardShortcut
unfolding new_shortcut disabled_shortcut
from_packed value =
    if value % 256 == 0
    then some disabled_shortcut
    else new_shortcut (value / 256 % 256) (value % 256)

unfoldable pub packed : KeyboardShortcut → ℕ
packed s = from_le16 s.key s.modifiers

unfoldable pub is_enabled : KeyboardShortcut → Bool
is_enabled s = not (s.key == 0)

pub record GlobalSettings : Type 0 where
  pub boot_target : ℕ
  pub restore_last_target : Bool
  pub auto_reconnect : Bool
  pub switch_release_delay_ms : ℕ
  pub button_short_action : ℕ
  pub button_long_action : ℕ
  pub button_very_long_action : ℕ
  pub log_level : ℕ

unfoldable pub default_global_settings : GlobalSettings
default_global_settings = record {
  boot_target = 0;
  restore_last_target = true;
  auto_reconnect = true;
  switch_release_delay_ms = 20;
  button_short_action = 1;
  button_long_action = 2;
  button_very_long_action = 3;
  log_level = 2;
}

pub record InputSettings : Type 0 where
  pub keyboard_layout : ℕ
  pub remap_from_usage : ℕ
  pub remap_to_usage : ℕ
  pub mouse_sensitivity_percent : ℕ
  pub scroll_multiplier_percent : ℕ
  pub consumer_from_usage : ℕ
  pub consumer_to_usage : ℕ
  pub target_switch_shortcut : KeyboardShortcut

unfoldable pub default_input_settings : InputSettings
unfolding disabled_shortcut
default_input_settings = record {
  keyboard_layout = 0;
  remap_from_usage = 0;
  remap_to_usage = 0;
  mouse_sensitivity_percent = 100;
  scroll_multiplier_percent = 100;
  consumer_from_usage = 0;
  consumer_to_usage = 0;
  target_switch_shortcut = disabled_shortcut;
}
