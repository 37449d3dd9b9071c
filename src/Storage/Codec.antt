-- ===== src/Storage/Codec.antt =====
-- The settings and the input profiles in the image of src/storage.rs, each as the bytes that its
-- routine fills from zero. A write is a place and the bytes that go there.
use hidshift.OutputTarget.{host_slot}
use hidshift.OutputTarget.Stored.{
  MirrorStableId, StoredOutputTarget, mirror_port_path_max_len, new_stable_id,
}
use hidshift.Storage.{
  StoredAddressKind, StoredBond, StoredHostProfile, StoredSecurityLevel, invalid_name,
  invalid_output_target, max_host_name_len, StorageError, invalid_length,
}
use hidshift.InputProfile.{InputIdentity, InputProfile, new_profile_id, restored}
use hidshift.Settings.{GlobalSettings, InputSettings, from_packed, packed}
use hidshift.Prelude.{
  Option, err, false, if◌then◌else◌, is_some, none, or_err, read_u32, some, to_le32, true, ◌%◌, ◌*◌,
  ◌+◌, ◌/◌, Bool, List, Result, [], byte_of, leb, ltb, not, ok, ok_or, read_u16, read_u64,
  refuse_if, replicate, slice, to_le16, to_le64, write_all, ℕ, ◌&&◌, ◌==◌, ◌>>=◌, ◌>>◌, ◌||◌, ◌∷◌,
}
pub mod RoundTrip

abbrev pub bool_byte : Bool → ℕ
bool_byte true = 1
bool_byte false = 0

-- `byte != 0`
abbrev pub byte_bool : ℕ → Bool
byte_bool byte = not (byte == 0)

abbrev pub stored_input_profile_len : ℕ
stored_input_profile_len = 36

abbrev pub stored_host_record_len : ℕ
stored_host_record_len = 88

abbrev pub stored_bond_len : ℕ
stored_bond_len = 48

unfoldable pub encode_global_settings : GlobalSettings → List ℕ
encode_global_settings s = write_all (replicate 12 0) (
    (0, s.boot_target ∷ [])
    ∷ (1, bool_byte s.restore_last_target ∷ [])
    ∷ (2, bool_byte s.auto_reconnect ∷ [])
    ∷ (3, to_le16 s.switch_release_delay_ms)
    ∷ (5, s.button_short_action ∷ [])
    ∷ (6, s.button_long_action ∷ [])
    ∷ (7, s.button_very_long_action ∷ [])
    ∷ (8, s.log_level ∷ [])
    ∷ [])

unfoldable pub global_settings_out_of_range : GlobalSettings → Bool
global_settings_out_of_range s =
    ltb 4 s.boot_target
    || ltb 1000 s.switch_release_delay_ms
    || ltb 3 s.button_short_action
    || ltb 3 s.button_long_action
    || ltb 3 s.button_very_long_action
    || ltb 4 s.log_level

abbrev pub read_global_settings : List ℕ → GlobalSettings
read_global_settings bytes = record {
  boot_target = byte_of bytes 0;
  restore_last_target = byte_bool (byte_of bytes 1);
  auto_reconnect = byte_bool (byte_of bytes 2);
  switch_release_delay_ms = read_u16 (slice bytes 3 5);
  button_short_action = byte_of bytes 5;
  button_long_action = byte_of bytes 6;
  button_very_long_action = byte_of bytes 7;
  log_level = byte_of bytes 8;
}

unfoldable pub decode_global_settings : List ℕ → Result StorageError GlobalSettings
unfolding global_settings_out_of_range
decode_global_settings bytes =
    let settings = read_global_settings bytes in
    refuse_if (global_settings_out_of_range settings) invalid_length >> ok settings

unfoldable pub encode_input_settings : InputSettings → List ℕ
encode_input_settings s = write_all (replicate 12 0) (
    (0, s.keyboard_layout ∷ [])
    ∷ (1, s.remap_from_usage ∷ [])
    ∷ (2, s.remap_to_usage ∷ [])
    ∷ (4, to_le16 s.mouse_sensitivity_percent)
    ∷ (6, to_le16 s.scroll_multiplier_percent)
    ∷ (8, to_le16 s.consumer_from_usage)
    ∷ (10, to_le16 s.consumer_to_usage)
    ∷ [])

unfoldable pub input_settings_out_of_range : InputSettings → Bool
input_settings_out_of_range s =
    ltb 2 s.keyboard_layout
    || not (leb 10 s.mouse_sensitivity_percent && leb s.mouse_sensitivity_percent 400)
    || not (leb 10 s.scroll_multiplier_percent && leb s.scroll_multiplier_percent 400)
    || ltb 1023 s.consumer_from_usage
    || ltb 1023 s.consumer_to_usage

abbrev pub read_input_settings : List ℕ → InputSettings
read_input_settings bytes = record {
  keyboard_layout = byte_of bytes 0;
  remap_from_usage = byte_of bytes 1;
  remap_to_usage = byte_of bytes 2;
  mouse_sensitivity_percent = read_u16 (slice bytes 4 6);
  scroll_multiplier_percent = read_u16 (slice bytes 6 8);
  consumer_from_usage = read_u16 (slice bytes 8 10);
  consumer_to_usage = read_u16 (slice bytes 10 12);
  target_switch_shortcut = record { modifiers = 0; key = 0 };
}

unfoldable pub decode_input_settings : List ℕ → Result StorageError InputSettings
unfolding input_settings_out_of_range
decode_input_settings bytes =
    let settings = read_input_settings bytes in
    refuse_if (input_settings_out_of_range settings) invalid_length >> ok settings

unfoldable pub encode_input_profile : InputProfile → List ℕ
unfolding encode_input_settings packed
encode_input_profile p = write_all (replicate stored_input_profile_len 0) (
    (0, p.id ∷ [])
    ∷ (2, to_le16 p.identity.vendor_id)
    ∷ (4, to_le16 p.identity.product_id)
    ∷ (6, to_le64 p.identity.instance_hash)
    ∷ (14, to_le64 p.last_seen)
    ∷ (22, to_le16 (packed p.settings.target_switch_shortcut))
    ∷ (24, encode_input_settings p.settings)
    ∷ [])

abbrev pub read_identity : List ℕ → InputIdentity
read_identity bytes = record {
  vendor_id = read_u16 (slice bytes 2 4);
  product_id = read_u16 (slice bytes 4 6);
  instance_hash = read_u64 (slice bytes 6 14);
}

unfoldable pub decode_input_profile : List ℕ → Result StorageError InputProfile
unfolding new_profile_id decode_input_settings from_packed restored
decode_input_profile bytes = do
  id ← ok_or (new_profile_id (byte_of bytes 0)) invalid_length
  settings ← decode_input_settings (slice bytes 24 36)
  shortcut ← ok_or (from_packed (read_u16 (slice bytes 22 24))) invalid_length
  ok (
      restored id (read_identity bytes) (read_u64 (slice bytes 14 22))
        (record settings { target_switch_shortcut = shortcut }))
