-- ===== src/Storage/Codec/RoundTrip.antt =====
-- The settings and the profiles that src/storage.rs writes are read back.
use hidshift.Settings.Shortcut.{from_packed-packed, packed-lt, IsShortcut}
use hidshift.InputProfile.{InputProfile, new_profile_id, restored}
use hidshift.Storage.{invalid_length}
use hidshift.Settings.{packed, InputSettings, GlobalSettings}
use hidshift.Storage.Codec.{
  decode_input_profile, encode_input_profile, read_identity, stored_input_profile_len,
  decode_input_settings, encode_input_settings, input_settings_out_of_range, read_input_settings,
  bool_byte, byte_bool, decode_global_settings, encode_global_settings,
  global_settings_out_of_range, read_global_settings,
}
use hidshift.Prelude.{
  byte_of, length, length-write_all, read_u16, read_u64, read_u64-to_le64, replicate, slice,
  accepts, arith, some, Bool, false, ok, read_u16-to_le16, refl, true, write_all, write_at, ◌<◌,
  ◌^◌, ◌≡◌,
}

pub byte_bool-bool_byte : (b : Bool) → byte_bool (bool_byte b) ≡ b
byte_bool-bool_byte true = refl
byte_bool-bool_byte false = refl

read-global :
    (s : GlobalSettings)
    → s.switch_release_delay_ms < 2 ^ 16
    → read_global_settings (encode_global_settings s) ≡ s
unfolding encode_global_settings write_all write_at
read-global s h =
    rw
      (
        byte_bool-bool_byte s.restore_last_target,
        byte_bool-bool_byte s.auto_reconnect,
        read_u16-to_le16 s.switch_release_delay_ms h,
      )
      refl

delay_small :
    (s : GlobalSettings)
    → global_settings_out_of_range s ≡ false
    → s.switch_release_delay_ms < 2 ^ 16
unfolding global_settings_out_of_range
delay_small s h = ground arith

pub decode-encode_global_settings :
    (s : GlobalSettings)
    → global_settings_out_of_range s ≡ false
    → decode_global_settings (encode_global_settings s) ≡ ok s
unfolding decode_global_settings
decode-encode_global_settings s h =
    accepts global_settings_out_of_range invalid_length
      (read_global_settings (encode_global_settings s)) s (read-global s (delay_small s h)) h

-- The record of 12 bytes has no shortcut: it stands beside it in the profile.
abbrev pub without_shortcut : InputSettings → InputSettings
without_shortcut s = record s { target_switch_shortcut = record { modifiers = 0; key = 0 } }

pub record AreShort (s : InputSettings) : Type 0 where
  pub sensitivity : s.mouse_sensitivity_percent < 2 ^ 16
  pub scroll : s.scroll_multiplier_percent < 2 ^ 16
  pub consumer_from : s.consumer_from_usage < 2 ^ 16
  pub consumer_to : s.consumer_to_usage < 2 ^ 16

all_short : (s : InputSettings) → input_settings_out_of_range s ≡ false → AreShort s
unfolding input_settings_out_of_range
all_short s h = record {
  sensitivity = ground arith;
  scroll = ground arith;
  consumer_from = ground arith;
  consumer_to = ground arith;
}

read-input :
    (s : InputSettings)
    → AreShort s
    → read_input_settings (encode_input_settings s) ≡ without_shortcut s
unfolding encode_input_settings write_all write_at
read-input s w =
    rw
      (
        read_u16-to_le16 s.mouse_sensitivity_percent w.sensitivity,
        read_u16-to_le16 s.scroll_multiplier_percent w.scroll,
        read_u16-to_le16 s.consumer_from_usage w.consumer_from,
        read_u16-to_le16 s.consumer_to_usage w.consumer_to,
      )
      refl

out_of_range-without :
    (s : InputSettings)
    → input_settings_out_of_range s ≡ false
    → input_settings_out_of_range (without_shortcut s) ≡ false
unfolding input_settings_out_of_range
out_of_range-without s h = h

decode-encode_input_settings :
    (s : InputSettings)
    → input_settings_out_of_range s ≡ false
    → decode_input_settings (encode_input_settings s) ≡ ok (without_shortcut s)
unfolding decode_input_settings
decode-encode_input_settings s h =
    accepts input_settings_out_of_range invalid_length
      (read_input_settings (encode_input_settings s)) (without_shortcut s)
      (read-input s (all_short s h)) (out_of_range-without s h)

-- What a profile keeps over a restart.
abbrev pub durable_profile : InputProfile → InputProfile
durable_profile p = restored p.id p.identity p.last_seen p.settings

pub record IsStorable (p : InputProfile) : Type 0 where
  pub id : new_profile_id p.id ≡ some p.id
  pub vendor : p.identity.vendor_id < 2 ^ 16
  pub product : p.identity.product_id < 2 ^ 16
  pub instance_hash : p.identity.instance_hash < 2 ^ 64
  pub last_seen : p.last_seen < 2 ^ 64
  pub settings : input_settings_out_of_range p.settings ≡ false
  pub shortcut : IsShortcut p.settings.target_switch_shortcut

module _ (p : InputProfile) (w : IsStorable p) where
  id_part : byte_of (encode_input_profile p) 0 ≡ p.id
  unfolding encode_input_profile encode_input_settings write_all write_at
  id_part = refl

  settings_part : slice (encode_input_profile p) 24 36 ≡ encode_input_settings p.settings
  unfolding encode_input_profile encode_input_settings write_all write_at
  settings_part = refl

  shortcut_part :
      read_u16 (slice (encode_input_profile p) 22 24) ≡ packed p.settings.target_switch_shortcut
  unfolding encode_input_profile encode_input_settings write_all write_at
  shortcut_part =
      read_u16-to_le16 (packed p.settings.target_switch_shortcut)
        (packed-lt p.settings.target_switch_shortcut w.shortcut)

  last_seen_part : read_u64 (slice (encode_input_profile p) 14 22) ≡ p.last_seen
  unfolding encode_input_profile encode_input_settings write_all write_at
  last_seen_part = read_u64-to_le64 p.last_seen w.last_seen

  identity_part : read_identity (encode_input_profile p) ≡ p.identity
  unfolding encode_input_profile encode_input_settings write_all write_at
  identity_part =
      rw
        (
          read_u16-to_le16 p.identity.vendor_id w.vendor,
          read_u16-to_le16 p.identity.product_id w.product,
          read_u64-to_le64 p.identity.instance_hash w.instance_hash,
        )
        refl

  pub decode-encode_input_profile :
      decode_input_profile (encode_input_profile p) ≡ ok (durable_profile p)
  unfolding decode_input_profile
  decode-encode_input_profile =
      rw
        (
          id_part,
          settings_part,
          shortcut_part,
          last_seen_part,
          identity_part,
          w.id,
          decode-encode_input_settings p.settings w.settings,
          from_packed-packed p.settings.target_switch_shortcut w.shortcut,
        )
        refl

pub length-encode_input_profile :
    (p : InputProfile) → length (encode_input_profile p) ≡ stored_input_profile_len
unfolding encode_input_profile
length-encode_input_profile p = length-write_all (replicate stored_input_profile_len 0) _
