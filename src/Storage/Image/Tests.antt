-- ===== src/Storage/Image/Tests.antt =====
-- A state with a computer, its bond and an input device, as in the unit tests of src/storage.rs.
use hidshift.Storage.Image.Decoded.{IsSound, decode_storage_image-IsSound}
use hidshift.OutputTarget.Stored.{default_presentation}
use hidshift.InputProfile.{InputProfile, new_profile_id, restored}
use hidshift.InputProfile.Registry.{Distinct}
use hidshift.Settings.Shortcut.{off}
use hidshift.Settings.{default_global_settings, default_input_settings, disabled_shortcut}
use hidshift.Storage.Image.RoundTrip.{IsStorableState, decode-encode_storage_image, durable}
use hidshift.Storage.Codec.{global_settings_out_of_range, input_settings_out_of_range}
use hidshift.Storage.Codec.RoundTrip.{IsStorable}
use hidshift.Storage.{
  StorageState, StoredBond, StoredHostProfile, encrypted, random_address, validate_active,
  validate_hosts, validate_state,
}
use hidshift.Storage.HostCodec.RoundTrip.{IsHost, bond_of, irk_of}
use hidshift.Storage.PresentationCodec.RoundTrip.{no_mirror, no_slot, wired_target}
use hidshift.Prelude.{List, [], arith, false, ok, refl, replicate, some, true, ℕ, ◌∷◌, ◌≡◌}
use hidshift.Storage.Image.{decode_storage_image, encode_storage_image}

abbrev key : ℕ → List ℕ
key byte = replicate 16 byte

abbrev bond : StoredBond
bond = record {
  peer_address = 1 ∷ 2 ∷ 3 ∷ 4 ∷ 5 ∷ 6 ∷ [];
  peer_address_kind = random_address;
  peer_irk = some (key 0x11);
  ltk = key 0x22;
  is_bonded = true;
  security_level = encrypted;
}

abbrev laptop : StoredHostProfile
laptop = record {
  host_id = 1;
  bonded = true;
  keyboard_cccd_enabled = true;
  mouse_cccd_enabled = false;
  consumer_cccd_enabled = true;
  keyboard_output_cccd_enabled = false;
  name = record { len = 2; bytes = 0x50 ∷ 0x43 ∷ replicate 30 0 };
  bond = some bond;
}

abbrev keyboard : InputProfile
keyboard =
    restored 1 (record { vendor_id = 0x046d; product_id = 0xc547; instance_hash = 7 }) 3
      default_input_settings

abbrev pub demo : StorageState
demo = record {
  generation = 5;
  last_active_host = some 1;
  global_settings = default_global_settings;
  input_profiles = record { profiles = keyboard ∷ []; next_sequence = 9 };
  presentation = default_presentation;
  hosts = laptop ∷ [];
}

laptop-IsHost : IsHost laptop
laptop-IsHost = record {
  len = omega arith;
  name = refl;
  bond = bond_of bond (record { address = refl; irk = irk_of (key 0x11) refl; ltk = refl });
}

keyboard-IsStorable : IsStorable keyboard
unfolding restored new_profile_id default_input_settings input_settings_out_of_range
    disabled_shortcut
keyboard-IsStorable = record {
  id = refl;
  vendor = omega arith;
  product = omega arith;
  instance_hash = omega arith;
  last_seen = omega arith;
  settings = refl;
  shortcut = off;
}

pub demo-IsStorableState : IsStorableState demo
unfolding validate_state validate_hosts validate_active Distinct default_global_settings
    global_settings_out_of_range default_presentation restored
demo-IsStorableState = record {
  valid = refl;
  room = record { hosts = omega arith; profiles = omega arith };
  generation = omega arith;
  settings = refl;
  profiles = (keyboard-IsStorable, tt);
  distinct = (record { id = refl; identity = refl }, tt);
  target = wired_target;
  wired = no_slot;
  mirror = no_mirror;
  hosts = (laptop-IsHost, tt);
}

decode-encode_storage_image_example :
    (image : List ℕ) × (encode_storage_image demo ≡ ok image)
    × (decode_storage_image image ≡ ok (durable demo))
decode-encode_storage_image_example = decode-encode_storage_image demo demo-IsStorableState

-- The image of the state, and that it is read.
abbrev demo_image :
    (image : List ℕ) × (encode_storage_image demo ≡ ok image)
    × (decode_storage_image image ≡ ok (durable demo))
demo_image = decode-encode_storage_image demo demo-IsStorableState

decode_storage_image-IsSound_example : IsSound (durable demo)
decode_storage_image-IsSound_example = decode_storage_image-IsSound demo_image.0 demo_image.2
