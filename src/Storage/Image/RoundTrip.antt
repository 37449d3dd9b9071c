-- ===== src/Storage/Image/RoundTrip.antt =====
-- What `encode_storage_image` of src/storage.rs writes, `decode_storage_image` reads back.
use hidshift.Storage.Image.Checked.{length-written, check_header-written}
use hidshift.Storage.Image.Places.{length-joined}
use hidshift.Storage.HostCodec.{encode_host_record}
use hidshift.Storage.Image.Records.{read_hosts-block, read_profiles-block, with_hosts, restore_all}
use hidshift.Storage.Image.Write.{
  length-encode_global_settings, length-encode_output_target, length-encode_wired_ble_host, field,
  field_byte, written, HasRoom,
}
use hidshift.Storage.PresentationCodec.RoundTrip.{
  decode-encode_mirror_target, decode-encode_output_target, decode-encode_wired_ble_host,
  length-encode_mirror_target, IsMirror, IsSlot, IsTarget,
}
use hidshift.Storage.Codec.{
  decode_global_settings, encode_input_profile, stored_host_record_len, stored_input_profile_len,
  global_settings_out_of_range,
}
use hidshift.Storage.HostCodec.RoundTrip.{length-encode_host_record, IsHost}
use hidshift.InputProfile.{InputProfileRegistry, input_profile_capacity, new_registry}
use hidshift.Storage.Codec.RoundTrip.{
  decode-encode_global_settings, length-encode_input_profile, IsStorable,
}
use hidshift.Storage.Image.{
  storage_image_len, check_header, decode_storage_image, encode_storage_image, read_hosts,
  read_presentation, read_profiles, host_byte,
}
use hidshift.Storage.{
  invalid_length, StorageState, StoredHostProfile, active_host_missing, duplicate_host_id,
  invalid_host_id, is_stored, stored_hosts_max, validate_active, validate_hosts, validate_state,
}
use hidshift.OutputTarget.{HostId}
use hidshift.InputProfile.Registry.{Distinct}
use hidshift.Prelude.{
  sym, ltb, passes, then_ok, ◌≤◌, >>=-eq-ok, ap, byte_of, length, read_u32, read_u32-to_le32, slice,
  ℕ, ◌*◌, ◌++◌, ◌+◌, ◌∙◌, Bool, Bool-cases, Each, List, Option, [], arith, err, false, get_or,
  if◌then◌else◌, inl, inr, leb, none, ok, passed, refl, replicate, set, some, true, ◌-◌, ◌<◌, ◌==◌,
  ◌^◌, ◌∷◌, ◌≡◌,
}

-- What a state keeps over a restart: of the profiles what is stored, and the next sequence number is
-- behind those of all profiles.
unfoldable pub durable : StorageState → StorageState
unfolding restore_all
durable s = record s { input_profiles = restore_all new_registry s.input_profiles.profiles }

-- A state that the board can hold: it is valid, its vectors keep their capacity, its numbers their
-- width and its settings their range.
pub record IsStorableState (s : StorageState) : Type 0 where
  pub valid : validate_state s ≡ ok tt
  pub room : HasRoom s
  pub generation : s.generation < 2 ^ 32
  pub settings : global_settings_out_of_range s.global_settings ≡ false
  pub profiles : Each IsStorable s.input_profiles.profiles
  pub distinct : Distinct [] s.input_profiles.profiles
  pub target : IsTarget s.presentation.output_target
  pub wired : IsSlot s.presentation.wired_ble_host
  pub mirror : IsMirror s.presentation.mirror_target
  pub hosts : Each IsHost s.hosts

small_ids :
    (seen : List Bool) (hosts : List StoredHostProfile) (id : HostId)
    → validate_hosts seen hosts ≡ ok tt
    → is_stored hosts id ≡ true
    → id < 255
unfolding validate_hosts
small_ids seen [] id v h = cc
small_ids seen (host ∷ hosts) id v h =
    let (_, v1) = passed (host.host_id == 0) invalid_host_id _ v in
    let (low, v2) = passed (leb stored_hosts_max (host.host_id - 1)) invalid_host_id _ v1 in
    let (_, v3) = passed (get_or seen (host.host_id - 1) false) duplicate_host_id _ v2 in
    elim (Bool-cases (host.host_id == id)) [
      | inl e ↦ ground arith
      | inr e ↦
          let rest : is_stored hosts id ≡ true = rw e at h in
          small_ids (set seen (host.host_id - 1) true) hosts id v3 rest
    ]

read_active :
    (active : Option HostId) (hosts : List StoredHostProfile)
    → validate_hosts (replicate stored_hosts_max false) hosts ≡ ok tt
    → validate_active active hosts ≡ ok tt
    → (if host_byte active == 0xff then none else some (host_byte active)) ≡ active
unfolding validate_active
read_active none hosts v w = refl
read_active (some active) hosts v w =
    let stored : is_stored hosts active ≡ true = elim (Bool-cases (is_stored hosts active)) [
      | inl e ↦ e
      | inr e ↦ let bad : err active_host_missing ≡ ok tt = rw e at w in cc
    ] in
    let small = small_ids (replicate stored_hosts_max false) hosts active v stored in
    let other : (active == 0xff) ≡ false = ground (arith, small) in rw other refl

split_valid :
    (s : StorageState)
    → validate_state s ≡ ok tt
    → (validate_hosts (replicate stored_hosts_max false) s.hosts ≡ ok tt)
      × (validate_active s.last_active_host s.hosts ≡ ok tt)
unfolding validate_state
split_valid s v =
    let (_, first, second) =
      >>=-eq-ok (validate_hosts (replicate stored_hosts_max false) s.hosts) _ v in
    (first, second)

durable-valid : (s : StorageState) → validate_state s ≡ ok tt → validate_state (durable s) ≡ ok tt
unfolding validate_state durable
durable-valid s v = v

module _ (s : StorageState) (w : IsStorableState s) where
  presentation_read : read_presentation (written s) ≡ ok s.presentation
  unfolding read_presentation
  presentation_read =
      let target = length-encode_output_target s.presentation.output_target in
      let host = length-encode_wired_ble_host s.presentation.wired_ble_host in
      let mirror_target = length-encode_mirror_target s.presentation.mirror_target in
      rw
        (
          field s 8 {to = 33} w.room refl (omega (arith, target)),
          field s 9 {to = 34} w.room refl (omega (arith, host)),
          field s 10 {to = 64} w.room refl (omega (arith, mirror_target)),
          decode-encode_output_target s.presentation.output_target w.target,
          decode-encode_wired_ble_host s.presentation.wired_ble_host w.wired,
          decode-encode_mirror_target s.presentation.mirror_target w.mirror,
        )
        refl

  settings_read : decode_global_settings (slice (written s) 18 30) ≡ ok s.global_settings
  settings_read =
      ap decode_global_settings (
        field s 6 {to = 30} w.room refl
          (omega (arith, length-encode_global_settings s.global_settings)))
      ∙ decode-encode_global_settings s.global_settings w.settings

  generation_read : read_u32 (slice (written s) 8 12) ≡ s.generation
  generation_read =
      ap read_u32 (field s 3 {to = 12} w.room refl refl)
      ∙ read_u32-to_le32 s.generation w.generation

  active_read :
      (if byte_of (written s) 17 == 0xff then none else some (byte_of (written s) 17))
      ≡ s.last_active_host
  active_read =
      let (hosts, active) = split_valid s w.valid in
      rw (field_byte s 5 17 w.room refl) (read_active s.last_active_host s.hosts hosts active)

  host_count_read : byte_of (written s) 16 ≡ length s.hosts
  host_count_read = field_byte s 4 16 w.room refl ∙ omega (arith, w.room.hosts)

  profile_count_read : byte_of (written s) 30 ≡ length s.input_profiles.profiles
  profile_count_read = field_byte s 7 30 w.room refl ∙ omega (arith, w.room.profiles)

  profiles_read :
      read_profiles (written s) (length s.input_profiles.profiles) 0 new_registry
      ≡ ok (restore_all new_registry s.input_profiles.profiles)
  unfolding new_registry
  profiles_read =
      let ps = s.input_profiles.profiles in
      let n =
        length-joined encode_input_profile stored_input_profile_len ps
          length-encode_input_profile in
      read_profiles-block (written s) 0 (64 + length ps * stored_input_profile_len) new_registry ps
        (field s 11 w.room refl (omega (arith, n))) (omega arith) w.profiles w.distinct
        (omega (arith, w.room.profiles))

  hosts_read :
      (start : StorageState)
      → start.hosts ≡ []
      → read_hosts (written s) (length s.hosts) 0 start ≡ ok (with_hosts start s.hosts)
  hosts_read start none_yet =
      let n =
        length-joined encode_host_record stored_host_record_len s.hosts length-encode_host_record in
      let count = ap length none_yet in
      read_hosts-block (written s) 0 (368 + length s.hosts * stored_host_record_len) start s.hosts
        (field s 12 w.room refl (omega (arith, n))) (omega arith) w.hosts
        (omega (arith, w.room.hosts, count))
      ∙ ap (λ hosts. ok (with_hosts start (hosts ++ s.hosts))) none_yet

  -- The state before its hosts are read.
  abbrev begun : StorageState
  begun = with_hosts (durable s) []

  begun_read :
      {profiles : InputProfileRegistry}
      → profiles ≡ restore_all new_registry s.input_profiles.profiles
      → record {
        generation = read_u32 (slice (written s) 8 12);
        last_active_host =
            if byte_of (written s) 17 == 0xff then none else some (byte_of (written s) 17);
        global_settings = s.global_settings;
        input_profiles = profiles;
        presentation = s.presentation;
        hosts = [];
      }
        ≡ begun
  unfolding durable
  begun_read same = rw (generation_read, active_read, same) refl

  restored_read :
      (start : StorageState)
      → start ≡ begun
      → read_hosts (written s) (byte_of (written s) 16) 0 start ≡ ok (durable s)
  unfolding durable
  restored_read start same =
      ap (λ n. read_hosts (written s) n 0 start) host_count_read
      ∙ ap (read_hosts (written s) (length s.hosts) 0) same
      ∙ hosts_read begun refl

  few_profiles : ltb input_profile_capacity (byte_of (written s) 30) ≡ false
  few_profiles =
      let n = length s.input_profiles.profiles in
      let small : n ≤ input_profile_capacity = w.room.profiles in
      let fits : ltb input_profile_capacity n ≡ false = ground (arith, small) in
      ap (ltb input_profile_capacity) profile_count_read ∙ fits

  decode-written : decode_storage_image (written s) ≡ ok (durable s)
  unfolding decode_storage_image
  decode-written =
      then_ok (check_header (written s)) _ (check_header-written s w.room)
      ∙ then_ok (decode_global_settings (slice (written s) 18 30)) _ settings_read
      ∙ passes (ltb input_profile_capacity (byte_of (written s) 30)) invalid_length _ few_profiles
      ∙ then_ok (read_presentation (written s)) _ presentation_read
      ∙ then_ok (read_profiles (written s) (byte_of (written s) 30) 0 new_registry) _
          (ap (λ n. read_profiles (written s) n 0 new_registry) profile_count_read ∙ profiles_read)
      ∙ then_ok (read_hosts (written s) (byte_of (written s) 16) 0 _) _
          (restored_read _ (begun_read refl))
      ∙ then_ok (validate_state (durable s)) _ (durable-valid s w.valid)

-- Every state that the board can hold is written as an image, and reading the image gives the state
-- back, but for what the profiles do not keep over a restart.
pub decode-encode_storage_image :
    (s : StorageState)
    → IsStorableState s
    → (image : List ℕ) × (encode_storage_image s ≡ ok image)
      × (decode_storage_image image ≡ ok (durable s))
unfolding encode_storage_image
decode-encode_storage_image s w = (written s, rw w.valid refl, decode-written s w)

pub length-encode_storage_image :
    (s : StorageState) {image : List ℕ}
    → encode_storage_image s ≡ ok image
    → length image ≡ storage_image_len
unfolding encode_storage_image
length-encode_storage_image s {image = image} h =
    let (_, _, same) = >>=-eq-ok (validate_state s) _ h in
    let equal : written s ≡ image = cc in ap length (sym equal) ∙ length-written s
