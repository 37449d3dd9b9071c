-- ===== src/Storage/Image.antt =====
-- The image of 1024 bytes in which src/storage.rs keeps its state.
use hidshift.InputProfile.Registry.{pushed}
use hidshift.Storage.HostCodec.{decode_host_record, encode_host_record}
use hidshift.Checksum.{new, Crc32, crc32_byte, finalize}
use hidshift.OutputTarget.Stored.{StoredPresentationConfig}
use hidshift.Storage.{
  StorageError, StorageState, StoredHostProfile, crc_mismatch, host_count_too_large,
  image_too_short, invalid_length, invalid_magic, push_host, stored_hosts_max, unsupported_version,
  validate_state,
}
use hidshift.OutputTarget.{HostId}
use hidshift.Storage.PresentationCodec.{
  decode_mirror_target, decode_output_target, decode_wired_ble_host, encode_mirror_target,
  encode_output_target, encode_wired_ble_host,
}
use hidshift.InputProfile.{
  InputProfile, InputProfileRegistry, input_profile_capacity, new_registry, restore,
}
use hidshift.Storage.Codec.{
  decode_global_settings, decode_input_profile, encode_global_settings, encode_input_profile,
  stored_host_record_len, stored_input_profile_len,
}
use hidshift.Prelude.{
  Bool, Layout, List, Option, Result, [], byte_of, false, if◌then◌else◌, leb, length, ltb, none,
  not, ok, or_err, read_u16, read_u32, refuse_if, replicate, slice, some, suc, take, to_le16,
  to_le32, true, write_all, write_at, zero, ℕ, ◌%◌, ◌&&◌, ◌*◌, ◌+◌, ◌==◌, ◌>>=◌, ◌>>◌, ◌∷◌,
}
pub mod Places
pub mod Write
pub mod Checked
pub mod Decoded
pub mod Records
pub mod RoundTrip
pub mod Tests

abbrev pub storage_image_len : ℕ
storage_image_len = 1024

abbrev pub storage_header_len : ℕ
storage_header_len = 16

abbrev pub storage_body_prefix_len : ℕ
storage_body_prefix_len = 352

-- `b"E32B"`
abbrev pub storage_magic : List ℕ
storage_magic = 0x45 ∷ 0x33 ∷ 0x32 ∷ 0x42 ∷ []

abbrev pub storage_schema_version : ℕ
storage_schema_version = 1

abbrev pub storage_body_len : ℕ → ℕ
storage_body_len host_count = storage_body_prefix_len + host_count * stored_host_record_len

unfoldable pub body_len_is_valid : ℕ → Bool
body_len_is_valid body_len =
    leb storage_body_prefix_len body_len
    && leb body_len (storage_body_len stored_hosts_max)
    && leb (storage_header_len + body_len) storage_image_len

-- The loop of `crc32_without_header_crc` from an index on. Its rounds are those of `Crc32::update`.
unfoldable pub crc32_skipping : ℕ → Crc32 → List ℕ → Crc32
unfolding crc32_byte
crc32_skipping index crc [] = crc
crc32_skipping index crc (byte ∷ bytes) =
    crc32_skipping (suc index) (if leb 12 index && ltb index 16 then crc else crc32_byte crc byte)
      bytes

unfoldable pub crc32_without_header_crc : List ℕ → ℕ
unfolding crc32_skipping new finalize
crc32_without_header_crc image = finalize (crc32_skipping 0 new image)

abbrev pub profile_offset : ℕ → ℕ
profile_offset index = 64 + index * stored_input_profile_len

abbrev pub host_offset : ℕ → ℕ
host_offset index = storage_header_len + storage_body_prefix_len + index * stored_host_record_len

-- The two loops over records, from an index on.
unfoldable pub write_profiles : List ℕ → ℕ → List InputProfile → List ℕ
unfolding encode_input_profile
write_profiles image index [] = image
write_profiles image index (profile ∷ profiles) =
    write_profiles (write_at image (profile_offset index) (encode_input_profile profile))
      (suc index) profiles

unfoldable pub write_hosts : List ℕ → ℕ → List StoredHostProfile → List ℕ
unfolding encode_host_record
write_hosts image index [] = image
write_hosts image index (host ∷ hosts) =
    write_hosts (write_at image (host_offset index) (encode_host_record host)) (suc index) hosts

abbrev pub host_byte : Option HostId → ℕ
host_byte none = 0xff
host_byte (some host) = host

-- The header and the prefix of the body.
unfoldable pub head_writes : StorageState → List (ℕ × List ℕ)
unfolding encode_global_settings encode_output_target encode_wired_ble_host encode_mirror_target
head_writes s =
    (0, storage_magic)
    ∷ (4, to_le16 storage_schema_version)
    ∷ (6, to_le16 (storage_body_len (length s.hosts)))
    ∷ (8, to_le32 s.generation)
    ∷ (16, (length s.hosts % 256) ∷ [])
    ∷ (17, host_byte s.last_active_host ∷ [])
    ∷ (18, encode_global_settings s.global_settings)
    ∷ (30, (length s.input_profiles.profiles % 256) ∷ [])
    ∷ (32, encode_output_target s.presentation.output_target)
    ∷ (33, encode_wired_ble_host s.presentation.wired_ble_host)
    ∷ (40, encode_mirror_target s.presentation.mirror_target)
    ∷ []

-- The image before its checksum is written.
unfoldable pub unchecked_image : StorageState → List ℕ
unfolding head_writes write_profiles write_hosts
unchecked_image s =
    let head = write_all (replicate storage_image_len 0) (head_writes s) in
    write_hosts (write_profiles head 0 s.input_profiles.profiles) 0 s.hosts

unfoldable pub write_checksum : List ℕ → ℕ → List ℕ
unfolding crc32_without_header_crc
write_checksum image total_len =
    write_at image 12 (to_le32 (crc32_without_header_crc (take total_len image)))

unfoldable pub encode_storage_image : StorageState → Result StorageError (List ℕ)
unfolding validate_state unchecked_image write_checksum
encode_storage_image s = do
  validate_state s
  ok (write_checksum (unchecked_image s) (storage_header_len + storage_body_len (length s.hosts)))

unfoldable pub read_profiles :
    List ℕ → ℕ → ℕ → InputProfileRegistry → Result StorageError InputProfileRegistry
unfolding decode_input_profile restore
read_profiles image zero index registry = ok registry
read_profiles image (suc count) index registry = do
  profile ←
      decode_input_profile
        (slice image (profile_offset index) (profile_offset index + stored_input_profile_len))
  kept ← or_err (restore registry profile) invalid_length
  read_profiles image count (suc index) kept

unfoldable pub read_hosts : List ℕ → ℕ → ℕ → StorageState → Result StorageError StorageState
unfolding decode_host_record push_host
read_hosts image zero index s = ok s
read_hosts image (suc count) index s = do
  host ←
      decode_host_record
        (slice image (host_offset index) (host_offset index + stored_host_record_len))
  pushed ← push_host s host
  read_hosts image count (suc index) pushed

-- `image[0..4] != STORAGE_MAGIC`
unfoldable pub same_bytes : List ℕ → List ℕ → Bool
same_bytes [] [] = true
same_bytes (x ∷ xs) (y ∷ ys) = (x == y) && same_bytes xs ys
same_bytes [] (y ∷ ys) = false
same_bytes (x ∷ xs) [] = false

-- The checks of the header, up to the count of the hosts.
unfoldable pub check_header : List ℕ → Result StorageError (Unit {0})
unfolding same_bytes body_len_is_valid crc32_without_header_crc
check_header image = do
  let body_len = read_u16 (slice image 6 8)
  refuse_if (ltb (length image) storage_image_len) image_too_short
  refuse_if (not (same_bytes (slice image 0 4) storage_magic)) invalid_magic
  refuse_if (not (read_u16 (slice image 4 6) == storage_schema_version)) unsupported_version
  refuse_if (not (body_len_is_valid body_len)) invalid_length
  refuse_if
      (not (
        read_u32 (slice image 12 16)
        == crc32_without_header_crc (take (storage_header_len + body_len) image)))
      crc_mismatch
  refuse_if (ltb stored_hosts_max (byte_of image 16)) host_count_too_large
  refuse_if (not (storage_body_len (byte_of image 16) == body_len)) invalid_length

unfoldable pub read_presentation : List ℕ → Result StorageError StoredPresentationConfig
unfolding decode_output_target decode_wired_ble_host decode_mirror_target
read_presentation image = do
  target ← decode_output_target (slice image 32 33)
  host ← decode_wired_ble_host (slice image 33 34)
  mirror_target ← decode_mirror_target (slice image 40 64)
  ok (record { output_target = target; wired_ble_host = host; mirror_target = mirror_target })

unfoldable pub decode_storage_image : List ℕ → Result StorageError StorageState
unfolding check_header read_presentation read_profiles read_hosts validate_state
    decode_global_settings new_registry
decode_storage_image image = do
  check_header image
  settings ← decode_global_settings (slice image 18 30)
  refuse_if (ltb input_profile_capacity (byte_of image 30)) invalid_length
  presentation ← read_presentation image
  profiles ← read_profiles image (byte_of image 30) 0 new_registry
  restored_state ← read_hosts image (byte_of image 16) 0 (record {
    generation = read_u32 (slice image 8 12);
    last_active_host = if byte_of image 17 == 0xff then none else some (byte_of image 17);
    global_settings = settings;
    input_profiles = profiles;
    presentation = presentation;
    hosts = [];
  })
  validate_state restored_state
  ok restored_state
