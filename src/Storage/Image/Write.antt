-- ===== src/Storage/Image/Write.antt =====
-- The image that `encode_storage_image` of src/storage.rs gives, as writes that keep apart.
use hidshift.Settings.{GlobalSettings}
use hidshift.Storage.HostCodec.{encode_host_record}
use hidshift.Storage.Codec.RoundTrip.{length-encode_input_profile}
use hidshift.Storage.PresentationCodec.RoundTrip.{length-encode_mirror_target}
use hidshift.Storage.HostCodec.RoundTrip.{length-encode_host_record}
use hidshift.OutputTarget.Stored.{StoredOutputTarget, stored_ble, stored_wired}
use hidshift.InputProfile.{input_profile_capacity}
use hidshift.Storage.PresentationCodec.{
  encode_mirror_target, encode_output_target, encode_wired_ble_host,
}
use hidshift.Storage.Image.Places.{
  length-joined, write_hosts-block, write_profiles-block, host_block, profile_block,
}
use hidshift.Storage.Codec.{
  encode_input_profile, stored_host_record_len, stored_input_profile_len, encode_global_settings,
}
use hidshift.Storage.{StorageState, stored_hosts_max}
use hidshift.Prelude.{
  Option, Within, ap, apart, arith, byte_of, get_elem?, get_or_of_slice, length-replicate,
  length-write_all, none, read_back, refl, slice, some, write_at, ◌∙◌, Layout, List, [], length,
  replicate, take, to_le16, to_le32, write_all, ℕ, ◌%◌, ◌+◌, ◌∷◌, ◌≡◌, ◌≤◌,
}
use hidshift.Storage.Image.{
  crc32_without_header_crc, head_writes, host_byte, storage_body_len, storage_header_len,
  storage_image_len, storage_magic, storage_schema_version, unchecked_image, write_checksum,
}

abbrev image_layout : Layout
image_layout =
    (0, 4)
    ∷ (4, 2)
    ∷ (6, 2)
    ∷ (8, 4)
    ∷ (16, 1)
    ∷ (17, 1)
    ∷ (18, 12)
    ∷ (30, 1)
    ∷ (32, 1)
    ∷ (33, 1)
    ∷ (40, 24)
    ∷ (64, 288)
    ∷ (368, 352)
    ∷ (12, 4)
    ∷ []

pub length-encode_global_settings : (g : GlobalSettings) → length (encode_global_settings g) ≡ 12
unfolding encode_global_settings
length-encode_global_settings g = length-write_all (replicate 12 0) _

pub length-encode_output_target : (t : StoredOutputTarget) → length (encode_output_target t) ≡ 1
unfolding encode_output_target
length-encode_output_target stored_wired = refl
length-encode_output_target (stored_ble slot) = refl

pub length-encode_wired_ble_host : (h : Option ℕ) → length (encode_wired_ble_host h) ≡ 1
unfolding encode_wired_ble_host
length-encode_wired_ble_host none = refl
length-encode_wired_ble_host (some slot) = refl

module _ (s : StorageState) where
  -- The eleven writes of the head, the two blocks of records and the checksum.
  abbrev pub image_writes : List ℕ → List (ℕ × List ℕ)
  image_writes checksum =
      (0, storage_magic)
      ∷ (4, to_le16 storage_schema_version)
      ∷ (6, to_le16 (storage_body_len (length s.hosts)))
      ∷ (8, to_le32 s.generation)
      ∷ (16, (length s.hosts % 256) ∷ [])
      ∷ (17, host_byte s.last_active_host ∷ [])
      ∷ (18, encode_global_settings s.global_settings)
      ∷ (30, (length s.input_profiles.profiles % 256) ∷ [])
      ∷ (32, encode_output_target s.presentation.output_target)
      ∷ (33, encode_wired_ble_host s.presentation.wired_ble_host)
      ∷ (40, encode_mirror_target s.presentation.mirror_target)
      ∷ (64, profile_block s.input_profiles.profiles)
      ∷ (368, host_block s.hosts)
      ∷ (12, checksum)
      ∷ []

  abbrev pub total_len : ℕ
  total_len = storage_header_len + storage_body_len (length s.hosts)

  abbrev pub checksum : ℕ
  checksum = crc32_without_header_crc (take total_len (unchecked_image s))

  abbrev pub written : List ℕ
  written = write_checksum (unchecked_image s) total_len

  -- No more records than there is room for, as the vectors of the source have it.
  pub record HasRoom : Type 0 where
    pub hosts : length s.hosts ≤ stored_hosts_max
    pub profiles : length s.input_profiles.profiles ≤ input_profile_capacity

  pub image-writes :
      written ≡ write_all (replicate storage_image_len 0) (image_writes (to_le32 checksum))
  unfolding write_checksum unchecked_image head_writes write_all
  image-writes =
      ap (λ bytes. write_at bytes 12 (to_le32 checksum))
        (write_hosts-block _ 0 s.hosts
          ∙ ap (λ bytes. write_at bytes 368 (host_block s.hosts))
              (write_profiles-block _ 0 s.input_profiles.profiles))

  image_writes-Within : HasRoom → Within (image_writes (to_le32 checksum)) image_layout
  image_writes-Within room =
      let g = length-encode_global_settings s.global_settings in
      let t = length-encode_output_target s.presentation.output_target in
      let b = length-encode_wired_ble_host s.presentation.wired_ble_host in
      let m = length-encode_mirror_target s.presentation.mirror_target in
      let ps =
        length-joined encode_input_profile stored_input_profile_len s.input_profiles.profiles
          length-encode_input_profile in
      let hs =
        length-joined encode_host_record stored_host_record_len s.hosts length-encode_host_record in
      (
        refl,
        omega arith,
        (
          refl,
          omega arith,
          (
            refl,
            omega arith,
            (
              refl,
              omega arith,
              (
                refl,
                omega arith,
                (
                  refl,
                  omega arith,
                  (
                    refl,
                    omega (arith, g),
                    (
                      refl,
                      omega arith,
                      (
                        refl,
                        omega (arith, t),
                        (
                          refl,
                          omega (arith, b),
                          (
                            refl,
                            omega (arith, m),
                            (
                              refl,
                              omega (arith, ps, room.profiles),
                              (refl, omega (arith, hs, room.hosts), (refl, omega arith, tt)),
                            ),
                          ),
                        ),
                      ),
                    ),
                  ),
                ),
              ),
            ),
          ),
        ),
      )

  -- Every field of the image is read back.
  pub field :
      (k : ℕ) {offset to : ℕ} {bytes : List ℕ}
      → HasRoom
      → get_elem? (image_writes (to_le32 checksum)) k ≡ some (offset, bytes)
      → offset + length bytes ≡ to
      → slice written offset to ≡ bytes
  field k {offset = offset} {to = to} room at end =
      ap (λ bytes. slice bytes offset to) image-writes
      ∙ read_back (replicate storage_image_len 0) (image_writes (to_le32 checksum)) image_layout k
          (image_writes-Within room)
          (ap (λ n. apart n image_layout) (length-replicate {A = ℕ} storage_image_len 0)) at end

  pub field_byte :
      (k i : ℕ) {byte : ℕ}
      → HasRoom
      → get_elem? (image_writes (to_le32 checksum)) k ≡ some (i, byte ∷ [])
      → byte_of written i ≡ byte
  field_byte k i room at = get_or_of_slice written i (i + 1) 0 (omega arith) (field k room at refl)
