-- ===== src/Storage/PresentationCodec/RoundTrip.antt =====
-- The chosen target and the mirrored device that src/storage.rs writes are read back.
use hidshift.OutputTarget.{host_slot}
use hidshift.Storage.Codec.{bool_byte}
use hidshift.Storage.PresentationCodec.{
  decode_mirror_target, decode_output_target, decode_present_mirror, decode_wired_ble_host,
  encode_mirror_target, encode_output_target, encode_wired_ble_host, hash_or_zero, read_serial_hash,
}
use hidshift.OutputTarget.Stored.{
  MirrorStableIdError, MirrorStableId, StoredOutputTarget, mirror_port_path_max_len,
  missing_physical_location, new_stable_id, port_path, port_path_too_long, stored_ble, stored_wired,
}
use hidshift.Prelude.{
  length-write_all, read_u32, ◌%◌, Result, err, Layout, List, Option, Within, [], ap, arith,
  byte_of, false, get_elem?, get_or_of_slice, is_none, is_some, leb, length, length-write_at, ltb,
  none, ok, passed, read_back, read_u16-to_le16, read_u32-to_le32, refl, replicate, slice,
  slice-shorter, some, sym, take, to_le16, to_le32, true, write_at, ℕ, ◌&&◌, ◌*◌, ◌+◌, ◌<◌, ◌==◌,
  ◌^◌, ◌∙◌, ◌∷◌, ◌≡◌, ◌≤◌,
}

-- A slot is a `HostSlot`, so it is valid.
pub data IsTarget : StoredOutputTarget → Type 0 where
  wired_target : IsTarget stored_wired
  ble_target : (slot : ℕ) → host_slot slot ≡ ok slot → IsTarget (stored_ble slot)

pub data IsSlot : Option ℕ → Type 0 where
  no_slot : IsSlot none
  slot_of : (slot : ℕ) → host_slot slot ≡ ok slot → IsSlot (some slot)

slot-bounds : (slot : ℕ) → host_slot slot ≡ ok slot → (1 ≤ slot) × (slot ≤ 4)
unfolding host_slot
slot-bounds slot h = (ground arith, ground arith)

pub decode-encode_output_target :
    (target : StoredOutputTarget)
    → IsTarget target
    → decode_output_target (encode_output_target target) ≡ ok target
unfolding decode_output_target encode_output_target
decode-encode_output_target _ wired_target = refl
decode-encode_output_target _ (ble_target slot h) =
    let (low, high) = slot-bounds slot h in
    let not_wired : (slot == 0) ≡ false = ground arith in
    let in_range : (leb 1 slot && leb slot 4) ≡ true = ground arith in rw (not_wired, in_range) refl

pub decode-encode_wired_ble_host :
    (host : Option ℕ) → IsSlot host → decode_wired_ble_host (encode_wired_ble_host host) ≡ ok host
unfolding decode_wired_ble_host encode_wired_ble_host
decode-encode_wired_ble_host _ no_slot = refl
decode-encode_wired_ble_host _ (slot_of slot h) =
    let (low, high) = slot-bounds slot h in
    let present : (slot == 0) ≡ false = ground arith in
    let in_range : (leb 1 slot && leb slot 4) ≡ true = ground arith in rw (present, in_range) refl

-- `MirrorStableId::new` made the identity.
pub record IsStableId (i : MirrorStableId) : Type 0 where
  pub made :
      new_stable_id i.vendor_id i.product_id i.serial_hash i.descriptor_hash (port_path i) ≡ ok i
  pub vendor : i.vendor_id < 2 ^ 16
  pub product : i.product_id < 2 ^ 16
  pub serial : hash_or_zero i.serial_hash < 2 ^ 32
  pub descriptor : i.descriptor_hash < 2 ^ 32

abbrev path_of : Result MirrorStableIdError MirrorStableId → ℕ × List ℕ
path_of (ok i) = (i.port_path_len, i.port_path_bytes)
path_of (err why) = (0, [])

stable_id-path :
    (i : MirrorStableId) → IsStableId i → (i.port_path_len ≤ 8) × (length i.port_path_bytes ≡ 8)
unfolding new_stable_id
stable_id-path i w =
    let (short, rest) = passed (ltb 8 (length (port_path i))) port_path_too_long _ w.made in
    let (_, same) =
      passed (is_none i.serial_hash && (length (port_path i) == 0)) missing_physical_location _
        rest in
    let len : length (port_path i) ≡ i.port_path_len = ap (λ r. (path_of r).0) same in
    let bytes : write_at (replicate 8 0) 0 (port_path i) ≡ i.port_path_bytes =
      ap (λ r. (path_of r).1) same in
    (ground arith, sym (ap length bytes) ∙ length-write_at (replicate 8 0) 0 (port_path i))

abbrev mirror_writes : MirrorStableId → List (ℕ × List ℕ)
mirror_writes identity =
    (0, (1 + 2 * bool_byte (is_some identity.serial_hash)) ∷ [])
    ∷ (1, identity.port_path_len ∷ [])
    ∷ (2, to_le16 identity.vendor_id)
    ∷ (4, to_le16 identity.product_id)
    ∷ (6, to_le32 (hash_or_zero identity.serial_hash))
    ∷ (10, to_le32 identity.descriptor_hash)
    ∷ (14, identity.port_path_bytes)
    ∷ []

abbrev mirror_layout : Layout
mirror_layout = (0, 1) ∷ (1, 1) ∷ (2, 2) ∷ (4, 2) ∷ (6, 4) ∷ (10, 4) ∷ (14, 8) ∷ []

module _ (i : MirrorStableId) (w : IsStableId i) where
  abbrev image : List ℕ
  image = encode_mirror_target (some i)

  within : Within (mirror_writes i) mirror_layout
  within =
      let (_, n) = stable_id-path i w in
      (
        refl,
        omega arith,
        (
          refl,
          omega arith,
          (
            refl,
            omega arith,
            (refl, omega arith, (refl, omega arith, (refl, omega arith, (refl, omega arith, tt)))),
          ),
        ),
      )

  mirror_read :
      (k : ℕ) {offset to : ℕ} {bytes : List ℕ}
      → get_elem? (mirror_writes i) k ≡ some (offset, bytes)
      → offset + length bytes ≡ to
      → slice (encode_mirror_target (some i)) offset to ≡ bytes
  unfolding encode_mirror_target
  mirror_read k = read_back (replicate 24 0) (mirror_writes i) mirror_layout k within refl

  mirror_byte :
      (k j : ℕ) {byte : ℕ}
      → get_elem? (mirror_writes i) k ≡ some (j, byte ∷ [])
      → byte_of (encode_mirror_target (some i)) j ≡ byte
  mirror_byte k j e =
      get_or_of_slice (encode_mirror_target (some i)) j (j + 1) 0 (omega arith)
        (mirror_read k e refl)

  path_read : slice image 14 (14 + i.port_path_len) ≡ port_path i
  unfolding port_path
  path_read =
      let (small, n) = stable_id-path i w in
      slice-shorter image 14 i.port_path_len 22 (omega arith)
      ∙ ap (take i.port_path_len) (mirror_read 6 {to = 22} refl (omega (arith, n)))

  serial_read : (serial : Option ℕ) → i.serial_hash ≡ serial → read_serial_hash image ≡ serial
  serial_read none e =
      let flags : byte_of image 0 ≡ 1 =
        mirror_byte 0 0 refl ∙ ap (λ o. 1 + 2 * bool_byte (is_some o)) e in
      rw flags refl
  serial_read (some hash) e =
      let flags : byte_of image 0 ≡ 3 =
        mirror_byte 0 0 refl ∙ ap (λ o. 1 + 2 * bool_byte (is_some o)) e in
      let same : hash_or_zero i.serial_hash ≡ hash = ap hash_or_zero e in
      let read : read_u32 (slice image 6 10) ≡ hash =
        ap read_u32 (mirror_read 4 {to = 10} refl refl)
        ∙ read_u32-to_le32 (hash_or_zero i.serial_hash) w.serial
        ∙ same in
      rw flags (ap some read)

  decode-encode_present : decode_present_mirror image ≡ ok (some i)
  unfolding decode_present_mirror
  decode-encode_present =
      let (small, _) = stable_id-path i w in
      let fits : ltb mirror_port_path_max_len i.port_path_len ≡ false = ground arith in
      rw
        (
          mirror_byte 1 1 refl,
          fits,
          path_read,
          serial_read i.serial_hash refl,
          mirror_read 2 {to = 4} refl refl,
          mirror_read 3 {to = 6} refl refl,
          mirror_read 5 {to = 14} refl refl,
          read_u16-to_le16 i.vendor_id w.vendor,
          read_u16-to_le16 i.product_id w.product,
          read_u32-to_le32 i.descriptor_hash w.descriptor,
          w.made,
        )
        refl

pub data IsMirror : Option MirrorStableId → Type 0 where
  no_mirror : IsMirror none
  mirror_of : (i : MirrorStableId) → IsStableId i → IsMirror (some i)

no_mirror_flags : byte_of (encode_mirror_target none) 0 ≡ 0
unfolding encode_mirror_target
no_mirror_flags = refl

pub decode-encode_mirror_target :
    (target : Option MirrorStableId)
    → IsMirror target
    → decode_mirror_target (encode_mirror_target target) ≡ ok target
unfolding decode_mirror_target
decode-encode_mirror_target _ no_mirror = rw no_mirror_flags refl
decode-encode_mirror_target _ (mirror_of i w) =
    let flags : byte_of (encode_mirror_target (some i)) 0
        ≡ 1 + 2 * bool_byte (is_some i.serial_hash) =
      mirror_byte i w 0 0 refl in
    let present : (byte_of (encode_mirror_target (some i)) 0 % 2 == 0) ≡ false =
      ground (arith, flags) in
    rw present (decode-encode_present i w)

pub length-encode_mirror_target :
    (target : Option MirrorStableId) → length (encode_mirror_target target) ≡ 24
unfolding encode_mirror_target
length-encode_mirror_target none = refl
length-encode_mirror_target (some i) = length-write_all (replicate 24 0) (mirror_writes i)
