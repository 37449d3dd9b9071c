-- ===== src/Storage/PresentationCodec.antt =====
-- The chosen target, the host that shares the wired computer and the mirrored device in the image of
-- src/storage.rs.
use hidshift.Storage.Codec.{bool_byte}
use hidshift.OutputTarget.{ble, host_slot}
use hidshift.Storage.{StorageError, invalid_output_target}
use hidshift.OutputTarget.Stored.{
  MirrorStableId, StoredOutputTarget, mirror_port_path_max_len, new_stable_id, stored_ble,
  stored_wired,
}
use hidshift.Prelude.{
  List, Option, Result, [], byte_of, err, if◌then◌else◌, is_some, leb, ltb, none, not, ok, or_err,
  read_u16, read_u32, refuse_if, replicate, slice, some, to_le16, to_le32, write_all, ℕ, ◌%◌, ◌&&◌,
  ◌*◌, ◌+◌, ◌/◌, ◌==◌, ◌>>=◌, ◌>>◌, ◌∷◌,
}
pub mod RoundTrip

unfoldable pub encode_output_target : StoredOutputTarget → List ℕ
encode_output_target stored_wired = 0 ∷ []
encode_output_target (stored_ble slot) = slot ∷ []

unfoldable pub decode_output_target : List ℕ → Result StorageError StoredOutputTarget
unfolding host_slot
decode_output_target bytes =
    let byte = byte_of bytes 0 in
    let ble = or_err (host_slot byte) invalid_output_target >>= λ slot. ok (stored_ble slot) in
    if byte == 0
    then ok stored_wired
    else if leb 1 byte && leb byte 4
    then ble
    else err invalid_output_target

unfoldable pub encode_wired_ble_host : Option ℕ → List ℕ
encode_wired_ble_host none = 0 ∷ []
encode_wired_ble_host (some slot) = slot ∷ []

unfoldable pub decode_wired_ble_host : List ℕ → Result StorageError (Option ℕ)
unfolding host_slot
decode_wired_ble_host bytes =
    let byte = byte_of bytes 0 in
    let slot = or_err (host_slot byte) invalid_output_target >>= λ slot. ok (some slot) in
    if byte == 0
    then ok none
    else if leb 1 byte && leb byte 4
    then slot
    else err invalid_output_target

abbrev pub hash_or_zero : Option ℕ → ℕ
hash_or_zero none = 0
hash_or_zero (some hash) = hash

-- The flags are `1 | u8::from(identity.serial_hash.is_some()) << 1`.
unfoldable pub encode_mirror_target : Option MirrorStableId → List ℕ
encode_mirror_target none = replicate 24 0
encode_mirror_target (some identity) = write_all (replicate 24 0) (
    (0, (1 + 2 * bool_byte (is_some identity.serial_hash)) ∷ [])
    ∷ (1, identity.port_path_len ∷ [])
    ∷ (2, to_le16 identity.vendor_id)
    ∷ (4, to_le16 identity.product_id)
    ∷ (6, to_le32 (hash_or_zero identity.serial_hash))
    ∷ (10, to_le32 identity.descriptor_hash)
    ∷ (14, identity.port_path_bytes)
    ∷ [])

abbrev pub read_serial_hash : List ℕ → Option ℕ
read_serial_hash bytes =
    if not (byte_of bytes 0 / 2 % 2 == 0) then some (read_u32 (slice bytes 6 10)) else none

unfoldable pub decode_present_mirror : List ℕ → Result StorageError (Option MirrorStableId)
unfolding new_stable_id
decode_present_mirror bytes = do
  let path_len = byte_of bytes 1
  refuse_if (ltb mirror_port_path_max_len path_len) invalid_output_target
  let made =
      new_stable_id (read_u16 (slice bytes 2 4)) (read_u16 (slice bytes 4 6))
        (read_serial_hash bytes) (read_u32 (slice bytes 10 14)) (slice bytes 14 (14 + path_len))
  identity ← or_err made invalid_output_target
  ok (some identity)

-- `bytes[0] & 1 == 0`
unfoldable pub decode_mirror_target : List ℕ → Result StorageError (Option MirrorStableId)
unfolding decode_present_mirror
decode_mirror_target bytes =
    let present = decode_present_mirror bytes in
    if byte_of bytes 0 % 2 == 0 then ok none else present
