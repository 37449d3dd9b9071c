-- ===== src/Storage/Image/Checked.antt =====
-- The checksum of an image of src/storage.rs does not depend on the four bytes where it is kept, so the
-- header of a written image passes its checks.
use hidshift.Storage.{
  crc_mismatch, host_count_too_large, image_too_short, invalid_length, invalid_magic,
  unsupported_version, StorageState, stored_hosts_max,
}
use hidshift.Checksum.{Crc32, crc32_byte, finalize, new}
use hidshift.Storage.Image.Write.{
  total_len, written, HasRoom, checksum, field, field_byte, image-writes, image_writes,
}
use hidshift.Prelude.{
  false, ne_of_eq, not, passes, refuse_if, sym, List, [], ap, arith, byte_of, if◌then◌else◌, leb,
  length, length-replicate, length-write_all, ltb, ok, read_u16, read_u16-to_le16, read_u32,
  read_u32-to_le32, refl, replicate, slice, suc, take, to_le32, true, write_at, zero, ℕ, ◌&&◌, ◌+◌,
  ◌<◌, ◌^◌, ◌∙◌, ◌∷◌, ◌≡◌, ◌≤◌,
}
use hidshift.Storage.Image.{
  storage_header_len, body_len_is_valid, check_header, crc32_skipping, crc32_without_header_crc,
  same_bytes, storage_body_len, storage_image_len, storage_magic, storage_schema_version,
  unchecked_image, write_checksum,
}

skip_step :
    (index : ℕ) (crc : Crc32) (x : ℕ) (xs : List ℕ)
    → (leb 12 index && ltb index 16) ≡ true
    → crc32_skipping index crc (x ∷ xs) ≡ crc32_skipping (suc index) crc xs
unfolding crc32_skipping
skip_step index crc x xs h = rw h refl

-- A write within the places 12 to 15, seen from an index on, leaves the state as it is.
crc32_skipping-write_at :
    (index : ℕ) (crc : Crc32) (xs : List ℕ) (offset n : ℕ) (bytes : List ℕ)
    → 12 ≤ index + offset
    → index + offset + length bytes ≤ 16
    → crc32_skipping index crc (take n (write_at xs offset bytes))
      ≡ crc32_skipping index crc (take n xs)
unfolding crc32_skipping write_at
crc32_skipping-write_at index crc [] offset n bytes h k = refl
crc32_skipping-write_at index crc (x ∷ xs) (suc offset) zero bytes h k = refl
crc32_skipping-write_at index crc (x ∷ xs) (suc offset) (suc n) bytes h k =
    crc32_skipping-write_at (suc index)
      (if leb 12 index && ltb index 16 then crc else crc32_byte crc x) xs offset n bytes
      (omega arith) (omega arith)
crc32_skipping-write_at index crc (x ∷ xs) zero n [] h k = refl
crc32_skipping-write_at index crc (x ∷ xs) zero zero (b ∷ bytes) h k = refl
crc32_skipping-write_at index crc (x ∷ xs) zero (suc n) (b ∷ bytes) h k =
    let skipped : (leb 12 index && ltb index 16) ≡ true = ground arith in
    skip_step index crc b (take n (write_at xs 0 bytes)) skipped
    ∙ crc32_skipping-write_at (suc index) crc xs zero n bytes (omega arith) (omega arith)
    ∙ sym (skip_step index crc x (take n xs) skipped)

-- Writing the checksum does not change it.
crc32-write_checksum :
    (image : List ℕ) (n total : ℕ)
    → crc32_without_header_crc (take n (write_checksum image total))
      ≡ crc32_without_header_crc (take n image)
unfolding crc32_without_header_crc write_checksum
crc32-write_checksum image n total = ap finalize (
    crc32_skipping-write_at 0 new image 12 n (to_le32 (crc32_without_header_crc (take total image)))
      (omega arith) (omega arith))

crc32-lt : (bytes : List ℕ) → crc32_without_header_crc bytes < 2 ^ 32
unfolding crc32_without_header_crc finalize
crc32-lt bytes = omega arith

few : (count : ℕ) → count ≤ stored_hosts_max → ltb stored_hosts_max count ≡ false
few count h = ground arith

body_len-valid :
    (count : ℕ) → count ≤ stored_hosts_max → body_len_is_valid (storage_body_len count) ≡ true
unfolding body_len_is_valid
body_len-valid count h = ground arith

pub length-written : (s : StorageState) → length (written s) ≡ storage_image_len
length-written s =
    ap length (image-writes s)
    ∙ length-write_all (replicate storage_image_len 0) (image_writes s (to_le32 (checksum s)))
    ∙ length-replicate {A = ℕ} storage_image_len 0

pub check_header-written : (s : StorageState) → HasRoom s → check_header (written s) ≡ ok tt
unfolding check_header
check_header-written s room =
    let body_len : read_u16 (slice (written s) 6 8) ≡ storage_body_len (length s.hosts) =
      ap read_u16 (field s 2 {to = 8} room refl refl)
      ∙ read_u16-to_le16 (storage_body_len (length s.hosts)) (omega (arith, room.hosts)) in
    let crc : read_u32 (slice (written s) 12 16) ≡ checksum s =
      ap read_u32 (field s 13 {to = 16} room refl refl)
      ∙ read_u32-to_le32 (checksum s) (crc32-lt (take (total_len s) (unchecked_image s))) in
    let version : read_u16 (slice (written s) 4 6) ≡ storage_schema_version =
      ap read_u16 (field s 1 {to = 6} room refl refl) in
    let count : byte_of (written s) 16 ≡ length s.hosts =
      field_byte s 4 16 room refl ∙ omega (arith, room.hosts) in
    let covered : crc32_without_header_crc (take (total_len s) (written s)) ≡ checksum s =
      crc32-write_checksum (unchecked_image s) (total_len s) (total_len s) in
    let same_crc : crc32_without_header_crc
          (take (storage_header_len + read_u16 (slice (written s) 6 8)) (written s))
        ≡ checksum s =
      ap (λ n. crc32_without_header_crc (take (storage_header_len + n) (written s))) body_len
      ∙ covered in
    let magic : same_bytes (slice (written s) 0 4) storage_magic ≡ true =
      ap (λ bytes. same_bytes bytes storage_magic) (field s 0 {to = 4} room refl refl) in
    let valid : body_len_is_valid (read_u16 (slice (written s) 6 8)) ≡ true =
      ap body_len_is_valid body_len ∙ body_len-valid (length s.hosts) room.hosts in
    passes _ image_too_short _ (ap (λ n. ltb n storage_image_len) (length-written s))
    ∙ passes _ invalid_magic _ (ap not magic)
    ∙ passes _ unsupported_version _ (ne_of_eq _ _ version)
    ∙ passes _ invalid_length _ (ap not valid)
    ∙ passes _ crc_mismatch _ (ne_of_eq _ _ (crc ∙ sym same_crc))
    ∙ passes _ host_count_too_large _
        (ap (λ n. ltb stored_hosts_max n) count ∙ few (length s.hosts) room.hosts)
    ∙ ap (λ b. refuse_if b invalid_length) (ne_of_eq _ _ (ap storage_body_len count ∙ sym body_len))
