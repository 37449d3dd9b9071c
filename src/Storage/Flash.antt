-- ===== src/Storage/Flash.antt =====
-- The two slots of src/storage.rs as journals in NOR flash. The flash driver is a parameter; the
-- offsets are u32, and `validate_for_flash` sees to it that none of their sums overflows.
use hidshift.Storage.{
  StorageError, flash_erase, flash_layout, flash_read, flash_verify, flash_write,
}
use hidshift.Storage.Image.{decode_storage_image, same_bytes, storage_image_len}
use hidshift.Storage.Slots.{StorageSlotBackend, StorageSlotIndex, slot_a, slot_b, to_option}
use hidshift.Prelude.{
  false, Bool, List, Option, Result, [], err, get_or, if◌then◌else◌, is_some, leb, ltb, none, not,
  ok, refuse_if, replicate, set, some, suc, true, zero, ℕ, ◌%◌, ◌&&◌, ◌*◌, ◌+◌, ◌/◌, ◌==◌, ◌>>=◌,
  ◌>>◌, ◌^◌, ◌||◌, ◌∷◌,
}
pub mod Scan
mod Layout
pub mod Journal
pub mod Landing
pub mod Reboot
pub mod Torn
mod Tests

abbrev pub storage_flash_slot_size : ℕ
storage_flash_slot_size = 4096

-- `embedded_storage::nor_flash::NorFlash`, over the states of a driver. A call that fails gives
-- `false` or `none`; it may have changed the flash nevertheless.
pub record NorFlash (F : Type 0) : Type 0 where
  pub erase_size : ℕ
  pub write_size : ℕ
  pub read_size : ℕ
  pub capacity : F → ℕ
  pub erase : F → ℕ → ℕ → Bool × F
  pub write : F → ℕ → List ℕ → Bool × F
  pub read : F → ℕ → ℕ → Option (List ℕ) × F

pub record StorageFlashLayout : Type 0 where
  pub base_offset : ℕ
  pub slot_size : ℕ

unfoldable pub new_layout : ℕ → StorageFlashLayout
new_layout base_offset = record { base_offset = base_offset; slot_size = storage_flash_slot_size }

abbrev pub layout_len : StorageFlashLayout → ℕ
layout_len l = l.slot_size * 2 % 2 ^ 32

abbrev pub records_per_slot : StorageFlashLayout → ℕ
records_per_slot l = l.slot_size / storage_image_len

unfoldable pub slot_offset : StorageFlashLayout → StorageSlotIndex → ℕ
slot_offset l slot_a = l.base_offset + 0
slot_offset l slot_b = l.base_offset + l.slot_size

unfoldable pub record_offset : StorageFlashLayout → StorageSlotIndex → ℕ → ℕ
unfolding slot_offset
record_offset l index record_index = slot_offset l index + record_index * storage_image_len

unfoldable pub is_aligned : ℕ → ℕ → Bool
is_aligned value align = not (align == 0) && (value % align == 0)

unfoldable pub storage_slot_number : StorageSlotIndex → ℕ
storage_slot_number slot_a = 0
storage_slot_number slot_b = 1

unfoldable pub image_is_erased : List ℕ → Bool
image_is_erased [] = true
image_is_erased (byte ∷ bytes) = (byte == 0xff) && image_is_erased bytes

abbrev pub erased_image : List ℕ
erased_image = replicate storage_image_len 0xff

pub record NorFlashStorageBackend (F : Type 0) : Type 0 where
  pub flash : F
  pub layout : StorageFlashLayout
  pub slots : List (List ℕ)
  pub next_record : List ℕ

module _ {F : Type 0} (driver : NorFlash F) where
  unfoldable pub validate_for_flash : StorageFlashLayout → F → Result StorageError (Unit {0})
  unfolding is_aligned
  validate_for_flash l flash =
      let available = driver.capacity flash % 2 ^ 32 in
      refuse_if
        (ltb l.slot_size storage_image_len
          || leb (2 ^ 32) (l.base_offset + layout_len l)
          || ltb available (l.base_offset + layout_len l)
          || not (is_aligned l.base_offset driver.erase_size)
          || not (is_aligned l.slot_size driver.erase_size)
          || not (l.slot_size % storage_image_len == 0)
          || not (is_aligned l.base_offset driver.write_size)
          || not (is_aligned storage_image_len driver.write_size)
          || not (is_aligned l.base_offset driver.read_size)
          || not (is_aligned storage_image_len driver.read_size))
        flash_layout

  -- A round of the loop of `scan_flash_slot`, on what was read: the latest image that was found and
  -- the next record to write, or how the loop goes on.
  unfoldable pub scan_step :
      StorageFlashLayout
      → ℕ
      → List ℕ
      → F
      → Option (List ℕ)
      → (List ℕ → Result StorageError (List ℕ × ℕ) × F)
      → Result StorageError (List ℕ × ℕ) × F
  unfolding image_is_erased decode_storage_image
  scan_step l record_index latest flash none go_on = (err flash_read, flash)
  scan_step l record_index latest flash (some image) go_on =
      if image_is_erased image
      then (ok (latest, record_index), flash)
      else if is_some (to_option (decode_storage_image image))
      then go_on image
      else (ok (latest, records_per_slot l), flash)

  -- The loop, for so many records from an index on.
  unfoldable pub scan_records :
      StorageFlashLayout
      → StorageSlotIndex
      → ℕ
      → ℕ
      → F
      → List ℕ
      → Result StorageError (List ℕ × ℕ) × F
  unfolding record_offset scan_step
  scan_records l index zero record_index flash latest = (ok (latest, record_index), flash)
  scan_records l index (suc count) record_index flash latest =
      let (got, flash2) =
        driver.read flash (record_offset l index record_index) storage_image_len in
      scan_step l record_index latest flash2 got
        (λ image. scan_records l index count (record_index + 1) flash2 image)

  unfoldable pub scan_flash_slot :
      StorageFlashLayout → StorageSlotIndex → F → Result StorageError (List ℕ × ℕ) × F
  unfolding scan_records
  scan_flash_slot l index flash = scan_records l index (records_per_slot l) 0 flash erased_image

  -- What the part of `write_slot` at an offset makes of the write and of the read that verifies it:
  -- the result and the backend after it.
  unfoldable pub record_outcome :
      NorFlashStorageBackend F
      → ℕ
      → List ℕ
      → Bool
      → Option (List ℕ)
      → Result StorageError (Unit {0}) × NorFlashStorageBackend F
  unfolding same_bytes decode_storage_image
  record_outcome b slot_number image false got = (err flash_write, b)
  record_outcome b slot_number image true none = (err flash_read, b)
  record_outcome b slot_number image true (some verified) =
      if not (same_bytes verified image)
        || not (is_some (to_option (decode_storage_image verified)))
      then (err flash_verify, b)
      else (ok tt, record b { slots = set b.slots slot_number image })

  unfoldable pub write_record :
      NorFlashStorageBackend F
      → ℕ
      → ℕ
      → ℕ
      → List ℕ
      → Result StorageError (Unit {0}) × NorFlashStorageBackend F
  unfolding record_outcome
  write_record b slot_number offset record_index image =
      let (wrote, flash2) = driver.write b.flash offset image in
      let (got, flash3) = driver.read flash2 offset storage_image_len in
      let flash = if wrote then flash3 else flash2 in
      let next = set b.next_record slot_number (record_index + 1) in
      record_outcome (record b { flash = flash; next_record = next }) slot_number image wrote got

  unfoldable pub write_slot :
      NorFlashStorageBackend F
      → StorageSlotIndex
      → List ℕ
      → Result StorageError (Unit {0}) × NorFlashStorageBackend F
  unfolding storage_slot_number slot_offset write_record
  write_slot b index image =
      let slot_number = storage_slot_number index in
      let record_index = get_or b.next_record slot_number 0 in
      let start = slot_offset b.layout index in
      let (erased, flash2) = driver.erase b.flash start (start + b.layout.slot_size) in
      if leb (records_per_slot b.layout) record_index
      then if not erased
        then (err flash_erase, record b { flash = flash2 })
        else write_record (record b { flash = flash2 }) slot_number start 0 image
      else write_record b slot_number (start + record_index * storage_image_len) record_index image

  unfoldable pub slot_image : NorFlashStorageBackend F → StorageSlotIndex → List ℕ
  unfolding storage_slot_number
  slot_image b index = get_or b.slots (storage_slot_number index) []

  abbrev pub flash_backend : StorageSlotBackend (NorFlashStorageBackend F)
  flash_backend = record { slot = slot_image; write_slot = write_slot }

  unfoldable pub erase_all :
      NorFlashStorageBackend F → Result StorageError (Unit {0}) × NorFlashStorageBackend F
  erase_all b =
      let l = b.layout in
      let (erased, flash2) = driver.erase b.flash l.base_offset (l.base_offset + layout_len l) in
      if not erased then (err flash_erase, record b { flash = flash2 }) else (
        ok tt,
        record b {
          flash = flash2;
          slots = erased_image ∷ erased_image ∷ [];
          next_record = 0 ∷ 0 ∷ [];
        },
      )

  -- `NorFlashStorageBackend::new`, once the layout is checked.
  unfoldable pub open_slots :
      StorageFlashLayout → F → Result StorageError (NorFlashStorageBackend F)
  unfolding scan_flash_slot
  open_slots l flash =
      let (found_a, flash2) = scan_flash_slot l slot_a flash in
      let (found_b, flash3) = scan_flash_slot l slot_b flash2 in
      do
        a ← found_a
        b ← found_b
        ok (record {
          flash = flash3;
          layout = l;
          slots = a.0 ∷ b.0 ∷ [];
          next_record = a.1 ∷ b.1 ∷ [];
        })

  unfoldable pub new_backend :
      F → StorageFlashLayout → Result StorageError (NorFlashStorageBackend F)
  unfolding validate_for_flash open_slots
  new_backend flash l = do validate_for_flash l flash; open_slots l flash
