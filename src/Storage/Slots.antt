-- ===== src/Storage/Slots.antt =====
-- The two slots of src/storage.rs, of which one holds the newest state at any time.
use hidshift.Storage.{StorageError, StorageState, flash_verify, validate_state}
use hidshift.Storage.Image.{decode_storage_image, encode_storage_image, same_bytes}
use hidshift.Prelude.{
  Bool, List, Option, Result, err, if◌then◌else◌, is_some, ltb, none, not, ok, refuse_if, some, ℕ,
  ◌%◌, ◌+◌, ◌-◌, ◌>>=◌, ◌>>◌, ◌^◌, ◌||◌,
}
pub mod Newest
pub mod Persist
mod Tests

pub data StorageSlotIndex : Type 0 where
  slot_a slot_b : StorageSlotIndex

unfoldable pub other : StorageSlotIndex → StorageSlotIndex
other slot_a = slot_b
other slot_b = slot_a

-- `StorageSlotBackend`, over the states of a backend.
pub record StorageSlotBackend (B : Type 0) : Type 0 where
  pub slot : B → StorageSlotIndex → List ℕ
  pub write_slot : B → StorageSlotIndex → List ℕ → Result StorageError (Unit {0}) × B

pub record StorageSlot : Type 0 where
  pub index : StorageSlotIndex
  pub image : List ℕ
  pub state : StorageState

pub record StorageWriteResult : Type 0 where
  pub index : StorageSlotIndex
  pub state : StorageState
  pub image : List ℕ

-- `left.wrapping_sub(right) < 0x8000_0000` of two u32.
unfoldable pub generation_is_newer_or_equal : ℕ → ℕ → Bool
generation_is_newer_or_equal left right = ltb ((left + 2 ^ 32 - right) % 2 ^ 32) 0x8000_0000

-- `.ok()`
abbrev pub to_option {ℓ κ} : {E : Type ℓ} {A : Type κ} → Result E A → Option A
to_option (ok a) = some a
to_option (err why) = none

unfoldable pub choose_slot :
    List ℕ → List ℕ → Option StorageState → Option StorageState → Option StorageSlot
unfolding generation_is_newer_or_equal
choose_slot bytes_a bytes_b (some a) (some b) =
    if generation_is_newer_or_equal a.generation b.generation
    then some (record { index = slot_a; image = bytes_a; state = a })
    else some (record { index = slot_b; image = bytes_b; state = b })
choose_slot bytes_a bytes_b (some a) none =
    some (record { index = slot_a; image = bytes_a; state = a })
choose_slot bytes_a bytes_b none (some b) =
    some (record { index = slot_b; image = bytes_b; state = b })
choose_slot bytes_a bytes_b none none = none

unfoldable pub select_newest_valid_storage_image : List ℕ → List ℕ → Option StorageSlot
unfolding choose_slot decode_storage_image
select_newest_valid_storage_image bytes_a bytes_b =
    choose_slot bytes_a bytes_b (to_option (decode_storage_image bytes_a))
      (to_option (decode_storage_image bytes_b))

abbrev pub state_of : Option StorageSlot → Option StorageState
state_of none = none
state_of (some found) = some found.state

unfoldable pub next_target : Option StorageSlot → StorageSlotIndex
unfolding other
next_target none = slot_a
next_target (some newest) = other newest.index

module _ {B : Type 0} (backend : StorageSlotBackend B) where
  unfoldable pub newest : B → Option StorageSlot
  unfolding select_newest_valid_storage_image
  newest b = select_newest_valid_storage_image (backend.slot b slot_a) (backend.slot b slot_b)

  unfoldable pub restore_latest_storage_state : B → Option StorageState
  unfolding newest
  restore_latest_storage_state b = state_of (newest b)

  -- What follows `write_slot`: the slot must hold the image, and the image must decode.
  unfoldable pub verify_slot :
      StorageState → StorageSlotIndex → List ℕ → B → Result StorageError StorageWriteResult
  unfolding same_bytes decode_storage_image
  verify_slot state target image b = do
    refuse_if
        (not (same_bytes (backend.slot b target) image)
          || not (is_some (to_option (decode_storage_image (backend.slot b target)))))
        flash_verify
    ok (record { index = target; state = state; image = image })

  -- The write of an image, when there is one.
  unfoldable pub write_image :
      B
      → StorageState
      → StorageSlotIndex
      → Result StorageError (List ℕ)
      → Result StorageError StorageWriteResult × B
  unfolding verify_slot
  write_image b state target (err why) = (err why, b)
  write_image b state target (ok image) =
      let (result, b2) = backend.write_slot b target image in
      (result >> verify_slot state target image b2, b2)

  unfoldable pub persist_storage_state :
      B → StorageState → Result StorageError StorageWriteResult × B
  unfolding write_image newest next_target encode_storage_image validate_state
  persist_storage_state b state =
      write_image b state (next_target (newest b))
        (validate_state state >> encode_storage_image state)
