-- ===== src/Storage/Durable.antt =====
-- The parts of src/storage.rs together: a state that was persisted to flash is restored after a
-- restart.
use hidshift.Storage.Flash.Scan.{IsNorFlash}
use mathlib.Core.Path.{subst}
use hidshift.Storage.Image.RoundTrip.{IsStorableState, durable, length-encode_storage_image}
use hidshift.Storage.Flash.Reboot.{open_slots-reopened, reopened, reopened-slot, write_slot-Landed}
use hidshift.Storage.Flash.Landing.{AreJournals, Landed, slot_number-ne}
use hidshift.Storage.Slots.Persist.{persist_storage_state-Restored, LeavesOther}
use hidshift.Storage.Image.{decode_storage_image, same_bytes, encode_storage_image}
use hidshift.Storage.Slots.{
  StorageSlot, restore_latest_storage_state, select_newest_valid_storage_image, slot_a, slot_b,
  state_of, to_option, StorageSlotBackend, StorageSlotIndex, StorageWriteResult, newest,
  next_target, other, persist_storage_state, write_image,
}
use hidshift.Storage.{StorageState, validate_state}
use hidshift.Prelude.{
  ◌%◌, ◌<◌, ◌^◌, ◌⊎◌, Bool, Bool-cases, Option, [], false, get_or, get_or-set_ne, is_some, leb,
  none, not, refl, some, true, ◌+◌, ◌||◌, >>=-eq-ok, List, Result-cases, ap, inl, inr, ok, sym, ℕ,
  ◌>>◌, ◌∙◌, ◌≡◌,
}
use hidshift.Storage.Flash.{
  open_slots, record_outcome, records_per_slot, slot_offset, write_slot, NorFlash,
  NorFlashStorageBackend, flash_backend, slot_image, storage_slot_number, write_record,
}

-- What a successful persist did: it encoded the state and wrote the image.
persist-wrote :
    {B : Type 0} (backend : StorageSlotBackend B) (b : B) (s : StorageState)
    {r : StorageWriteResult}
    → (persist_storage_state backend b s).0 ≡ ok r
    → (image : List ℕ) × (encode_storage_image s ≡ ok image)
      × ((backend.write_slot b (next_target (newest backend b)) image).0 ≡ ok tt)
      × ((persist_storage_state backend b s).1
          ≡ (backend.write_slot b (next_target (newest backend b)) image).1)
unfolding persist_storage_state write_image
persist-wrote backend b s h =
    let target = next_target (newest backend b) in
    elim (Result-cases (validate_state s >> encode_storage_image s)) [
      | inl (image, made) ↦
          let (_, _, encoded) = >>=-eq-ok (validate_state s) _ made in
          let wrote = ap (λ out. (write_image backend b s target out).0) (sym made) ∙ h in
          let (u, done, _) = >>=-eq-ok (backend.write_slot b target image).0 _ wrote in
          (image, encoded, done, ap (λ out. (write_image backend b s target out).1) made)
      | inr (why, made) ↦
          let bad = ap (λ out. (write_image backend b s target out).0) (sym made) ∙ h in cc
    ]

module _ {F : Type 0} (driver : NorFlash F) where
  abbrev flash_slots : StorageSlotBackend (NorFlashStorageBackend F)
  flash_slots = flash_backend driver

  record_outcome-other :
      (b : NorFlashStorageBackend F) (i : StorageSlotIndex) (image : List ℕ) (wrote : Bool)
      (got : Option (List ℕ))
      → slot_image driver
          (record_outcome driver b (storage_slot_number i) image wrote got).1
          (other i)
        ≡ slot_image driver b (other i)
  unfolding record_outcome slot_image
  record_outcome-other b i image false got = refl
  record_outcome-other b i image true none = refl
  record_outcome-other b i image true (some verified) =
      elim (Bool-cases (
        not (same_bytes verified image)
        || not (is_some (to_option (decode_storage_image verified))))) [
          | inl bad ↦ rw bad refl
          | inr good ↦ rw good (
              get_or-set_ne b.slots (storage_slot_number i) (storage_slot_number (other i)) image []
                (slot_number-ne i))
        ]

  write_record-other :
      (b : NorFlashStorageBackend F) (i : StorageSlotIndex) (offset record_index : ℕ)
      (image : List ℕ)
      → slot_image driver
          (write_record driver b (storage_slot_number i) offset record_index image).1
          (other i)
        ≡ slot_image driver b (other i)
  unfolding write_record slot_image
  write_record-other b i offset record_index image = record_outcome-other _ i image _ _

  write_slot-other :
      (b : NorFlashStorageBackend F) (i : StorageSlotIndex) (image : List ℕ)
      → slot_image driver (write_slot driver b i image).1 (other i) ≡ slot_image driver b (other i)
  unfolding write_slot slot_image
  write_slot-other b i image =
      elim (Bool-cases
        (leb (records_per_slot b.layout) (get_or b.next_record (storage_slot_number i) 0))) [
          | inl full ↦
              elim (Bool-cases
                (driver.erase b.flash (slot_offset b.layout i)
                  (slot_offset b.layout i + b.layout.slot_size)).0) [
                    | inl done ↦ rw (full, done) (write_record-other _ i _ 0 image)
                    | inr stuck ↦ rw (full, stuck) refl
                  ]
          | inr room ↦ rw room (write_record-other b i _ _ image)
        ]

  -- The flash keeps what the slots promise, whatever its driver does.
  flash_slots-LeavesOther : LeavesOther flash_slots
  flash_slots-LeavesOther = record { kept = write_slot-other }

same_restored :
    {B : Type 0} (backend : StorageSlotBackend B) (b c : B)
    → ((i : StorageSlotIndex) → backend.slot b i ≡ backend.slot c i)
    → restore_latest_storage_state backend b ≡ restore_latest_storage_state backend c
unfolding restore_latest_storage_state newest
same_restored backend b c same =
    ap (λ bytes. state_of (select_newest_valid_storage_image bytes (backend.slot b slot_b)))
      (same slot_a)
    ∙ ap (λ bytes. state_of (select_newest_valid_storage_image (backend.slot c slot_a) bytes))
        (same slot_b)

module _ {F : Type 0} (driver : NorFlash F) (law : IsNorFlash driver) where
  -- The backend that a start finds on the flash after the write holds the slots that were in memory.
  reopened_slots :
      (b c : NorFlashStorageBackend F) (i : StorageSlotIndex) (image : List ℕ)
      → Landed driver law b i image c
      → (d : NorFlashStorageBackend F) × (open_slots driver c.layout c.flash ≡ ok d)
        × ((k : StorageSlotIndex) → slot_image driver d k ≡ slot_image driver c k)
  reopened_slots b c i image w = (
    reopened driver law c,
    open_slots-reopened driver law c w.journals,
    reopened-slot driver law c,
  )

  -- A state that was persisted to flash survives a restart: on flash that keeps its documented
  -- behaviour, from slots that are journals, once the persist succeeds the start after it finds the
  -- slots, and from them it restores the state, but for what the profiles do not keep. The state is one
  -- that the board can hold, and its generation follows that of the newest state, if there was one. The
  -- slots are journals again, so the next persist can follow.
  pub persist_storage_state-Durable :
      (b : NorFlashStorageBackend F) (s : StorageState) {r : StorageWriteResult}
      → AreJournals driver law b
      → IsStorableState s
      → (newest (flash_backend driver) b ≡ none)
        ⊎ ((old : StorageSlot) × (newest (flash_backend driver) b ≡ some old)
            × (old.state.generation < 2 ^ 32)
            × (s.generation ≡ (old.state.generation + 1) % 2 ^ 32))
      → (persist_storage_state (flash_backend driver) b s).0 ≡ ok r
      → AreJournals driver law (persist_storage_state (flash_backend driver) b s).1
        × (d : NorFlashStorageBackend F) × (open_slots driver b.layout
              (persist_storage_state (flash_backend driver) b s).1.flash
            ≡ ok d)
        × (restore_latest_storage_state (flash_backend driver) d ≡ some (durable s))
  persist_storage_state-Durable b s journals storable earlier h =
      let (image, encoded, done, same) = persist-wrote (flash_backend driver) b s h in
      let i = next_target (newest (flash_backend driver) b) in
      let n = length-encode_storage_image s encoded in
      let landed : Landed driver law b i image
          (persist_storage_state (flash_backend driver) b s).1 =
        subst (Landed driver law b i image) (sym same)
          (write_slot-Landed driver law b i image journals n done) in
      let (d, opened, slots) = reopened_slots b _ i image landed in
      let restored_now =
        persist_storage_state-Restored (flash_backend driver) (flash_slots-LeavesOther driver) b s
          storable earlier h in
      (
        landed.journals,
        d,
        ap (λ l. open_slots driver l (persist_storage_state (flash_backend driver) b s).1.flash)
              (sym landed.layout)
            ∙ opened,
        same_restored (flash_backend driver) d _ slots ∙ restored_now,
      )
