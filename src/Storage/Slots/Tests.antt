-- ===== src/Storage/Slots/Tests.antt =====
-- Two slots in memory, as the backend of the unit tests of src/storage.rs has them.
use hidshift.Storage.Slots.Newest.{newest-choose}
use hidshift.Storage.Image.Tests.{demo, demo-IsStorableState}
use hidshift.Storage.Image.RoundTrip.{decode-encode_storage_image, durable}
use hidshift.Storage.{StorageState, flash_verify, StorageError, image_too_short, validate_state}
use hidshift.Storage.Slots.Persist.{
  same_bytes_refl, persist-writes, LeavesOther, persist_storage_state-Restored,
  persist_storage_state-Survives,
}
use hidshift.Storage.Image.{check_header, decode_storage_image, encode_storage_image, same_bytes}
use hidshift.Storage.Slots.{
  to_option, StorageSlot, StorageSlotBackend, StorageSlotIndex, choose_slot, newest, next_target,
  other, persist_storage_state, restore_latest_storage_state, slot_a, slot_b, verify_slot,
  write_image,
}
use hidshift.Prelude.{
  ap, false, is_some, not, passes, ◌||◌, List, Result, [], err, inl, none, ok, refl, some, then_ok,
  ℕ, ◌>>◌, ◌∙◌, ◌≡◌,
}

abbrev Memory : Type 0
Memory = List ℕ × List ℕ

abbrev read_slot : Memory → StorageSlotIndex → List ℕ
read_slot m slot_a = m.0
read_slot m slot_b = m.1

abbrev put_slot : Memory → StorageSlotIndex → List ℕ → Result StorageError (Unit {0}) × Memory
put_slot m slot_a image = (ok tt, (image, m.1))
put_slot m slot_b image = (ok tt, (m.0, image))

abbrev memory : StorageSlotBackend Memory
memory = record { slot = read_slot; write_slot = put_slot }

other_kept :
    (m : Memory) (i : StorageSlotIndex) (image : List ℕ)
    → read_slot (put_slot m i image).1 (other i) ≡ read_slot m (other i)
unfolding other
other_kept m slot_a image = refl
other_kept m slot_b image = refl

memory-LeavesOther : LeavesOther memory
memory-LeavesOther = record { kept = other_kept }

image_of_demo :
    (image : List ℕ) × (encode_storage_image demo ≡ ok image)
    × (decode_storage_image image ≡ ok (durable demo))
image_of_demo = decode-encode_storage_image demo demo-IsStorableState

empty_slot : decode_storage_image [] ≡ err image_too_short
unfolding decode_storage_image check_header
empty_slot = refl

neither : (xs ys : List ℕ) → choose_slot xs ys none none ≡ none
unfolding choose_slot
neither xs ys = refl

only_first :
    (xs ys : List ℕ) (s : StorageState)
    → choose_slot xs ys (some s) none ≡ some (record { index = slot_a; image = xs; state = s })
unfolding choose_slot
only_first xs ys s = refl

no_state : newest memory ([], []) ≡ none
no_state =
    newest-choose memory ([], [])
    ∙ ap (λ d. choose_slot [] [] d d) (ap to_option empty_slot)
    ∙ neither [] []

abbrev kept_demo : StorageSlot
kept_demo = record { index = slot_a; image = image_of_demo.0; state = durable demo }

one_state : newest memory (image_of_demo.0, []) ≡ some kept_demo
one_state =
    newest-choose memory (image_of_demo.0, [])
    ∙ ap (λ d. choose_slot image_of_demo.0 [] d (to_option (decode_storage_image [])))
        (ap to_option image_of_demo.2)
    ∙ ap (choose_slot image_of_demo.0 [] (some (durable demo))) (ap to_option empty_slot)
    ∙ only_first image_of_demo.0 [] (durable demo)

persist_storage_state-Survives_example :
    (read_slot (persist_storage_state memory (image_of_demo.0, []) demo).1 slot_a ≡ image_of_demo.0)
    × (found : StorageSlot) × (newest memory
          (persist_storage_state memory (image_of_demo.0, []) demo).1
        ≡ some found)
persist_storage_state-Survives_example =
    persist_storage_state-Survives memory memory-LeavesOther (image_of_demo.0, []) demo one_state

demo_checked : (validate_state demo >> encode_storage_image demo) ≡ ok image_of_demo.0
demo_checked = then_ok (validate_state demo) _ demo-IsStorableState.valid ∙ image_of_demo.1

verified :
    (image : List ℕ) {s : StorageState}
    → decode_storage_image image ≡ ok s
    → (not (same_bytes image image) || not (is_some (to_option (decode_storage_image image))))
      ≡ false
verified image h =
    ap (λ alike. not alike || not (is_some (to_option (decode_storage_image image))))
      (same_bytes_refl image)
    ∙ ap (λ d. not (is_some (to_option d))) h

put_and_verified :
    (image : List ℕ) {s : StorageState}
    → decode_storage_image image ≡ ok s
    → (write_image memory ([], []) demo slot_a (ok image)).0
      ≡ ok (record { index = slot_a; state = demo; image = image })
unfolding write_image verify_slot
put_and_verified image h = passes _ flash_verify _ (verified image h)

target_a : next_target none ≡ slot_a
unfolding next_target
target_a = refl

first_write :
    (persist_storage_state memory ([], []) demo).0
    ≡ ok (record { index = slot_a; state = demo; image = image_of_demo.0 })
first_write =
    ap (λ out. out.0)
      (persist-writes memory ([], []) demo slot_a (ap next_target no_state ∙ target_a) demo_checked)
    ∙ put_and_verified image_of_demo.0 image_of_demo.2

persist_storage_state-Restored_example :
    restore_latest_storage_state memory (persist_storage_state memory ([], []) demo).1
    ≡ some (durable demo)
persist_storage_state-Restored_example =
    persist_storage_state-Restored memory memory-LeavesOther ([], []) demo demo-IsStorableState
      (inl no_state) first_write
