-- ===== src/Storage/Flash/Tests.antt =====
-- A flash of two slots in memory, as the unit tests of src/storage.rs have one.
use hidshift.Storage.Durable.{persist_storage_state-Durable}
use hidshift.Storage.Slots.Newest.{newest-choose, reading}
use hidshift.Storage.Flash.Reboot.{all_set, write_slot-Landed, write_slot-Survives}
use hidshift.Storage.Slots.Persist.{persist-writes, same_bytes_refl}
use hidshift.Storage.Image.RoundTrip.{
  decode-encode_storage_image, durable, length-encode_storage_image,
}
use hidshift.Storage.{flash_verify, validate_state, StorageError}
use hidshift.Storage.Image.Tests.{demo, demo-IsStorableState}
use hidshift.Storage.Flash.Torn.{IsTorn, scan_flash_slot-Torn}
use hidshift.Storage.Image.{
  encode_storage_image, storage_magic, decode_storage_image, same_bytes, storage_image_len,
}
use hidshift.Storage.Flash.Landing.{AreJournals, next_of}
use hidshift.Storage.Flash.Scan.{
  IsMultiple, decodes-not_erased, decodes-magic, decodes, FitsFlash, IsJournal, IsNorFlash,
}
use hidshift.Storage.Slots.{
  StorageWriteResult, choose_slot, newest, next_target, persist_storage_state,
  restore_latest_storage_state, verify_slot, write_image, other, to_option, StorageSlotIndex,
  slot_a, slot_b,
}
use hidshift.Storage.Flash.{
  flash_backend, open_slots, records_per_slot, scan_flash_slot, slot_offset, write_record,
  write_slot, NorFlash, NorFlashStorageBackend, StorageFlashLayout, erased_image, image_is_erased,
  record_offset, slot_image, storage_slot_number,
}
use hidshift.Prelude.{
  ◌%◌, ◌==◌, Result-cases, none, passes, then_ok, ◌>>◌, Bool-cases, Result, inl, inr, slice, Bool,
  ap, false, is_some, not, ok, sym, ◌||◌, ◌∙◌, List, [], arith, get_or, if◌then◌else◌, leb, length,
  ltb, refl, replicate, some, suc, true, zero, ℕ, ◌&&◌, ◌+◌, ◌-◌, ◌<◌, ◌∷◌, ◌≡◌, ◌≤◌, ◌⊎◌,
}

-- The byte at each address.
abbrev Cells : Type 0
Cells = ℕ → ℕ

abbrev cells_at : Cells → ℕ → ℕ → List ℕ
cells_at f from zero = []
cells_at f from (suc n) = f from ∷ cells_at f (from + 1) n

abbrev put : Cells → ℕ → List ℕ → Cells
put f offset bytes a =
    if leb offset a && ltb a (offset + length bytes) then get_or bytes (a - offset) 0 else f a

abbrev clear_cells : Cells → ℕ → ℕ → Cells
clear_cells f start end a = if leb start a && ltb a end then 0xff else f a

-- A read has to be of whole words, as on the board.
abbrev in_words : ℕ → Bool
in_words n = n % 4 == 0

in_words-IsMultiple : (n : ℕ) → IsMultiple 4 n → in_words n ≡ true
in_words-IsMultiple n m = ground (arith, m.equal)

aligned_read :
    (f : Cells) (offset n : ℕ)
    → IsMultiple 4 offset
    → IsMultiple 4 n
    → (if in_words offset && in_words n then some (cells_at f offset n) else none)
      ≡ some (cells_at f offset n)
aligned_read f offset n m k = rw (in_words-IsMultiple offset m, in_words-IsMultiple n k) refl

abbrev chip : NorFlash Cells
chip = record {
  erase_size = 4096;
  write_size = 4;
  read_size = 4;
  capacity = λ f. 8192;
  erase = λ f start end. (true, clear_cells f start end);
  write = λ f offset bytes. (true, put f offset bytes);
  read =
      λ f offset n. (if in_words offset && in_words n then some (cells_at f offset n) else none, f);
}

same_cells :
    (f g : Cells) (from n : ℕ)
    → ((a : ℕ) → from ≤ a → a < from + n → f a ≡ g a)
    → cells_at f from n ≡ cells_at g from n
same_cells f g from zero h = refl
same_cells f g from (suc n) h =
    let first : f from ≡ g from = h from (omega arith) (omega arith) in
    let rest = same_cells f g (from + 1) n (λ a low high. h a (omega arith) (omega arith)) in
    rw (first, rest) refl

outside :
    (low high a x y : ℕ) → (a < low) ⊎ (high ≤ a) → (if leb low a && ltb a high then x else y) ≡ y
outside low high a x y side = ground arith

all_ones :
    (f : Cells) (from n : ℕ)
    → ((a : ℕ) → from ≤ a → a < from + n → f a ≡ 0xff)
    → cells_at f from n ≡ replicate n 0xff
all_ones f from zero h = refl
all_ones f from (suc n) h =
    let first : f from ≡ 0xff = h from (omega arith) (omega arith) in
    let rest = all_ones f (from + 1) n (λ a low high. h a (omega arith) (omega arith)) in
    rw (first, rest) refl

cleared : (f : Cells) (start end a : ℕ) → start ≤ a → a < end → clear_cells f start end a ≡ 0xff
cleared f start end a low high = ground arith

chip-IsNorFlash : IsNorFlash chip
chip-IsNorFlash = record {
  size = 8192;
  contents = cells_at;
  reads = λ f offset n m k h. aligned_read f offset n m k;
  read_keeps = λ f offset n from m. refl;
  write_leaves = λ f offset bytes from m side.
      same_cells (put f offset bytes) f from m (λ a low high.
        outside offset (offset + length bytes) a (get_or bytes (a - offset) 0) (f a)
          (omega (arith, side)));
  erase_leaves = λ f start end from m side.
      same_cells (clear_cells f start end) f from m
        (λ a low high. outside start end a 0xff (f a) (omega (arith, side)));
  erase_clears = λ f start end from m done low high.
      all_ones (clear_cells f start end) from m
        (λ a l h. cleared f start end a (omega arith) (omega arith));
}

abbrev layout : StorageFlashLayout
layout = record { base_offset = 0; slot_size = 4096 }

layout-FitsFlash : FitsFlash chip chip-IsNorFlash layout
unfolding chip-IsNorFlash
layout-FitsFlash = record {
  inside = omega arith;
  whole = omega arith;
  base_aligned = record { times = 0; equal = refl };
  slot_aligned = record { times = 1024; equal = refl };
  image_aligned = record { times = 256; equal = refl };
}

abbrev blank : Cells
blank a = 0xff

abbrev new_chip : NorFlashStorageBackend Cells
new_chip = record {
  flash = blank;
  layout = layout;
  slots = erased_image ∷ erased_image ∷ [];
  next_record = 0 ∷ 0 ∷ [];
}

blank_record : (from n : ℕ) → image_is_erased (cells_at blank from n) ≡ true
unfolding image_is_erased
blank_record from zero = refl
blank_record from (suc n) = blank_record (from + 1) n

-- Nothing was written to the slot.
blank-IsJournal :
    (i : StorageSlotIndex) → IsJournal chip chip-IsNorFlash layout blank i 0 erased_image
unfolding chip-IsNorFlash
blank-IsJournal i = record {
  bound = omega arith;
  decoded = λ j h. absurd (omega arith);
  empty = λ e. refl;
  last = λ j e. absurd (omega (arith, e));
  blank = λ j low high. blank_record (record_offset layout i j) storage_image_len;
}

IsJournal-of :
    (i : StorageSlotIndex)
    → IsJournal chip chip-IsNorFlash layout blank i
        (next_of chip chip-IsNorFlash new_chip i)
        (slot_image chip new_chip i)
unfolding storage_slot_number slot_image
IsJournal-of slot_a = blank-IsJournal slot_a
IsJournal-of slot_b = blank-IsJournal slot_b

new_chip-AreJournals : AreJournals chip chip-IsNorFlash new_chip
new_chip-AreJournals = record {
  fits = layout-FitsFlash;
  some_records = omega arith;
  slots = refl;
  next = refl;
  journal = IsJournal-of;
}

abbrev image : List ℕ
image = (decode-encode_storage_image demo demo-IsStorableState).0

image-decodes : decode_storage_image image ≡ ok (durable demo)
image-decodes = (decode-encode_storage_image demo demo-IsStorableState).2

length-image : length image ≡ storage_image_len
length-image =
    length-encode_storage_image demo (decode-encode_storage_image demo demo-IsStorableState).1

cells_are :
    (f : Cells) (from : ℕ) (bytes : List ℕ)
    → ((k : ℕ) → k < length bytes → f (from + k) ≡ get_or bytes k 0)
    → cells_at f from (length bytes) ≡ bytes
cells_are f from [] h = refl
cells_are f from (b ∷ bytes) h =
    let start : f from ≡ b = ap f (omega arith) ∙ h 0 (omega arith) in
    let rest = cells_are f (from + 1) bytes (λ k l. ap f (omega arith) ∙ h (suc k) (omega arith)) in
    rw (start, rest) refl

put_within :
    (f : Cells) (offset k : ℕ) (bytes : List ℕ)
    → k < length bytes
    → put f offset bytes (offset + k) ≡ get_or bytes k 0
put_within f offset k bytes h =
    let within : (leb offset (offset + k) && ltb (offset + k) (offset + length bytes)) ≡ true =
      ground arith in
    let place : offset + k - offset ≡ k = omega arith in rw (within, place) refl

read_back_bytes :
    (f : Cells) (offset : ℕ) (bytes : List ℕ) (n : ℕ)
    → length bytes ≡ n
    → cells_at (put f offset bytes) offset n ≡ bytes
read_back_bytes f offset bytes n same =
    ap (cells_at (put f offset bytes) offset) (sym same)
    ∙ cells_are (put f offset bytes) offset bytes (λ k h. put_within f offset k bytes h)

same_bytes_of_eq : (xs ys : List ℕ) → xs ≡ ys → same_bytes xs ys ≡ true
same_bytes_of_eq xs ys e = ap (λ xs. same_bytes xs ys) e ∙ same_bytes_refl ys

good_copy : (xs : List ℕ) → xs ≡ image → (not (same_bytes xs image) || not (decodes xs)) ≡ false
good_copy xs e =
    ap (λ alike. not alike || not (decodes xs)) (same_bytes_of_eq xs image e)
    ∙ ap (λ xs. not (decodes xs)) e
    ∙ ap (λ d. not (is_some (to_option d))) image-decodes

else_of : {A : Type 0} (b : Bool) (x y : A) → b ≡ false → (if b then x else y) ≡ y
else_of b x y h = rw h refl

write_to_a : (write_slot chip new_chip slot_a image).0 ≡ ok tt
unfolding write_slot write_record slot_offset storage_slot_number
write_to_a =
    ap (λ (out : Result StorageError (Unit {0}) × NorFlashStorageBackend Cells). out.0)
      (else_of _ _ _ (
        good_copy (cells_at (put blank 0 image) 0 storage_image_len)
          (read_back_bytes blank 0 image storage_image_len length-image)))

write_slot-Survives_example :
    AreJournals chip chip-IsNorFlash (write_slot chip new_chip slot_a image).1
    × (c : NorFlashStorageBackend Cells) × (open_slots chip layout
          (write_slot chip new_chip slot_a image).1.flash
        ≡ ok c)
    × (slot_image chip c slot_a ≡ image)
    × (slot_image chip c (other slot_a) ≡ slot_image chip new_chip (other slot_a))
    × ((k : StorageSlotIndex)
        → next_of chip chip-IsNorFlash c k
          ≡ next_of chip chip-IsNorFlash (write_slot chip new_chip slot_a image).1 k)
write_slot-Survives_example =
    write_slot-Survives chip chip-IsNorFlash new_chip slot_a image new_chip-AreJournals length-image
      write_to_a

-- A flash of zeros: every record is neither erased nor an image.
abbrev zeros : Cells
zeros a = 0

zeros_written : image_is_erased (cells_at zeros 0 storage_image_len) ≡ false
unfolding image_is_erased
zeros_written = refl

no_magic :
    same_bytes (slice (cells_at zeros 0 storage_image_len) 0 4) storage_magic ≡ true
    → decodes (cells_at zeros 0 storage_image_len) ≡ false
unfolding same_bytes
no_magic h = cc

zeros_broken : decodes (cells_at zeros 0 storage_image_len) ≡ false
zeros_broken = elim (Bool-cases (decodes (cells_at zeros 0 storage_image_len))) [
  | inl good ↦ no_magic (decodes-magic (cells_at zeros 0 storage_image_len) good)
  | inr broken ↦ broken
]

zeros-IsTorn : IsTorn chip chip-IsNorFlash layout zeros slot_a 0 erased_image
unfolding chip-IsNorFlash record_offset slot_offset
zeros-IsTorn = record {
  bound = omega arith;
  decoded = λ j h. absurd (omega arith);
  empty = λ e. refl;
  last = λ j e. absurd (omega (arith, e));
  written = zeros_written;
  broken = zeros_broken;
}

scan_flash_slot-Torn_example :
    (scan_flash_slot chip layout slot_a zeros).0 ≡ ok (erased_image, records_per_slot layout)
scan_flash_slot-Torn_example =
    scan_flash_slot-Torn chip chip-IsNorFlash layout slot_a zeros layout-FitsFlash zeros-IsTorn

erased_broken : to_option (decode_storage_image erased_image) ≡ none
erased_broken = elim (Result-cases (decode_storage_image erased_image)) [
  | inl (s, e) ↦
      let not_erased = decodes-not_erased erased_image (ap (λ d. is_some (to_option d)) e) in
      let bad : true ≡ false = sym (all_set storage_image_len) ∙ not_erased in cc
  | inr (why, e) ↦ ap to_option e
]

neither : (xs ys : List ℕ) → choose_slot xs ys none none ≡ none
unfolding choose_slot
neither xs ys = refl

erased_slot : (i : StorageSlotIndex) → slot_image chip new_chip i ≡ erased_image
unfolding slot_image storage_slot_number
erased_slot slot_a = refl
erased_slot slot_b = refl

nothing_read : (i : StorageSlotIndex) → reading (flash_backend chip) new_chip i ≡ none
nothing_read i =
    ap (λ bytes. to_option (decode_storage_image bytes)) (erased_slot i) ∙ erased_broken

nothing_yet : newest (flash_backend chip) new_chip ≡ none
nothing_yet =
    newest-choose (flash_backend chip) new_chip
    ∙ ap
        (λ d.
          choose_slot (slot_image chip new_chip slot_a) (slot_image chip new_chip slot_b) d
            (reading (flash_backend chip) new_chip slot_b))
        (nothing_read slot_a)
    ∙ ap (choose_slot (slot_image chip new_chip slot_a) (slot_image chip new_chip slot_b) none)
        (nothing_read slot_b)
    ∙ neither (slot_image chip new_chip slot_a) (slot_image chip new_chip slot_b)

target_a : next_target none ≡ slot_a
unfolding next_target
target_a = refl

image_checked : (validate_state demo >> encode_storage_image demo) ≡ ok image
image_checked =
    then_ok (validate_state demo) _ demo-IsStorableState.valid
    ∙ (decode-encode_storage_image demo demo-IsStorableState).1

after_write : slot_image chip (write_slot chip new_chip slot_a image).1 slot_a ≡ image
after_write =
    (write_slot-Landed chip chip-IsNorFlash new_chip slot_a image new_chip-AreJournals length-image
      write_to_a).held

first_image :
    (write_image (flash_backend chip) new_chip demo slot_a (ok image)).0
    ≡ ok (record { index = slot_a; state = demo; image = image })
unfolding write_image verify_slot
first_image =
    then_ok (write_slot chip new_chip slot_a image).0 _ write_to_a
    ∙ passes _ flash_verify _
        (good_copy (slot_image chip (write_slot chip new_chip slot_a image).1 slot_a) after_write)

first_persist :
    (persist_storage_state (flash_backend chip) new_chip demo).0
    ≡ ok (record { index = slot_a; state = demo; image = image })
first_persist =
    ap (λ (out : Result StorageError StorageWriteResult × NorFlashStorageBackend Cells). out.0)
      (persist-writes (flash_backend chip) new_chip demo slot_a
        (ap next_target nothing_yet ∙ target_a) image_checked)
    ∙ first_image

persist_storage_state-Durable_example :
    AreJournals chip chip-IsNorFlash (persist_storage_state (flash_backend chip) new_chip demo).1
    × (d : NorFlashStorageBackend Cells) × (open_slots chip layout
          (persist_storage_state (flash_backend chip) new_chip demo).1.flash
        ≡ ok d)
    × (restore_latest_storage_state (flash_backend chip) d ≡ some (durable demo))
persist_storage_state-Durable_example =
    persist_storage_state-Durable chip chip-IsNorFlash new_chip demo new_chip-AreJournals
      demo-IsStorableState (inl nothing_yet) first_persist
