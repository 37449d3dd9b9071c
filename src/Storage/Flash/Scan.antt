-- ===== src/Storage/Flash/Scan.antt =====
-- What `scan_flash_slot` of src/storage.rs finds in a journal.
use native.Mathlib.Nat.{add-mul, mul_assoc}
use hidshift.Storage.Slots.{StorageSlotIndex, slot_a, slot_b, to_option}
use hidshift.Storage.{StorageError, image_too_short, invalid_magic}
use hidshift.Storage.Image.{
  check_header, decode_storage_image, same_bytes, storage_image_len, storage_magic,
}
use hidshift.Storage.Flash.{
  scan_step, scan_flash_slot, scan_records, NorFlash, StorageFlashLayout, erased_image,
  image_is_erased, record_offset, records_per_slot, slot_offset,
}
use hidshift.Prelude.{
  Bool-cases, Option, Result, none, ap, refl, sym, zero, ◌∙◌, >>=-eq-ok, Bool, List, Result-cases,
  [], arith, false, inl, inr, is_some, length, ltb, not, ok, passed, replicate, slice, some, suc,
  true, ℕ, ◌*◌, ◌+◌, ◌<◌, ◌∷◌, ◌≡◌, ◌≤◌, ◌⊎◌,
}

-- So many times the unit.
pub record IsMultiple (unit n : ℕ) : Type 0 where
  pub times : ℕ
  pub equal : n ≡ times * unit

IsMultiple-add : {unit a b : ℕ} → IsMultiple unit a → IsMultiple unit b → IsMultiple unit (a + b)
IsMultiple-add {unit = unit} m n = record {
  times = m.times + n.times;
  equal = rw (m.equal, n.equal) (sym (add-mul m.times n.times unit));
}

pub IsMultiple-mul : {unit a : ℕ} (k : ℕ) → IsMultiple unit a → IsMultiple unit (k * a)
IsMultiple-mul {unit = unit} k m = record {
  times = k * m.times;
  equal = ap (λ a. k * a) m.equal ∙ sym (mul_assoc k m.times unit);
}

-- The documented behaviour of NOR flash, over what it contains: reads within it that are aligned to
-- the read size, their start and their length, succeed; reads change nothing; a write or an erase, also one that fails, stays within its range, and an erase that
-- succeeds leaves all bits set there.
pub record IsNorFlash {F : Type 0} (driver : NorFlash F) : Type 0 where
  pub size : ℕ
  pub contents : F → ℕ → ℕ → List ℕ
  pub reads :
      (f : F) (offset n : ℕ)
      → IsMultiple driver.read_size offset
      → IsMultiple driver.read_size n
      → offset + n ≤ size
      → (driver.read f offset n).0 ≡ some (contents f offset n)
  pub read_keeps :
      (f : F) (offset n from m : ℕ) → contents (driver.read f offset n).1 from m ≡ contents f from m
  pub write_leaves :
      (f : F) (offset : ℕ) (bytes : List ℕ) (from m : ℕ)
      → (from + m ≤ offset) ⊎ (offset + length bytes ≤ from)
      → contents (driver.write f offset bytes).1 from m ≡ contents f from m
  pub erase_leaves :
      (f : F) (start end from m : ℕ)
      → (from + m ≤ start) ⊎ (end ≤ from)
      → contents (driver.erase f start end).1 from m ≡ contents f from m
  pub erase_clears :
      (f : F) (start end from m : ℕ)
      → (driver.erase f start end).0 ≡ true
      → start ≤ from
      → from + m ≤ end
      → contents (driver.erase f start end).1 from m ≡ replicate m 0xff

abbrev pub decodes : List ℕ → Bool
decodes image = is_some (to_option (decode_storage_image image))

magic-not_erased :
    (image : List ℕ)
    → same_bytes (slice image 0 4) storage_magic ≡ true
    → image_is_erased image ≡ false
unfolding same_bytes image_is_erased
magic-not_erased [] h = cc
magic-not_erased (x ∷ xs) h = ground arith

check_header-magic :
    (image : List ℕ) {u : Unit {0}}
    → check_header image ≡ ok u
    → same_bytes (slice image 0 4) storage_magic ≡ true
unfolding check_header
check_header-magic image h =
    let (_, rest) = passed (ltb (length image) storage_image_len) image_too_short _ h in
    let (magic, _) =
      passed (not (same_bytes (slice image 0 4) storage_magic)) invalid_magic _ rest in
    ground arith

pub decodes-magic :
    (image : List ℕ) → decodes image ≡ true → same_bytes (slice image 0 4) storage_magic ≡ true
unfolding decode_storage_image
decodes-magic image h = elim (Result-cases (decode_storage_image image)) [
  | inl (state, e) ↦
      let (_, first, _) = >>=-eq-ok (check_header image) _ e in check_header-magic image first
  | inr (why, e) ↦ let bad : false ≡ true = rw e at h in cc
]

-- An image that decodes is not an erased one.
pub decodes-not_erased : (image : List ℕ) → decodes image ≡ true → image_is_erased image ≡ false
decodes-not_erased image h = magic-not_erased image (decodes-magic image h)

module _ {F : Type 0} (driver : NorFlash F) (law : IsNorFlash driver) (l : StorageFlashLayout) where
  -- The slots of the layout lie within the flash and hold whole records, and a read of a record is
  -- aligned.
  pub record FitsFlash : Type 0 where
    pub inside : l.base_offset + l.slot_size * 2 ≤ law.size
    pub whole : records_per_slot l * storage_image_len ≤ l.slot_size
    pub base_aligned : IsMultiple driver.read_size l.base_offset
    pub slot_aligned : IsMultiple driver.read_size l.slot_size
    pub image_aligned : IsMultiple driver.read_size storage_image_len

  abbrev pub record_at : F → StorageSlotIndex → ℕ → List ℕ
  record_at f i j = law.contents f (record_offset l i j) storage_image_len

  -- The first records of the slot decode, the last of them is the latest image, and the others are
  -- erased.
  pub record IsJournal (f : F) (i : StorageSlotIndex) (next : ℕ) (latest : List ℕ) : Type 0 where
    pub bound : next ≤ records_per_slot l
    pub decoded : (j : ℕ) → j < next → decodes (record_at f i j) ≡ true
    pub empty : next ≡ 0 → latest ≡ erased_image
    pub last : (j : ℕ) → next ≡ suc j → record_at f i j ≡ latest
    pub blank :
        (j : ℕ) → next ≤ j → j < records_per_slot l → image_is_erased (record_at f i j) ≡ true

  pub record_inside :
      (i : StorageSlotIndex) (j : ℕ)
      → FitsFlash
      → j < records_per_slot l
      → record_offset l i j + storage_image_len ≤ law.size
  unfolding record_offset slot_offset
  record_inside slot_a j fits h = omega (arith, fits.inside, fits.whole)
  record_inside slot_b j fits h = omega (arith, fits.inside, fits.whole)

  pub slot_offset-IsMultiple :
      (i : StorageSlotIndex) → FitsFlash → IsMultiple driver.read_size (slot_offset l i)
  unfolding slot_offset
  slot_offset-IsMultiple slot_a fits =
      IsMultiple-add fits.base_aligned (record { times = 0; equal = omega arith })
  slot_offset-IsMultiple slot_b fits = IsMultiple-add fits.base_aligned fits.slot_aligned

  pub record_offset-IsMultiple :
      (i : StorageSlotIndex) (j : ℕ) → FitsFlash → IsMultiple driver.read_size (record_offset l i j)
  unfolding record_offset
  record_offset-IsMultiple i j fits =
      IsMultiple-add (slot_offset-IsMultiple i fits) (IsMultiple-mul j fits.image_aligned)

  pub reads_record :
      (i : StorageSlotIndex) (j : ℕ) (f : F)
      → FitsFlash
      → j < records_per_slot l
      → (driver.read f (record_offset l i j) storage_image_len).0 ≡ some (record_at f i j)
  reads_record i j f fits h =
      law.reads f (record_offset l i j) storage_image_len (record_offset-IsMultiple i j fits)
        fits.image_aligned (record_inside i j fits h)

  abbrev pub SameRecords : F → F → StorageSlotIndex → Type 0
  SameRecords f g i = (j : ℕ) → record_at f i j ≡ record_at g i j

  scan_records-Journal :
      (i : StorageSlotIndex) (g : F) {next : ℕ} {found : List ℕ}
      → FitsFlash
      → IsJournal g i next found
      → (count index : ℕ) (f : F) (latest : List ℕ) → SameRecords f g i
      → index + count ≡ records_per_slot l
      → index ≤ next
      → (index ≡ next → latest ≡ found)
      → (scan_records driver l i count index f latest).0 ≡ ok (found, next)
  unfolding scan_records
  scan_records-Journal i g {next = next} {found = found} fits journal zero index f latest same end
        low at =
      let here : index ≡ next = omega (arith, journal.bound) in rw (at here, here) refl
  scan_records-Journal i g {next = next} {found = found} fits journal (suc count) index f latest
        same end low at =
      let inside : index < records_per_slot l = omega arith in
      let image = record_at f i index in
      let kept : SameRecords (driver.read f (record_offset l i index) storage_image_len).1 g i =
        λ j.
          law.read_keeps f (record_offset l i index) storage_image_len (record_offset l i j)
            storage_image_len
          ∙ same j in
      let place : (index ≡ next) ⊎ (index + 1 ≤ next) = omega arith in
      elim place [
        | inl here ↦
            let erased : image_is_erased image ≡ true =
              ap image_is_erased (same index) ∙ journal.blank index (omega (arith, here)) inside in
            rw (reads_record i index f fits inside, erased, at here, here) refl
        | inr before ↦
            let good : decodes image ≡ true =
              ap decodes (same index) ∙ journal.decoded index (omega (arith, before)) in
            let written = decodes-not_erased image good in
            let rest =
              scan_records-Journal i g fits journal count (index + 1)
                (driver.read f (record_offset l i index) storage_image_len).1 image kept
                (omega arith) before (λ e. same index ∙ journal.last index (omega (arith, e))) in
            rw (reads_record i index f fits inside, written, good) rest
      ]

  -- The scan of a journal finds its latest image and its next record.
  pub scan_flash_slot-Journal :
      (i : StorageSlotIndex) (g f : F) {next : ℕ} {found : List ℕ}
      → FitsFlash
      → IsJournal g i next found
      → SameRecords f g i
      → (scan_flash_slot driver l i f).0 ≡ ok (found, next)
  unfolding scan_flash_slot
  scan_flash_slot-Journal i g f fits journal same =
      scan_records-Journal i g fits journal (records_per_slot l) 0 f erased_image same (omega arith)
        (omega arith) (λ e. sym (journal.empty (sym e)))

  scan_step-keeps :
      (k : StorageSlotIndex) (index : ℕ) (latest : List ℕ) (f g : F) (got : Option (List ℕ))
      (go_on : List ℕ → Result StorageError (List ℕ × ℕ) × F)
      → SameRecords f g k
      → ((image : List ℕ) → SameRecords (go_on image).1 g k)
      → SameRecords (scan_step driver l index latest f got go_on).1 g k
  unfolding scan_step
  scan_step-keeps k index latest f g none go_on same rest = same
  scan_step-keeps k index latest f g (some image) go_on same rest =
      elim (Bool-cases (image_is_erased image)) [
        | inl e ↦ rw e same
        | inr e ↦ elim (Bool-cases (decodes image)) [
          | inl d ↦ rw (e, d) (rest image)
          | inr d ↦ rw (e, d) same
        ]
      ]

  -- Scanning changes no record.
  scan_records-keeps :
      (i k : StorageSlotIndex) (count index : ℕ) (f : F) (latest : List ℕ)
      → SameRecords (scan_records driver l i count index f latest).1 f k
  unfolding scan_records
  scan_records-keeps i k zero index f latest = λ j. refl
  scan_records-keeps i k (suc count) index f latest =
      let offset = record_offset l i index in
      let f2 = (driver.read f offset storage_image_len).1 in
      let kept : SameRecords f2 f k =
        λ j. law.read_keeps f offset storage_image_len (record_offset l k j) storage_image_len in
      scan_step-keeps k index latest f2 f (driver.read f offset storage_image_len).0 _ kept
        (λ image j. scan_records-keeps i k count (index + 1) f2 image j ∙ kept j)

  pub scan_flash_slot-keeps :
      (i k : StorageSlotIndex) (f : F) → SameRecords (scan_flash_slot driver l i f).1 f k
  unfolding scan_flash_slot
  scan_flash_slot-keeps i k f = scan_records-keeps i k (records_per_slot l) 0 f erased_image
