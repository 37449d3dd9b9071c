-- ===== src/Storage/Flash/Journal.antt =====
-- `write_slot` of src/storage.rs keeps both slots journals, when it succeeds.
use hidshift.Storage.Slots.{StorageSlotIndex, other, slot_a, slot_b}
use hidshift.Storage.{flash_verify, flash_write}
use hidshift.Storage.Slots.Persist.{same_bytes-eq}
use hidshift.Storage.Flash.Scan.{IsMultiple, FitsFlash, IsJournal, record_at, IsNorFlash, decodes}
use hidshift.Storage.Flash.{
  StorageFlashLayout, image_is_erased, record_offset, records_per_slot, slot_offset, NorFlash,
  NorFlashStorageBackend, write_record,
}
use hidshift.Storage.Image.{same_bytes, storage_image_len}
use hidshift.Prelude.{
  both_pass, compare-cases, le-cases, length, ◌<◌, ◌≢◌, ◌⊎◌, err, Bool-cases, List, ap, arith, inl,
  inr, not, ok, refl, set, sym, true, ℕ, ◌+◌, ◌||◌, ◌∙◌, ◌≡◌, ◌≤◌,
}

module _ {F : Type 0} (driver : NorFlash F) (law : IsNorFlash driver) where
  -- The flash after a write and the read that verifies it.
  abbrev pub verified_flash : F → ℕ → List ℕ → F
  verified_flash f offset image =
      (driver.read (driver.write f offset image).1 offset storage_image_len).1

  abbrev pub recorded : NorFlashStorageBackend F → ℕ → ℕ → ℕ → List ℕ → NorFlashStorageBackend F
  recorded b slot_number offset record_index image = record b {
    flash = verified_flash b.flash offset image;
    slots = set b.slots slot_number image;
    next_record = set b.next_record slot_number (record_index + 1);
  }

  -- A write that succeeds has put the image where it belongs.
  pub write_record-ok :
      (b : NorFlashStorageBackend F) (slot_number offset record_index : ℕ) (image : List ℕ)
      → IsMultiple driver.read_size offset
      → IsMultiple driver.read_size storage_image_len
      → offset + storage_image_len ≤ law.size
      → (write_record driver b slot_number offset record_index image).0 ≡ ok tt
      → (law.contents (verified_flash b.flash offset image) offset storage_image_len ≡ image)
        × (decodes image ≡ true)
        × ((write_record driver b slot_number offset record_index image).1
            ≡ recorded b slot_number offset record_index image)
  unfolding write_record
  write_record-ok b slot_number offset record_index image start whole inside h =
      let f2 = (driver.write b.flash offset image).1 in
      let got = law.reads f2 offset storage_image_len start whole inside in
      let verified = law.contents f2 offset storage_image_len in
      elim (Bool-cases (driver.write b.flash offset image).0) [
        | inl wrote ↦
            elim (Bool-cases (not (same_bytes verified image) || not (decodes verified))) [
              | inl bad ↦ let refused : err flash_verify ≡ ok tt = rw (wrote, got, bad) at h in cc
              | inr good ↦
                  let (alike, d) = both_pass (same_bytes verified image) (decodes verified) good in
                  let same : verified ≡ image = same_bytes-eq verified image alike in
                  (
                    law.read_keeps f2 offset storage_image_len offset storage_image_len ∙ same,
                    ap decodes (sym same) ∙ d,
                    rw (wrote, got, good) refl,
                  )
            ]
        | inr unwritten ↦ let refused : err flash_write ≡ ok tt = rw unwritten at h in cc
      ]

module _ {F : Type 0} (driver : NorFlash F) (law : IsNorFlash driver) (l : StorageFlashLayout)
    (fits : FitsFlash driver law l) where
  -- The records before one decode, and it and those after it are erased.
  pub record IsOpen (f : F) (i : StorageSlotIndex) (r : ℕ) : Type 0 where
    pub bound : r < records_per_slot l
    pub decoded : (j : ℕ) → j < r → decodes (record_at driver law l f i j) ≡ true
    pub blank :
        (j : ℕ)
        → r ≤ j
        → j < records_per_slot l
        → image_is_erased (record_at driver law l f i j) ≡ true

  -- Another record, of the same slot or of the other one, is clear of a write.
  apart_same :
      (i : StorageSlotIndex) (j r : ℕ)
      → j ≢ r
      → (record_offset l i j + storage_image_len ≤ record_offset l i r)
        ⊎ (record_offset l i r + storage_image_len ≤ record_offset l i j)
  unfolding record_offset
  apart_same i j r h = elim (compare-cases j r) [
    | inl less ↦ inl (omega arith)
    | inr (inl same) ↦ absurd (h same)
    | inr (inr more) ↦ inr (omega arith)
  ]

  apart_other :
      (i : StorageSlotIndex) (j r : ℕ)
      → j < records_per_slot l
      → r < records_per_slot l
      → (record_offset l (other i) j + storage_image_len ≤ record_offset l i r)
        ⊎ (record_offset l i r + storage_image_len ≤ record_offset l (other i) j)
  unfolding record_offset slot_offset other
  apart_other slot_a j r h k = inr (omega (arith, fits.whole))
  apart_other slot_b j r h k = inl (omega (arith, fits.whole))

  clear_record :
      (f : F) (o p : ℕ) (image : List ℕ)
      → length image ≡ storage_image_len
      → (p + storage_image_len ≤ o) ⊎ (o + storage_image_len ≤ p)
      → law.contents (verified_flash driver law f o image) p storage_image_len
        ≡ law.contents f p storage_image_len
  clear_record f o p image n side =
      law.read_keeps (driver.write f o image).1 o storage_image_len p storage_image_len
      ∙ law.write_leaves f o image p storage_image_len
          (elim side [ inl before ↦ inl before | inr behind ↦ inr (omega (arith, n)) ])

  pub IsJournal-grows :
      (f : F) (i : StorageSlotIndex) (r : ℕ) (image : List ℕ)
      → IsOpen f i r
      → length image ≡ storage_image_len
      → decodes image ≡ true
      → law.contents
          (verified_flash driver law f (record_offset l i r) image)
          (record_offset l i r)
          storage_image_len
        ≡ image
      → IsJournal driver law l
          (verified_flash driver law f (record_offset l i r) image)
          i
          (r + 1)
          image
  IsJournal-grows f i r image w n d at =
      let here =
        record_at driver law l (verified_flash driver law f (record_offset l i r) image) i in
      let kept : (j : ℕ) → j ≢ r → here j ≡ record_at driver law l f i j = λ j h.
        clear_record f (record_offset l i r) (record_offset l i j) image n (apart_same i j r h) in
      record {
        bound = omega (arith, w.bound);
        decoded = λ j h. elim (le-cases j r (omega arith)) [
          | inl less ↦ ap decodes (kept j (λ e. absurd (omega (arith, e)))) ∙ w.decoded j less
          | inr same ↦ ap decodes (ap here same ∙ at) ∙ d
        ];
        empty = λ e. absurd (omega (arith, e));
        last = λ j e. ap here (omega (arith, e)) ∙ at;
        blank = λ j low high.
            ap image_is_erased (kept j (λ e. absurd (omega (arith, e))))
            ∙ w.blank j (omega arith) high;
      }

  pub IsJournal-moves :
      (f g : F) (i : StorageSlotIndex) {next : ℕ} {latest : List ℕ}
      → ((j : ℕ)
          → j < records_per_slot l
          → record_at driver law l g i j ≡ record_at driver law l f i j)
      → IsJournal driver law l f i next latest
      → IsJournal driver law l g i next latest
  IsJournal-moves f g i same w = record {
    bound = w.bound;
    decoded = λ j h. ap decodes (same j (omega (arith, w.bound))) ∙ w.decoded j h;
    empty = w.empty;
    last = λ j e. same j (omega (arith, e, w.bound)) ∙ w.last j e;
    blank = λ j low high. ap image_is_erased (same j high) ∙ w.blank j low high;
  }

  pub other-IsJournal :
      (f : F) (i : StorageSlotIndex) (r : ℕ) (image : List ℕ) {next : ℕ} {latest : List ℕ}
      → r < records_per_slot l
      → length image ≡ storage_image_len
      → IsJournal driver law l f (other i) next latest
      → IsJournal driver law l
          (verified_flash driver law f (record_offset l i r) image)
          (other i)
          next
          latest
  other-IsJournal f i r image bound n w =
      IsJournal-moves f (verified_flash driver law f (record_offset l i r) image) (other i)
        (λ j h.
          clear_record f (record_offset l i r) (record_offset l (other i) j) image n
            (apart_other i j r h bound))
        w
