-- ===== src/Storage/Flash/Landing.antt =====
-- What `write_slot` of src/storage.rs needs before it writes a record, and what it leaves.
use mathlib.Core.Path.{subst}
use hidshift.Storage.Flash.Scan.{
  record_offset-IsMultiple, FitsFlash, IsJournal, IsNorFlash, decodes, record_inside,
}
use hidshift.Storage.Slots.{StorageSlotIndex, other, slot_a, slot_b}
use hidshift.Storage.Image.{storage_image_len}
use hidshift.Storage.Flash.Journal.{
  IsOpen, IsJournal-grows, other-IsJournal, recorded, verified_flash, write_record-ok,
}
use hidshift.Storage.Flash.{
  NorFlash, NorFlashStorageBackend, record_offset, records_per_slot, slot_image,
  storage_slot_number, write_record,
}
use hidshift.Prelude.{
  List, [], arith, get_or, get_or-set_ne, get_or-set_self, inl, inr, length, length-set, ok, refl,
  sym, true, ℕ, ◌+◌, ◌<◌, ◌∙◌, ◌≡◌, ◌≢◌, ◌≤◌, ◌⊎◌,
}

slot_number-lt : (i : StorageSlotIndex) → storage_slot_number i < 2
unfolding storage_slot_number
slot_number-lt slot_a = omega arith
slot_number-lt slot_b = omega arith

pub slot_number-ne : (i : StorageSlotIndex) → storage_slot_number i ≢ storage_slot_number (other i)
unfolding storage_slot_number other
slot_number-ne slot_a e = absurd (omega (arith, e))
slot_number-ne slot_b e = absurd (omega (arith, e))

same_or_other : (i k : StorageSlotIndex) → (k ≡ i) ⊎ (k ≡ other i)
unfolding other
same_or_other slot_a slot_a = inl refl
same_or_other slot_a slot_b = inr refl
same_or_other slot_b slot_a = inr refl
same_or_other slot_b slot_b = inl refl

module _ {F : Type 0} (driver : NorFlash F) (law : IsNorFlash driver) where
  abbrev pub next_of : NorFlashStorageBackend F → StorageSlotIndex → ℕ
  next_of b i = get_or b.next_record (storage_slot_number i) 0

  -- Both slots are journals, of which the backend holds the latest images.
  pub record AreJournals (b : NorFlashStorageBackend F) : Type 0 where
    pub fits : FitsFlash driver law b.layout
    pub some_records : 1 ≤ records_per_slot b.layout
    pub slots : length b.slots ≡ 2
    pub next : length b.next_record ≡ 2
    pub journal :
        (i : StorageSlotIndex)
        → IsJournal driver law b.layout b.flash i (next_of b i) (slot_image driver b i)

  -- What is known just before a record is written.
  pub record IsReady (b : NorFlashStorageBackend F) (i : StorageSlotIndex) (r : ℕ) : Type 0 where
    pub fits : FitsFlash driver law b.layout
    pub slots : length b.slots ≡ 2
    pub next : length b.next_record ≡ 2
    pub opened : IsOpen driver law b.layout fits b.flash i r
    pub other_slot :
        IsJournal driver law b.layout b.flash
          (other i)
          (next_of b (other i))
          (slot_image driver b (other i))

  -- The image is in its slot, and the other slot is as it was.
  pub record Landed (b : NorFlashStorageBackend F) (i : StorageSlotIndex) (image : List ℕ)
      (c : NorFlashStorageBackend F) : Type 0 where
    pub journals : AreJournals c
    pub layout : c.layout ≡ b.layout
    pub held : slot_image driver c i ≡ image
    pub kept : slot_image driver c (other i) ≡ slot_image driver b (other i)

  record_journals :
      (b : NorFlashStorageBackend F) (i : StorageSlotIndex) (r : ℕ) (image : List ℕ)
      → IsReady b i r
      → length image ≡ storage_image_len
      → decodes image ≡ true
      → law.contents
          (verified_flash driver law b.flash (record_offset b.layout i r) image)
          (record_offset b.layout i r)
          storage_image_len
        ≡ image
      → Landed b i image
          (recorded driver law b (storage_slot_number i) (record_offset b.layout i r) r image)
  unfolding slot_image
  record_journals b i r image w n d at =
      let c = recorded driver law b (storage_slot_number i) (record_offset b.layout i r) r image in
      let mine : IsJournal driver law b.layout c.flash i (r + 1) image =
        IsJournal-grows driver law b.layout w.fits b.flash i r image w.opened n d at in
      let theirs =
        other-IsJournal driver law b.layout w.fits b.flash i r image w.opened.bound n
          w.other_slot in
      let my_next : next_of c i ≡ r + 1 =
        get_or-set_self b.next_record (storage_slot_number i) (r + 1) 0
          (omega (arith, w.next, slot_number-lt i)) in
      let my_image : slot_image driver c i ≡ image =
        get_or-set_self b.slots (storage_slot_number i) image []
          (omega (arith, w.slots, slot_number-lt i)) in
      let their_next : next_of c (other i) ≡ next_of b (other i) =
        get_or-set_ne b.next_record (storage_slot_number i) (storage_slot_number (other i)) (r + 1)
          0 (slot_number-ne i) in
      let their_image : slot_image driver c (other i) ≡ slot_image driver b (other i) =
        get_or-set_ne b.slots (storage_slot_number i) (storage_slot_number (other i)) image []
          (slot_number-ne i) in
      let mine_in : IsJournal driver law b.layout c.flash i (next_of c i) (slot_image driver c i) =
        rw (my_next, my_image) mine in
      let theirs_in : IsJournal driver law b.layout c.flash (other i) (next_of c (other i))
          (slot_image driver c (other i)) =
        rw (their_next, their_image) theirs in
      record {
        journals = record {
          fits = w.fits;
          some_records = omega (arith, w.opened.bound);
          slots = length-set b.slots (storage_slot_number i) image ∙ w.slots;
          next = length-set b.next_record (storage_slot_number i) (r + 1) ∙ w.next;
          journal = λ k. elim (same_or_other i k) [
            | inl e ↦
                subst
                  (λ k.
                    IsJournal driver law b.layout c.flash k (next_of c k) (slot_image driver c k))
                  (sym e) mine_in
            | inr e ↦
                subst
                  (λ k.
                    IsJournal driver law b.layout c.flash k (next_of c k) (slot_image driver c k))
                  (sym e) theirs_in
          ];
        };
        layout = refl;
        held = my_image;
        kept = their_image;
      }

  pub write_record-Landed :
      (b : NorFlashStorageBackend F) (i : StorageSlotIndex) (r : ℕ) (image : List ℕ)
      → IsReady b i r
      → length image ≡ storage_image_len
      → (write_record driver b (storage_slot_number i) (record_offset b.layout i r) r image).0
        ≡ ok tt
      → Landed b i image
          (write_record driver b (storage_slot_number i) (record_offset b.layout i r) r image).1
  write_record-Landed b i r image w n h =
      let (at, d, same) =
        write_record-ok driver law b (storage_slot_number i) (record_offset b.layout i r) r image
          (record_offset-IsMultiple driver law b.layout i r w.fits) w.fits.image_aligned
          (record_inside driver law b.layout i r w.fits w.opened.bound) h in
      subst (Landed b i image) (sym same) (record_journals b i r image w n d at)
