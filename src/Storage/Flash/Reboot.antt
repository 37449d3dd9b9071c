-- ===== src/Storage/Flash/Reboot.antt =====
-- After a restart the journals of src/storage.rs are found as they were in memory.
use hidshift.Storage.{flash_erase}
use hidshift.Storage.Image.{storage_image_len}
use mathlib.Core.Path.{subst}
use hidshift.Storage.Flash.Journal.{IsJournal-moves}
use hidshift.Storage.Flash.Scan.{
  FitsFlash, IsNorFlash, scan_flash_slot-Journal, scan_flash_slot-keeps,
}
use hidshift.Storage.Flash.Landing.{AreJournals, IsReady, Landed, next_of, write_record-Landed}
use hidshift.Prelude.{
  replicate, suc, zero, Bool, Bool-cases, List, [], ap, arith, err, false, get_or, inl, inr, leb,
  length, ok, refl, sym, true, ℕ, ◌+◌, ◌<◌, ◌∙◌, ◌∷◌, ◌≡◌, ◌≤◌, ◌⊎◌,
}
use hidshift.Storage.Slots.{StorageSlotIndex, other, slot_a, slot_b}
use hidshift.Storage.Flash.{
  NorFlash, NorFlashStorageBackend, StorageFlashLayout, image_is_erased, open_slots, record_offset,
  records_per_slot, scan_flash_slot, slot_image, slot_offset, storage_slot_number, write_record,
  write_slot,
}

pub all_set : (n : ℕ) → image_is_erased (replicate n 0xff) ≡ true
unfolding image_is_erased
all_set zero = refl
all_set (suc n) = all_set n

module _ {F : Type 0} (driver : NorFlash F) (law : IsNorFlash driver) where
  IsReady-behind :
      (b : NorFlashStorageBackend F) (i : StorageSlotIndex)
      → AreJournals driver law b
      → next_of driver law b i < records_per_slot b.layout
      → IsReady driver law b i (next_of driver law b i)
  IsReady-behind b i w room = record {
    fits = w.fits;
    slots = w.slots;
    next = w.next;
    opened = record { bound = room; decoded = (w.journal i).decoded; blank = (w.journal i).blank };
    other_slot = w.journal (other i);
  }

  abbrev erased_backend : NorFlashStorageBackend F → StorageSlotIndex → NorFlashStorageBackend F
  erased_backend b i = record b {
    flash =
        (driver.erase b.flash (slot_offset b.layout i)
          (slot_offset b.layout i + b.layout.slot_size)).1;
  }

  record_outside :
      (l : StorageFlashLayout) (i : StorageSlotIndex) (j : ℕ)
      → FitsFlash driver law l
      → j < records_per_slot l
      → (record_offset l (other i) j + storage_image_len ≤ slot_offset l i)
        ⊎ (slot_offset l i + l.slot_size ≤ record_offset l (other i) j)
  unfolding record_offset slot_offset other
  record_outside l slot_a j fits h = inr (omega arith)
  record_outside l slot_b j fits h = inl (omega (arith, fits.whole))

  IsReady-erased :
      (b : NorFlashStorageBackend F) (i : StorageSlotIndex)
      → AreJournals driver law b
      → (driver.erase b.flash
          (slot_offset b.layout i)
          (slot_offset b.layout i + b.layout.slot_size)).0
        ≡ true
      → IsReady driver law (erased_backend b i) i 0
  unfolding slot_image record_offset
  IsReady-erased b i w done =
      let l = b.layout in
      let start = slot_offset l i in
      record {
        fits = w.fits;
        slots = w.slots;
        next = w.next;
        opened = record {
          bound = omega (arith, w.some_records);
          decoded = λ j h. absurd (omega arith);
          blank = λ j low high.
              ap image_is_erased (
                law.erase_clears b.flash start (start + l.slot_size) (record_offset l i j)
                  storage_image_len done (omega arith) (omega (arith, w.fits.whole)))
              ∙ all_set storage_image_len;
        };
        other_slot =
            IsJournal-moves driver law l w.fits b.flash (erased_backend b i).flash (other i)
              (λ j h.
                law.erase_leaves b.flash start (start + l.slot_size) (record_offset l (other i) j)
                  storage_image_len (record_outside l i j w.fits h))
              (w.journal (other i));
      }

  first_record :
      (l : StorageFlashLayout) (i : StorageSlotIndex) → slot_offset l i ≡ record_offset l i 0
  unfolding record_offset
  first_record l i = omega arith

  abbrev erase_done : NorFlashStorageBackend F → StorageSlotIndex → Bool
  erase_done b i =
      (driver.erase b.flash (slot_offset b.layout i)
        (slot_offset b.layout i + b.layout.slot_size)).0

  write_slot-full :
      (b : NorFlashStorageBackend F) (i : StorageSlotIndex) (image : List ℕ)
      → leb (records_per_slot b.layout) (next_of driver law b i) ≡ true
      → erase_done b i ≡ true
      → write_slot driver b i image
        ≡ write_record driver
            (erased_backend b i)
            (storage_slot_number i)
            (record_offset b.layout i 0)
            0
            image
  unfolding write_slot
  write_slot-full b i image full done =
      let at : slot_offset b.layout i ≡ record_offset b.layout i 0 = first_record b.layout i in
      rw (full, done)
        (ap (λ o. write_record driver (erased_backend b i) (storage_slot_number i) o 0 image) at)

  write_slot-room :
      (b : NorFlashStorageBackend F) (i : StorageSlotIndex) (image : List ℕ)
      → leb (records_per_slot b.layout) (next_of driver law b i) ≡ false
      → write_slot driver b i image
        ≡ write_record driver b
            (storage_slot_number i)
            (record_offset b.layout i (next_of driver law b i))
            (next_of driver law b i)
            image
  unfolding write_slot record_offset
  write_slot-room b i image room = rw room refl

  write_slot-stuck :
      (b : NorFlashStorageBackend F) (i : StorageSlotIndex) (image : List ℕ)
      → leb (records_per_slot b.layout) (next_of driver law b i) ≡ true
      → erase_done b i ≡ false
      → (write_slot driver b i image).0 ≡ err flash_erase
  unfolding write_slot
  write_slot-stuck b i image full left = rw (full, left) refl

  not_leb : (a b : ℕ) → leb a b ≡ false → b < a
  not_leb a b h = ground arith

  Landed-from :
      (b c out : NorFlashStorageBackend F) (i : StorageSlotIndex) (image : List ℕ)
      → c.slots ≡ b.slots
      → c.layout ≡ b.layout
      → Landed driver law c i image out
      → Landed driver law b i image out
  unfolding slot_image
  Landed-from b c out i image slots layout w = record {
    journals = w.journals;
    layout = w.layout ∙ layout;
    held = w.held;
    kept = w.kept ∙ ap (λ slots. get_or slots (storage_slot_number (other i)) []) slots;
  }

  Landed-after :
      (b c : NorFlashStorageBackend F) (i : StorageSlotIndex) (r : ℕ) (image : List ℕ)
      → c.slots ≡ b.slots
      → c.layout ≡ b.layout
      → IsReady driver law c i r
      → length image ≡ storage_image_len
      → write_slot driver b i image
        ≡ write_record driver c (storage_slot_number i) (record_offset c.layout i r) r image
      → (write_slot driver b i image).0 ≡ ok tt
      → Landed driver law b i image (write_slot driver b i image).1
  Landed-after b c i r image slots layout w n same h =
      subst (λ out. Landed driver law b i image out.1) (sym same)
        (Landed-from b c _ i image slots layout
          (write_record-Landed driver law c i r image w n (ap (λ out. out.0) (sym same) ∙ h)))

  -- A write that succeeds keeps both slots journals.
  pub write_slot-Landed :
      (b : NorFlashStorageBackend F) (i : StorageSlotIndex) (image : List ℕ)
      → AreJournals driver law b
      → length image ≡ storage_image_len
      → (write_slot driver b i image).0 ≡ ok tt
      → Landed driver law b i image (write_slot driver b i image).1
  write_slot-Landed b i image w n h =
      elim (Bool-cases (leb (records_per_slot b.layout) (next_of driver law b i))) [
        | inl full ↦ elim (Bool-cases (erase_done b i)) [
          | inl done ↦
              Landed-after b (erased_backend b i) i 0 image refl refl (IsReady-erased b i w done) n
                (write_slot-full b i image full done) h
          | inr left ↦
              let refused : err flash_erase ≡ ok tt =
                sym (write_slot-stuck b i image full left) ∙ h in
              cc
        ]
        | inr room ↦
            Landed-after b b i (next_of driver law b i) image refl refl
              (IsReady-behind b i w (not_leb _ _ room)) n (write_slot-room b i image room) h
      ]

  abbrev pub reopened : NorFlashStorageBackend F → NorFlashStorageBackend F
  reopened b = record {
    flash =
        (scan_flash_slot driver b.layout slot_b
          (scan_flash_slot driver b.layout slot_a b.flash).1).1;
    layout = b.layout;
    slots = slot_image driver b slot_a ∷ slot_image driver b slot_b ∷ [];
    next_record = next_of driver law b slot_a ∷ next_of driver law b slot_b ∷ [];
  }

  pub reopened-slot :
      (b : NorFlashStorageBackend F) (i : StorageSlotIndex)
      → slot_image driver (reopened b) i ≡ slot_image driver b i
  unfolding slot_image storage_slot_number
  reopened-slot b slot_a = refl
  reopened-slot b slot_b = refl

  reopened-next :
      (b : NorFlashStorageBackend F) (i : StorageSlotIndex)
      → next_of driver law (reopened b) i ≡ next_of driver law b i
  unfolding storage_slot_number
  reopened-next b slot_a = refl
  reopened-next b slot_b = refl

  -- The scan at a start finds in the journals what the backend holds.
  pub open_slots-reopened :
      (b : NorFlashStorageBackend F)
      → AreJournals driver law b
      → open_slots driver b.layout b.flash ≡ ok (reopened b)
  unfolding open_slots
  open_slots-reopened b w =
      let f2 = (scan_flash_slot driver b.layout slot_a b.flash).1 in
      let found_a =
        scan_flash_slot-Journal driver law b.layout slot_a b.flash b.flash w.fits (w.journal slot_a)
          (λ j. refl) in
      let kept = scan_flash_slot-keeps driver law b.layout slot_a slot_b b.flash in
      let found_b =
        scan_flash_slot-Journal driver law b.layout slot_b b.flash f2 w.fits (w.journal slot_b)
          kept in
      rw (found_a, found_b) refl

  -- A write to a slot that succeeds survives a restart: on flash that keeps its documented behaviour,
  -- from a backend whose slots are journals, the scan at the next start succeeds, and it finds the
  -- image in the slot, the other slot as it was, and both places of the next write; the slots are
  -- journals again.
  pub write_slot-Survives :
      (b : NorFlashStorageBackend F) (i : StorageSlotIndex) (image : List ℕ)
      → AreJournals driver law b
      → length image ≡ storage_image_len
      → (write_slot driver b i image).0 ≡ ok tt
      → AreJournals driver law (write_slot driver b i image).1
        × (c : NorFlashStorageBackend F) × (open_slots driver b.layout
              (write_slot driver b i image).1.flash
            ≡ ok c)
        × (slot_image driver c i ≡ image)
        × (slot_image driver c (other i) ≡ slot_image driver b (other i))
        × ((k : StorageSlotIndex)
            → next_of driver law c k ≡ next_of driver law (write_slot driver b i image).1 k)
  write_slot-Survives b i image w n h =
      let after = (write_slot driver b i image).1 in
      let it = write_slot-Landed b i image w n h in
      (
        it.journals,
        reopened after,
        ap (λ l. open_slots driver l after.flash) (sym it.layout)
            ∙ open_slots-reopened after it.journals,
        reopened-slot after i ∙ it.held,
        reopened-slot after (other i) ∙ it.kept,
        reopened-next after,
      )
