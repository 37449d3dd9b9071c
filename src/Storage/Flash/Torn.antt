-- ===== src/Storage/Flash/Torn.antt =====
-- What the scan of src/storage.rs does at a record that was only written in part.
use hidshift.Storage.Image.{storage_image_len}
use hidshift.Storage.Slots.{StorageSlotIndex}
use hidshift.Prelude.{
  List, ap, arith, false, inl, inr, le-cases, ok, refl, suc, sym, true, zero, ℕ, ◌+◌, ◌<◌, ◌∙◌, ◌≡◌,
  ◌≤◌,
}
use hidshift.Storage.Flash.Scan.{
  reads_record, FitsFlash, IsNorFlash, SameRecords, decodes, decodes-not_erased, record_at,
}
use hidshift.Storage.Flash.{
  NorFlash, StorageFlashLayout, erased_image, image_is_erased, record_offset, records_per_slot,
  scan_flash_slot, scan_records, scan_step,
}

module _ {F : Type 0} (driver : NorFlash F) (law : IsNorFlash driver) (l : StorageFlashLayout) where
  abbrev at : F → StorageSlotIndex → ℕ → List ℕ
  at f i j = record_at driver law l f i j

  -- The records before one decode, the last of them is the latest image, and the one is neither
  -- erased nor decodes. Nothing is said of those behind it.
  pub record IsTorn (f : F) (i : StorageSlotIndex) (torn : ℕ) (latest : List ℕ) : Type 0 where
    pub bound : torn < records_per_slot l
    pub decoded : (j : ℕ) → j < torn → decodes (at f i j) ≡ true
    pub empty : torn ≡ 0 → latest ≡ erased_image
    pub last : (j : ℕ) → torn ≡ suc j → at f i j ≡ latest
    pub written : image_is_erased (at f i torn) ≡ false
    pub broken : decodes (at f i torn) ≡ false

  scan_records-Torn :
      (i : StorageSlotIndex) (g : F) {torn : ℕ} {found : List ℕ}
      → FitsFlash driver law l
      → IsTorn g i torn found
      → (count index : ℕ) (f : F) (latest : List ℕ) → SameRecords driver law l f g i
      → index + count ≡ records_per_slot l
      → index ≤ torn
      → (index ≡ torn → latest ≡ found)
      → (scan_records driver l i count index f latest).0 ≡ ok (found, records_per_slot l)
  unfolding scan_records scan_step
  scan_records-Torn i g fits w zero index f latest same end low found_at =
      absurd (omega (arith, w.bound))
  scan_records-Torn i g {torn = torn} fits w (suc count) index f latest same end low found_at =
      let inside : index < records_per_slot l = omega arith in
      let offset = record_offset l i index in
      let got = reads_record driver law l i index f fits inside in
      elim (le-cases index torn low) [
        | inl before ↦
            let good : decodes (at f i index) ≡ true =
              ap decodes (same index) ∙ w.decoded index before in
            let filled = decodes-not_erased (at f i index) good in
            let kept : SameRecords driver law l (driver.read f offset storage_image_len).1 g i =
              λ j.
                law.read_keeps f offset storage_image_len (record_offset l i j) storage_image_len
                ∙ same j in
            rw (got, filled, good)
              (scan_records-Torn i g fits w count (index + 1)
                (driver.read f offset storage_image_len).1 (at f i index) kept (omega arith)
                (omega (arith, before)) (λ e. same index ∙ w.last index (omega (arith, e))))
        | inr reached ↦
            let filled : image_is_erased (at f i index) ≡ false =
              ap image_is_erased (same index)
              ∙ ap (λ j. image_is_erased (at g i j)) reached
              ∙ w.written in
            let bad : decodes (at f i index) ≡ false =
              ap decodes (same index) ∙ ap (λ j. decodes (at g i j)) reached ∙ w.broken in
            rw (got, filled, bad, found_at reached) refl
      ]

  -- A record that was only written in part ends the scan at a start: what is found is the latest
  -- image before it, whatever the records behind it hold, also those that a later write put there
  -- successfully.
  pub scan_flash_slot-Torn :
      (i : StorageSlotIndex) (f : F) {torn : ℕ} {latest : List ℕ}
      → FitsFlash driver law l
      → IsTorn f i torn latest
      → (scan_flash_slot driver l i f).0 ≡ ok (latest, records_per_slot l)
  unfolding scan_flash_slot
  scan_flash_slot-Torn i f fits w =
      scan_records-Torn i f fits w (records_per_slot l) 0 f erased_image (λ j. refl) (omega arith)
        (omega arith) (λ e. sym (w.empty (sym e)))
