-- ===== src/Storage/Flash/Layout.antt =====
-- A layout that `validate_for_flash` of src/storage.rs accepts suits the flash.
use mathlib.Core.Path.{subst}
use hidshift.Storage.Image.{storage_image_len}
use hidshift.Storage.{StorageError, flash_layout}
use hidshift.Storage.Flash.Scan.{IsMultiple-mul, FitsFlash, IsMultiple, IsNorFlash}
use hidshift.Storage.Flash.{
  layout_len, NorFlash, StorageFlashLayout, is_aligned, validate_for_flash,
}
use hidshift.Prelude.{
  ◌<◌, leb, ltb, not, ◌==◌, ◌||◌, refl, refuse_if, ◌^◌, ◌≤◌, Bool, ap, arith, false, ok, sym, true,
  ℕ, ◌%◌, ◌*◌, ◌+◌, ◌/◌, ◌∙◌, ◌≡◌,
}
use native.Mathlib.Nat.{zero-add, mod-add-div'}

whole_records : (slot_size unit : ℕ) → slot_size % unit ≡ 0 → slot_size ≡ slot_size / unit * unit
whole_records n unit whole =
    sym (mod-add-div' n unit) ∙ ap (λ r. r + n / unit * unit) whole ∙ zero-add (n / unit * unit)

aligned-IsMultiple : (n unit : ℕ) → is_aligned n unit ≡ true → IsMultiple unit n
unfolding is_aligned
aligned-IsMultiple n unit h =
    let whole : n % unit ≡ 0 = ground (arith, h) in
    record { times = n / unit; equal = whole_records n unit whole }

refuse_if-ok : (b : Bool) (why : StorageError) → refuse_if b why ≡ ok tt → b ≡ false
refuse_if-ok true why h = cc
refuse_if-ok false why h = refl

or-false : (a b : Bool) → (a || b) ≡ false → (a ≡ false) × (b ≡ false)
or-false a b h = ground arith

not-true : (a : Bool) → not a ≡ false → a ≡ true
not-true a h = ground arith

-- The checks of a layout, of which the third, the sixth and the last two matter here.
ten_checks :
    (a b c d e f g h i j : Bool)
    → (a || b || c || not d || not e || not f || not g || not h || not i || not j) ≡ false
    → (c ≡ false) × (f ≡ true) × (i ≡ true) × (j ≡ true)
ten_checks a b c d e f g h i j none_failed =
    let (r1, j_ok) = or-false _ (not j) none_failed in
    let (r2, i_ok) = or-false _ (not i) r1 in
    let (r3, _) = or-false _ (not h) r2 in
    let (r4, _) = or-false _ (not g) r3 in
    let (r5, f_ok) = or-false _ (not f) r4 in
    let (r6, _) = or-false _ (not e) r5 in
    let (r7, _) = or-false _ (not d) r6 in
    let (_, c_ok) = or-false _ c r7 in (c_ok, not-true f f_ok, not-true i i_ok, not-true j j_ok)

not_ltb : (m n : ℕ) → ltb m n ≡ false → n ≤ m
not_ltb m n h = ground (arith, h)

eq_of_test : (m n : ℕ) → (m == n) ≡ true → m ≡ n
eq_of_test m n h = ground (arith, h)

within_flash : (end capacity size : ℕ) → end ≤ capacity % 2 ^ 32 → capacity ≡ size → end ≤ size
within_flash end capacity size h e = omega (arith, h, e)

doubled :
    (base slot_size size : ℕ)
    → slot_size * 2 < 2 ^ 32
    → base + slot_size * 2 % 2 ^ 32 ≤ size
    → base + slot_size * 2 ≤ size
doubled base slot_size size small h = omega (arith, small, h)

module _ {F : Type 0} (driver : NorFlash F) (law : IsNorFlash driver) where
  -- A layout, of slots whose sum does not overflow, that is accepted for a flash of the size that it
  -- reports lies within it, and reads of
  -- its records are aligned.
  validate_for_flash-FitsFlash :
      (l : StorageFlashLayout) (f : F)
      → driver.capacity f ≡ law.size
      → l.slot_size * 2 < 2 ^ 32
      → validate_for_flash driver l f ≡ ok tt
      → FitsFlash driver law l
  unfolding validate_for_flash
  validate_for_flash-FitsFlash l f size small h =
      let (within, whole, base, image) =
        ten_checks (ltb l.slot_size storage_image_len) (leb (2 ^ 32) (l.base_offset + layout_len l))
          (ltb (driver.capacity f % 2 ^ 32) (l.base_offset + layout_len l))
          (is_aligned l.base_offset driver.erase_size) (is_aligned l.slot_size driver.erase_size)
          (l.slot_size % storage_image_len == 0) (is_aligned l.base_offset driver.write_size)
          (is_aligned storage_image_len driver.write_size)
          (is_aligned l.base_offset driver.read_size)
          (is_aligned storage_image_len driver.read_size) (refuse_if-ok _ flash_layout h) in
      let inside = not_ltb (driver.capacity f % 2 ^ 32) (l.base_offset + layout_len l) within in
      let records = eq_of_test (l.slot_size % storage_image_len) 0 whole in
      let image_aligned = aligned-IsMultiple storage_image_len driver.read_size image in
      let equal = whole_records l.slot_size storage_image_len records in
      record {
        inside =
            doubled l.base_offset l.slot_size law.size small (
              within_flash (l.base_offset + layout_len l) (driver.capacity f) law.size inside size);
        whole = omega (arith, equal);
        base_aligned = aligned-IsMultiple l.base_offset driver.read_size base;
        slot_aligned =
            subst (IsMultiple driver.read_size) (sym equal)
              (IsMultiple-mul (l.slot_size / storage_image_len) image_aligned);
        image_aligned = image_aligned;
      }
