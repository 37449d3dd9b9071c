-- ===== src/Storage/Slots/Newest.antt =====
-- Which slot `select_newest_valid_storage_image` of src/storage.rs takes.
use hidshift.Storage.{StorageState}
use hidshift.Storage.Image.{decode_storage_image}
use hidshift.Prelude.{
  sym, Bool-cases, List, Option, ap, arith, false, inl, inr, none, refl, some, true, ℕ, ◌%◌, ◌+◌,
  ◌<◌, ◌^◌, ◌∙◌, ◌≡◌, ◌⊎◌,
}
use hidshift.Storage.Slots.{
  StorageSlot, StorageSlotBackend, StorageSlotIndex, choose_slot, generation_is_newer_or_equal,
  newest, other, select_newest_valid_storage_image, slot_a, slot_b, state_of, to_option,
}

module _ {B : Type 0} (backend : StorageSlotBackend B) where
  -- What a slot decodes to.
  abbrev pub reading : B → StorageSlotIndex → Option StorageState
  reading b i = to_option (decode_storage_image (backend.slot b i))

pub newest-choose :
    {B : Type 0} (backend : StorageSlotBackend B) (b : B)
    → newest backend b
      ≡ choose_slot
          (backend.slot b slot_a)
          (backend.slot b slot_b)
          (reading backend b slot_a)
          (reading backend b slot_b)
unfolding newest select_newest_valid_storage_image
newest-choose backend b = refl

choose_slot-reads :
    (xs ys : List ℕ) (a b : Option StorageState) {found : StorageSlot}
    → choose_slot xs ys a b ≡ some found
    → ((found.index ≡ slot_a) × (a ≡ some found.state))
      ⊎ ((found.index ≡ slot_b) × (b ≡ some found.state))
unfolding choose_slot
choose_slot-reads xs ys none none h = cc
choose_slot-reads xs ys (some a) none h = inl (cc, cc)
choose_slot-reads xs ys none (some b) h = inr (cc, cc)
choose_slot-reads xs ys (some a) (some b) {found = found} h =
    elim (Bool-cases (generation_is_newer_or_equal a.generation b.generation)) [
      | inl e ↦
          let it : some (record { index = slot_a; image = xs; state = a }) ≡ some found =
            rw e at h in
          inl (cc, cc)
      | inr e ↦
          let it : some (record { index = slot_b; image = ys; state = b }) ≡ some found =
            rw e at h in
          inr (cc, cc)
    ]

-- The newest slot decodes to the state that is given.
pub newest-reading :
    {B : Type 0} (backend : StorageSlotBackend B) (b : B) {found : StorageSlot}
    → newest backend b ≡ some found
    → reading backend b found.index ≡ some found.state
unfolding newest select_newest_valid_storage_image
newest-reading backend b h =
    elim (choose_slot-reads (backend.slot b slot_a) (backend.slot b slot_b)
      (reading backend b slot_a) (reading backend b slot_b) h) [
        | inl (at, e) ↦ ap (reading backend b) at ∙ e
        | inr (at, e) ↦ ap (reading backend b) at ∙ e
      ]

choose_slot-some :
    (xs ys : List ℕ) (a b : Option StorageState) {state : StorageState}
    → (a ≡ some state) ⊎ (b ≡ some state)
    → (found : StorageSlot) × (choose_slot xs ys a b ≡ some found)
unfolding choose_slot
choose_slot-some xs ys none none (inl e) = cc
choose_slot-some xs ys none none (inr e) = cc
choose_slot-some xs ys (some a) none e = (_, refl)
choose_slot-some xs ys none (some b) e = (_, refl)
choose_slot-some xs ys (some a) (some b) e =
    elim (Bool-cases (generation_is_newer_or_equal a.generation b.generation)) [
      | inl newer ↦ (record { index = slot_a; image = xs; state = a }, rw newer refl)
      | inr older ↦ (record { index = slot_b; image = ys; state = b }, rw older refl)
    ]

pub newest-some :
    {B : Type 0} (backend : StorageSlotBackend B) (b : B) (i : StorageSlotIndex)
    {state : StorageState}
    → reading backend b i ≡ some state
    → (found : StorageSlot) × (newest backend b ≡ some found)
unfolding newest select_newest_valid_storage_image
newest-some backend b slot_a e =
    choose_slot-some _ _ (reading backend b slot_a) (reading backend b slot_b) (inl e)
newest-some backend b slot_b e =
    choose_slot-some _ _ (reading backend b slot_a) (reading backend b slot_b) (inr e)

choose_slot-none :
    (xs ys : List ℕ) (a b : Option StorageState)
    → choose_slot xs ys a b ≡ none
    → (a ≡ none) × (b ≡ none)
unfolding choose_slot
choose_slot-none xs ys none none h = (refl, refl)
choose_slot-none xs ys (some a) none h = cc
choose_slot-none xs ys none (some b) h = cc
choose_slot-none xs ys (some a) (some b) h =
    let (found, e) = choose_slot-some xs ys (some a) (some b) (inl refl) in
    let bad : some found ≡ none = sym e ∙ h in cc

-- Without a newest slot, none decodes.
pub newest-none :
    {B : Type 0} (backend : StorageSlotBackend B) (b : B) (i : StorageSlotIndex)
    → newest backend b ≡ none
    → reading backend b i ≡ none
unfolding newest select_newest_valid_storage_image
newest-none backend b slot_a h =
    (choose_slot-none _ _ (reading backend b slot_a) (reading backend b slot_b) h).0
newest-none backend b slot_b h =
    (choose_slot-none _ _ (reading backend b slot_a) (reading backend b slot_b) h).1

abbrev after : ℕ → ℕ
after generation = (generation + 1) % 2 ^ 32

after-newer : (g : ℕ) → g < 2 ^ 32 → generation_is_newer_or_equal (after g) g ≡ true
unfolding generation_is_newer_or_equal
after-newer g h = ground arith

before-older : (g : ℕ) → g < 2 ^ 32 → generation_is_newer_or_equal g (after g) ≡ false
unfolding generation_is_newer_or_equal
before-older g h = ground arith

-- A state one generation on is preferred, in either slot, across the wrap of the generations.
pub newest-next :
    {B : Type 0} (backend : StorageSlotBackend B) (b : B) (i : StorageSlotIndex)
    {old next : StorageState}
    → reading backend b (other i) ≡ some old
    → reading backend b i ≡ some next
    → old.generation < 2 ^ 32
    → next.generation ≡ (old.generation + 1) % 2 ^ 32
    → state_of (newest backend b) ≡ some next
unfolding newest select_newest_valid_storage_image choose_slot other
newest-next backend b slot_a {old = old} e f small g =
    rw (e, f, g, after-newer old.generation small) refl
newest-next backend b slot_b {old = old} e f small g =
    rw (e, f, g, before-older old.generation small) refl

-- The only state that decodes is taken.
pub newest-only :
    {B : Type 0} (backend : StorageSlotBackend B) (b : B) (i : StorageSlotIndex)
    {next : StorageState}
    → reading backend b (other i) ≡ none
    → reading backend b i ≡ some next
    → state_of (newest backend b) ≡ some next
unfolding newest select_newest_valid_storage_image choose_slot other
newest-only backend b slot_a e f = rw (e, f) refl
newest-only backend b slot_b e f = rw (e, f) refl
