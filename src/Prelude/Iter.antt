-- ===== src/Prelude/Iter.antt =====
-- The iterator methods of Rust that the sources use.
use Prim.Native.Nat.{ℕ, suc, ◌+◌, ◌≤◌, ◌<◌}
use mathlib.Core.Path.{◌≡◌, refl, ap}
use mathlib.Core.Logic.{inl, inr}
use mathlib.Core.Bool.{Bool, true, false, ◌||◌}
use mathlib.Core.Option.{Option, none, some}
use mathlib.Core.List.{List, [], ◌∷◌, ◌++◌}
use native.Mathlib.Omega.{arith}
use hidshift.Prelude.Tests.{if◌then◌else◌, Bool-cases}
use hidshift.Prelude.Lists.{length}

abbrev pub is_some {ℓ} : {A : Type ℓ} → Option A → Bool
is_some none = false
is_some (some a) = true

abbrev pub is_none {ℓ} : {A : Type ℓ} → Option A → Bool
is_none none = true
is_none (some a) = false

-- `iter().position(..)`, the index of the first entry that passes, counted from `i`.
unfoldable pub position_from {ℓ} : {A : Type ℓ} → (A → Bool) → ℕ → List A → Option ℕ
position_from p i [] = none
position_from p i (x ∷ xs) = if p x then some i else position_from p (suc i) xs

pub position_from_bounds {ℓ} :
    {A : Type ℓ} (p : A → Bool) (i : ℕ) (xs : List A) {k : ℕ}
    → position_from p i xs ≡ some k
    → (i ≤ k) × (k < i + length xs)
unfolding position_from
position_from_bounds p i [] e = ground arith
position_from_bounds p i (x ∷ xs) {k} e = ground (arith, position_from_bounds p (suc i) xs {k = k})

module _ {ℓ} {A : Type ℓ} where
  -- `iter().any(..)` and `iter().find(..)`
  abbrev pub any : (A → Bool) → List A → Bool
  any p [] = false
  any p (x ∷ xs) = p x || any p xs

  abbrev pub find : (A → Bool) → List A → Option A
  find p [] = none
  find p (x ∷ xs) = if p x then some x else find p xs

  -- A change of the first entry that passes, through `iter_mut().find(..)`.
  abbrev pub change_first : (A → Bool) → (A → A) → List A → List A
  change_first p f [] = []
  change_first p f (x ∷ xs) = let rest = change_first p f xs in if p x then f x ∷ xs else x ∷ rest

  pub length-change_first :
      (p : A → Bool) (f : A → A) (xs : List A) → length (change_first p f xs) ≡ length xs
  length-change_first p f [] = refl
  length-change_first p f (x ∷ xs) = elim (Bool-cases (p x)) [
    | inl e ↦ rw e refl
    | inr e ↦ rw e (ap suc (length-change_first p f xs))
  ]

  pub any-append : (p : A → Bool) (xs ys : List A) → any p (xs ++ ys) ≡ (any p xs || any p ys)
  any-append p [] ys = refl
  any-append p (x ∷ xs) ys = elim (Bool-cases (p x)) [
    | inl e ↦ rw e refl
    | inr e ↦ rw e (any-append p xs ys)
  ]

  -- The predicate holds of every entry.
  abbrev pub Each {κ} : (A → Type κ) → List A → Type κ
  Each P [] = Unit
  Each P (x ∷ xs) = P x × Each P xs
