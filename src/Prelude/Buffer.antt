-- ===== src/Prelude/Buffer.antt =====
-- Byte buffers that a sequence of `copy_from_slice` fills.
use Prim.Native.Nat.{ℕ, zero, suc, ◌+◌, ◌-◌, ◌<◌, ◌≤◌}
use mathlib.Core.Path.{◌≡◌, refl, ap, sym, ◌∙◌}
use mathlib.Core.Logic.{◌⊎◌, inl, inr}
use mathlib.Core.Bool.{Bool, true, ◌&&◌, ◌||◌}
use mathlib.Core.List.{List, [], ◌∷◌, ◌++◌}
use mathlib.Core.Option.{some}
use native.Mathlib.Omega.{arith}
use hidshift.Prelude.Lists.{length, get_or, take, drop, slice, get_elem?}
use hidshift.Prelude.Tests.{leb}

module _ {ℓ} {A : Type ℓ} where
  -- `out[offset..offset + bytes.len()].copy_from_slice(bytes)`; what would fall outside is dropped.
  unfoldable pub write_at : List A → ℕ → List A → List A
  write_at [] offset bytes = []
  write_at (x ∷ xs) (suc offset) bytes = x ∷ write_at xs offset bytes
  write_at (x ∷ xs) zero [] = x ∷ xs
  write_at (x ∷ xs) zero (b ∷ bytes) = b ∷ write_at xs zero bytes

  -- The writes of a routine, in its order.
  unfoldable pub write_all : List A → List (ℕ × List A) → List A
  write_all xs [] = xs
  write_all xs ((offset, bytes) ∷ writes) = write_all (write_at xs offset bytes) writes

  pub length-write_at :
      (xs : List A) (offset : ℕ) (bytes : List A) → length (write_at xs offset bytes) ≡ length xs
  unfolding write_at
  length-write_at [] offset bytes = refl
  length-write_at (x ∷ xs) (suc offset) bytes = ap suc (length-write_at xs offset bytes)
  length-write_at (x ∷ xs) zero [] = refl
  length-write_at (x ∷ xs) zero (b ∷ bytes) = ap suc (length-write_at xs zero bytes)

  pub length-write_all :
      (xs : List A) (writes : List (ℕ × List A)) → length (write_all xs writes) ≡ length xs
  unfolding write_all
  length-write_all xs [] = refl
  length-write_all xs ((offset, bytes) ∷ writes) =
      length-write_all (write_at xs offset bytes) writes ∙ length-write_at xs offset bytes

  take-write_at :
      (xs : List A) (offset : ℕ) (bytes : List A) (n : ℕ)
      → n ≤ offset
      → take n (write_at xs offset bytes) ≡ take n xs
  unfolding write_at
  take-write_at [] offset bytes n h = refl
  take-write_at (x ∷ xs) (suc offset) bytes zero h = refl
  take-write_at (x ∷ xs) (suc offset) bytes (suc n) h =
      ap (◌∷◌ x) (take-write_at xs offset bytes n (omega arith))
  take-write_at (x ∷ xs) zero bytes zero h = refl
  take-write_at (x ∷ xs) zero bytes (suc n) h = absurd (omega arith)

  take-drop-write_at :
      (xs : List A) (offset : ℕ) (bytes : List A) (from n : ℕ)
      → from + n ≤ offset
      → take n (drop from (write_at xs offset bytes)) ≡ take n (drop from xs)
  unfolding write_at
  take-drop-write_at xs offset bytes zero n h = take-write_at xs offset bytes n (omega arith)
  take-drop-write_at [] offset bytes (suc from) n h = refl
  take-drop-write_at (x ∷ xs) (suc offset) bytes (suc from) n h =
      take-drop-write_at xs offset bytes from n (omega arith)
  take-drop-write_at (x ∷ xs) zero bytes (suc from) n h = absurd (omega arith)

  drop-write_at :
      (xs : List A) (offset : ℕ) (bytes : List A) (n : ℕ)
      → offset + length bytes ≤ n
      → drop n (write_at xs offset bytes) ≡ drop n xs
  unfolding write_at
  drop-write_at [] offset bytes n h = refl
  drop-write_at (x ∷ xs) (suc offset) bytes zero h = absurd (omega arith)
  drop-write_at (x ∷ xs) (suc offset) bytes (suc n) h =
      drop-write_at xs offset bytes n (omega arith)
  drop-write_at (x ∷ xs) zero [] n h = refl
  drop-write_at (x ∷ xs) zero (b ∷ bytes) zero h = absurd (omega arith)
  drop-write_at (x ∷ xs) zero (b ∷ bytes) (suc n) h = drop-write_at xs zero bytes n (omega arith)

  take-write_at_self :
      (xs bytes : List A) (n : ℕ)
      → length bytes ≡ n
      → n ≤ length xs
      → take n (write_at xs zero bytes) ≡ bytes
  unfolding write_at
  take-write_at_self xs [] zero h k = refl
  take-write_at_self xs [] (suc n) h k = absurd (omega arith)
  take-write_at_self [] (b ∷ bytes) n h k = absurd (omega arith)
  take-write_at_self (x ∷ xs) (b ∷ bytes) zero h k = absurd (omega arith)
  take-write_at_self (x ∷ xs) (b ∷ bytes) (suc n) h k =
      ap (◌∷◌ b) (take-write_at_self xs bytes n (omega arith) (omega arith))

  take-drop-write_at_self :
      (xs : List A) (offset : ℕ) (bytes : List A) (n : ℕ)
      → length bytes ≡ n
      → offset + n ≤ length xs
      → take n (drop offset (write_at xs offset bytes)) ≡ bytes
  unfolding write_at
  take-drop-write_at_self xs zero bytes n h k = take-write_at_self xs bytes n h (omega arith)
  take-drop-write_at_self [] (suc offset) bytes n h k = absurd (omega arith)
  take-drop-write_at_self (x ∷ xs) (suc offset) bytes n h k =
      take-drop-write_at_self xs offset bytes n h (omega arith)

  -- What was written is read back.
  pub slice-write_at :
      (xs : List A) (offset : ℕ) (bytes : List A) (to : ℕ)
      → offset + length bytes ≡ to
      → to ≤ length xs
      → slice (write_at xs offset bytes) offset to ≡ bytes
  slice-write_at xs offset bytes to h k =
      take-drop-write_at_self xs offset bytes (to - offset) (omega arith) (omega arith)

  pub write_at-nil : (xs : List A) (offset : ℕ) → write_at xs offset [] ≡ xs
  unfolding write_at
  write_at-nil [] offset = refl
  write_at-nil (x ∷ xs) (suc offset) = ap (◌∷◌ x) (write_at-nil xs offset)
  write_at-nil (x ∷ xs) zero = refl

  -- A write behind another one is one write.
  pub write_at-append :
      (xs : List A) (offset : ℕ) (front back : List A) (n : ℕ)
      → length front ≡ n
      → write_at (write_at xs offset front) (offset + n) back ≡ write_at xs offset (front ++ back)
  unfolding write_at
  write_at-append [] offset front back n h = refl
  write_at-append (x ∷ xs) (suc offset) front back n h =
      let e : suc offset + n ≡ suc (offset + n) = omega arith in
      rw e (ap (◌∷◌ x) (write_at-append xs offset front back n h))
  write_at-append (x ∷ xs) zero [] back zero h = refl
  write_at-append (x ∷ xs) zero [] back (suc n) h = absurd (omega arith)
  write_at-append (x ∷ xs) zero (a ∷ front) back zero h = absurd (omega arith)
  write_at-append (x ∷ xs) zero (a ∷ front) back (suc n) h =
      let e : 0 + suc n ≡ suc (0 + n) = omega arith in
      rw e (ap (◌∷◌ a) (write_at-append xs zero front back n (omega arith)))

-- Where a routine writes: the start and the room of each write. Layouts are concrete, so that their
-- tests compute.
abbrev pub Layout : Type 0
Layout = List (ℕ × ℕ)

-- None of the places touches `from..to`.
abbrev pub clear : ℕ → ℕ → Layout → Bool
clear from to [] = true
clear from to ((start, room) ∷ rest) =
    (leb to start || leb (start + room) from) && clear from to rest

-- Every place is within the buffer and clear of the later ones.
abbrev pub apart : ℕ → Layout → Bool
apart size [] = true
apart size ((start, room) ∷ rest) =
    leb (start + room) size && clear start (start + room) rest && apart size rest

module _ {ℓ} {A : Type ℓ} where
  -- The writes keep to the places.
  abbrev pub Within : List (ℕ × List A) → Layout → Type 0
  Within [] [] = Unit
  Within [] (place ∷ rest) = ⊥
  Within (write ∷ writes) [] = ⊥
  Within ((offset, bytes) ∷ writes) ((start, room) ∷ rest) =
      (offset ≡ start) × (length bytes ≤ room) × Within writes rest

  read_past :
      (xs : List A) (writes : List (ℕ × List A)) (layout : Layout) (from to from2 to2 : ℕ)
      → Within writes layout
      → clear from2 to2 layout ≡ true
      → from2 ≤ from
      → from ≤ to
      → to ≤ to2
      → slice (write_all xs writes) from to ≡ slice xs from to
  unfolding write_all
  read_past xs [] [] from to from2 to2 w c i j k = refl
  read_past xs [] (place ∷ rest) from to from2 to2 w c i j k = absurd w
  read_past xs (write ∷ writes) [] from to from2 to2 w c i j k = absurd w
  read_past xs ((offset, bytes) ∷ writes) ((start, room) ∷ rest) from to from2 to2 w c i j k =
      let side : (to2 ≤ start) ⊎ (start + room ≤ from2) = ground arith in
      let c2 : clear from2 to2 rest ≡ true = ground arith in
      let (at, fits, w2) = w in
      let later = read_past (write_at xs offset bytes) writes rest from to from2 to2 w2 c2 i j k in
      later ∙ elim side [
        | inl before ↦ take-drop-write_at xs offset bytes from (to - from) (omega (arith, at))
        | inr after ↦
            ap (take (to - from)) (drop-write_at xs offset bytes from (omega (arith, at, fits)))
      ]

  -- Each of the writes is read back after all of them.
  pub read_back :
      (xs : List A) (writes : List (ℕ × List A)) (layout : Layout) (k : ℕ) {offset to : ℕ}
      {bytes : List A}
      → Within writes layout
      → apart (length xs) layout ≡ true
      → get_elem? writes k ≡ some (offset, bytes)
      → offset + length bytes ≡ to
      → slice (write_all xs writes) offset to ≡ bytes
  unfolding write_all
  read_back xs [] layout k w c e h = cc
  read_back xs (write ∷ writes) [] k w c e h = absurd w
  read_back xs ((place, block) ∷ writes) ((start, room) ∷ rest) zero {offset = offset} {to = to}
        {bytes = bytes} w c e h =
      let (at, fits, w2) = w in
      let same : place ≡ offset = cc in
      let same_bytes : block ≡ bytes = cc in
      let c1 : leb (start + room) (length xs) ≡ true = ground arith in
      let c2 : clear start (start + room) rest ≡ true = ground arith in
      let n : length block ≡ length bytes = ap length same_bytes in
      let enough : to ≤ length xs = ground (arith, at, fits, same, n) in
      rw (sym same_bytes, sym same)
        (read_past (write_at xs place block) writes rest place to start (start + room) w2 c2
            (omega (arith, at)) (omega (arith, same)) (omega (arith, at, fits, same, n))
          ∙ slice-write_at xs place block to (omega (arith, same, n)) enough)
  read_back xs ((place, block) ∷ writes) ((start, room) ∷ rest) (suc k) {offset = offset} {to = to}
        {bytes = bytes} w c e h =
      let (at, fits, w2) = w in
      let c2 : apart (length xs) rest ≡ true = ground arith in
      let n = length-write_at xs place block in
      read_back (write_at xs place block) writes rest k w2 (ap (λ n. apart n rest) n ∙ c2) e h

  head-take-drop :
      (xs : List A) (i n : ℕ) (d : A) {b : A} {rest : List A}
      → take (suc n) (drop i xs) ≡ b ∷ rest
      → get_or xs i d ≡ b
  head-take-drop [] zero n d e = cc
  head-take-drop [] (suc i) n d e = cc
  head-take-drop (x ∷ xs) zero n d e = cc
  head-take-drop (x ∷ xs) (suc i) n d e = head-take-drop xs i n d e

  -- A single byte that is read back.
  pub get_or_of_slice :
      (xs : List A) (i to : ℕ) (d : A) {b : A} {rest : List A}
      → i < to
      → slice xs i to ≡ b ∷ rest
      → get_or xs i d ≡ b
  get_or_of_slice xs i to d h e =
      let n : to - i ≡ suc (to - i - 1) = omega arith in
      head-take-drop xs i (to - i - 1) d (ap (λ n. take n (drop i xs)) (sym n) ∙ e)
