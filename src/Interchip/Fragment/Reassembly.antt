-- ===== src/Interchip/Fragment/Reassembly.antt =====
-- Cutting a control message of src/interchip/control_fragment.rs and putting it together again, in
-- the order in which src/interchip/device.rs sends the fragments.
use hidshift.Interchip.Fragment.Storing.{
  Ready, Waits, begun_buffer, begun-piece, expects-piece, has_last-fragment_flags, held,
  store-piece,
}
use hidshift.Interchip.Fragment.Pieces.{
  new_message-ok, Answers, Filled, answered, filled-Filled, followed, fragment_data-piece,
  fragments_from, from_message-message, message, piece, piece_end, push_all,
}
use hidshift.Interchip.Fragment.{ControlMessage, Fragment, fragment_data, has_last, new_message}
use hidshift.Prelude.{
  refl, sym, Bool, Bool-cases, List, Option, [], ap, arith, false, if◌then◌else◌, inl, inr, length,
  length-slice, none, ok, replicate, some, suc, true, zero, ℕ, ◌*◌, ◌++◌, ◌+◌, ◌-◌, ◌/◌, ◌<◌, ◌==◌,
  ◌∙◌, ◌∷◌, ◌≡◌, ◌≤◌, ◌⊎◌,
}
use hidshift.Interchip.Fragment.Assembler.{Pushed, begun, push, Assembler, reset}

module _ {T : Type 0} (same : T → T → Bool) (same_refl : (t : T) → same t t ≡ true) (id : ℕ)
    (tag : T) (bytes : List ℕ) (small : length bytes ≤ 256) where
  push-piece :
      (a : Assembler T) (offset : ℕ)
      → offset ≤ length bytes
      → Ready id tag bytes a offset
      → let b : Assembler T =
          held id tag bytes small (begun a (piece id tag bytes offset)) offset in
        push same a (piece id tag bytes offset)
        ≡ some (
            if piece_end bytes offset == length bytes
            then (reset b, ok (some (message id tag bytes)))
            else (b, ok none))
  unfolding push
  push-piece a offset h r =
      let p : Fragment T = piece id tag bytes offset in
      let full : Filled bytes (begun a p).buffer offset = rw (begun_buffer a p) r.0 in
      rw
        (expects-piece same same_refl id tag bytes (begun a p) offset
          (begun-piece id tag bytes a offset r))
        (store-piece id tag bytes small (begun a p) offset h full)

  held-Ready :
      (a : Assembler T) (offset : ℕ)
      → offset ≤ length bytes
      → Ready id tag bytes a offset
      → Ready id tag bytes
          (held id tag bytes small (begun a (piece id tag bytes offset)) offset)
          (piece_end bytes offset)
  unfolding held
  held-Ready a offset h r =
      let p : Fragment T = piece id tag bytes offset in
      let full : Filled bytes (begun a p).buffer offset = rw (begun_buffer a p) r.0 in
      let w : Waits id tag bytes (begun a p) offset = begun-piece id tag bytes a offset r in
      (
        filled-Filled id tag bytes small (begun a p).buffer offset h full,
        inr (w.0, w.1, w.2, omega arith),
      )

  -- `k` pushes answer that more is to come, and the next one gives the message.
  abbrev answers : ℕ → Answers T
  answers k = replicate k (ok none) ++ ok (some (message id tag bytes)) ∷ []

  answered_more :
      (rest : Assembler T → Option (Answers T)) (a : Assembler T) (k : ℕ)
      → rest a ≡ some (answers k)
      → answered rest (some (a, ok none)) ≡ some (answers (suc k))
  unfolding answered
  answered_more rest a k h = rw h

  push_all_last :
      (a a2 : Assembler T) (f : Fragment T) (rest : List (Fragment T))
      → has_last f.flags ≡ true
      → push same a f ≡ some (a2, ok (some (message id tag bytes)))
      → push_all same a (f ∷ (if has_last f.flags then [] else rest)) ≡ some (answers 0)
  unfolding push_all answered
  push_all_last a a2 f rest e h = rw (e, h)

  push_all_more :
      (a a2 : Assembler T) (f : Fragment T) (rest : List (Fragment T)) (k : ℕ)
      → has_last f.flags ≡ false
      → push same a f ≡ some (a2, ok none)
      → push_all same a2 rest ≡ some (answers k)
      → push_all same a (f ∷ (if has_last f.flags then [] else rest)) ≡ some (answers (suc k))
  unfolding push_all
  push_all_more a a2 f rest k e h ih =
      rw (e, h) (answered_more (λ a2. push_all same a2 rest) a2 k ih)

  push_all-fragments_from :
      (fuel : ℕ) (a : Assembler T) (offset : ℕ)
      → (offset < length bytes) ⊎ (offset + length bytes ≡ 0)
      → length bytes ≤ offset + fuel * 86
      → 0 < fuel
      → Ready id tag bytes a offset
      → push_all same a (fragments_from fuel (message id tag bytes) offset)
        ≡ some (answers ((length bytes - 1 - offset) / 86))
  unfolding push_all fragments_from
  push_all-fragments_from zero a offset k enough h r = absurd (omega arith)
  push_all-fragments_from (suc fuel) a offset k enough h r =
      let p : Fragment T = piece id tag bytes offset in
      let next : ℕ → List (Fragment T) = λ o. fragments_from fuel (message id tag bytes) o in
      let rest : List (Fragment T) = next (offset + length (fragment_data p)) in
      let b : Assembler T = held id tag bytes small (begun a p) offset in
      let n : offset + length (fragment_data p) ≡ piece_end bytes offset = omega (
        arith,
        ap length (fragment_data-piece id tag bytes small offset (omega arith)),
        length-slice bytes offset (piece_end bytes offset) (omega arith) (omega arith),
      ) in
      let f : has_last p.flags ≡ (piece_end bytes offset == length bytes) =
        has_last-fragment_flags offset (piece_end bytes offset) (length bytes) in
      let pushed : Bool → Option (Pushed T) =
        λ c. some (if c then (reset b, ok (some (message id tag bytes))) else (b, ok none)) in
      let count : ℕ → ℕ = λ o. (length bytes - 1 - o) / 86 in
      let step : push_all same a (p ∷ (if has_last p.flags then [] else rest))
          ≡ some (answers (count offset)) =
        elim (Bool-cases (piece_end bytes offset == length bytes)) [
          | inl e ↦
              let z : 0 ≡ count offset = ground arith in
              push_all_last a (reset b) p rest (f ∙ e)
                (push-piece a offset (omega arith) r ∙ ap pushed e)
              ∙ ap (λ k. some (answers k)) z
          | inr e ↦
              let before : piece_end bytes offset ≡ offset + 86 = ground arith in
              let inside : piece_end bytes offset < length bytes = ground arith in
              let z : suc (count (piece_end bytes offset)) ≡ count offset = omega arith in
              push_all_more a b p rest (count (piece_end bytes offset)) (f ∙ e)
                (push-piece a offset (omega arith) r ∙ ap pushed e)
                (ap (λ o. push_all same b (next o)) n
                  ∙ push_all-fragments_from fuel b (piece_end bytes offset) (inl inside)
                      (omega arith) (omega arith) (held-Ready a offset (omega arith) r))
              ∙ ap (λ k. some (answers k)) z
        ] in
      ap (λ c. push_all same a (followed (λ f. next (offset + length (fragment_data f))) c))
        (from_message-message id tag bytes small offset k)
      ∙ step

module _ {T : Type 0} (same : T → T → Bool) (same_refl : (t : T) → same t t ≡ true) where
  -- A control message of at most 256 bytes is cut into at most three fragments, and an assembler
  -- that gets them in order, whatever it was doing before, answers each but the last with "more to
  -- come" and the last with the message itself: no copy is out of range and nothing is refused. The
  -- comparison of tags has to be reflexive, and the assembler's buffer to be the array of 256 bytes.
  pub push_all-fragments :
      (id : ℕ) (tag : T) (bytes : List ℕ) {m : ControlMessage T} (a : Assembler T)
      → new_message id tag bytes ≡ ok m
      → length a.buffer ≡ 256
      → push_all same a (fragments_from 3 m 0)
        ≡ some (replicate ((length bytes - 1) / 86) (ok none) ++ ok (some m) ∷ [])
  push_all-fragments id tag bytes a h n =
      let (small, e) = new_message-ok id tag bytes h in
      let start : (0 < length bytes) ⊎ (0 + length bytes ≡ 0) = ground arith in
      let z : (length bytes - 1 - 0) / 86 ≡ (length bytes - 1) / 86 = omega arith in
      rw (sym e) (
        push_all-fragments_from same same_refl id tag bytes small 3 a 0 start (omega arith)
          (omega arith) ((n, refl), inl refl)
        ∙ ap (λ k. some (replicate k (ok none) ++ ok (some (message id tag bytes)) ∷ [])) z)
