-- ===== src/Interchip/Fragment/Storing.antt =====
-- One piece of a control message in an assembler of src/interchip/control_fragment.rs that waits for
-- it.
use hidshift.Interchip.Fragment.{new_message, Fragment, fragment_flags, has_first, has_last}
use hidshift.Prelude.{
  refl, sym, take, take_length, Bool, Bool-cases, List, ap, arith, false, if◌then◌else◌, inl, inr,
  length, length-slice, none, ok, slice, some, true, ℕ, ◌%◌, ◌+◌, ◌==◌, ◌^◌, ◌∙◌, ◌≡◌, ◌≤◌, ◌⊎◌,
}
use hidshift.Interchip.Fragment.Pieces.{
  filled-Filled, new_message-message, Filled, filled, fragment_data-piece, message, piece,
  piece_end, write_at-filled,
}
use hidshift.Interchip.Fragment.Assembler.{
  completed, after_copy, landed, write_at, Assembler, begun, expects, reset, store,
}

has_first-fragment_flags :
    (offset end total : ℕ) → has_first (fragment_flags offset end total) ≡ (offset == 0)
unfolding fragment_flags
has_first-fragment_flags offset end total = ground arith

pub has_last-fragment_flags :
    (offset end total : ℕ) → has_last (fragment_flags offset end total) ≡ (end == total)
unfolding fragment_flags
has_last-fragment_flags offset end total = ground arith

begun_first :
    {T : Type 0} (a : Assembler T) (f : Fragment T)
    → has_first f.flags ≡ true
    → begun a f ≡ record a {
      request_id = some f.request_id;
      tag = f.tag;
      total_length = f.total_length;
      next_offset = 0;
    }
unfolding begun
begun_first a f h = rw h

begun_later :
    {T : Type 0} (a : Assembler T) (f : Fragment T) → has_first f.flags ≡ false → begun a f ≡ a
unfolding begun
begun_later a f h = rw h

pub begun_buffer : {T : Type 0} (a : Assembler T) (f : Fragment T) → (begun a f).buffer ≡ a.buffer
unfolding begun
begun_buffer a f = ground arith

module _ {T : Type 0} (id : ℕ) (tag : T) (bytes : List ℕ) where
  -- The assembler waits for the piece at `offset`.
  abbrev pub Waits : Assembler T → ℕ → Type 0
  Waits a offset =
      (a.request_id ≡ some id)
      × (a.tag ≡ tag)
      × (a.total_length ≡ length bytes)
      × (a.next_offset ≡ offset)

  -- At 0 it need not wait.
  abbrev pub Ready : Assembler T → ℕ → Type 0
  Ready a offset = Filled bytes a.buffer offset × ((offset ≡ 0) ⊎ Waits a offset)

  pub begun-piece :
      (a : Assembler T) (offset : ℕ)
      → Ready a offset
      → Waits (begun a (piece id tag bytes offset)) offset
  begun-piece a offset (_, r) =
      let p : Fragment T = piece id tag bytes offset in
      let f : has_first p.flags ≡ (offset == 0) = has_first-fragment_flags offset _ _ in
      elim (Bool-cases (has_first p.flags)) [
        | inl e ↦
            let z : offset ≡ 0 = ground arith in rw (begun_first a p e) (refl, refl, refl, sym z)
        | inr e ↦ elim r [ inl z ↦ absurd (ground arith) | inr w ↦ rw (begun_later a p e) w ]
      ]

module _ {T : Type 0} (same : T → T → Bool) (same_refl : (t : T) → same t t ≡ true) (id : ℕ)
    (tag : T) (bytes : List ℕ) where
  pub expects-piece :
      (a : Assembler T) (offset : ℕ)
      → Waits id tag bytes a offset
      → expects same a (piece id tag bytes offset) ≡ true
  unfolding expects
  expects-piece a offset (e1, e2, e3, e4) = rw (e1, e2, e3, e4, same_refl tag) (ground arith)

module _ {T : Type 0} (id : ℕ) (tag : T) (bytes : List ℕ) (small : length bytes ≤ 256) where
  unfoldable pub held : Assembler T → ℕ → Assembler T
  held a offset = record a {
    buffer = filled bytes a.buffer offset;
    next_offset = piece_end bytes offset % 2 ^ 16;
  }

  completed_piece :
      (a : Assembler T) (offset : ℕ)
      → offset ≤ length bytes
      → Filled bytes a.buffer offset
      → piece_end bytes offset ≡ length bytes
      → new_message id tag (take (piece_end bytes offset) (filled bytes a.buffer offset))
        ≡ ok (message id tag bytes)
  completed_piece a offset h n e =
      let whole : take (piece_end bytes offset) (filled bytes a.buffer offset) ≡ bytes =
        (filled-Filled id tag bytes small a.buffer offset h n).1
        ∙ ap (λ n. take n bytes) e
        ∙ take_length bytes in
      ap (new_message id tag) whole ∙ new_message-message id tag bytes small

  landed-piece :
      (a : Assembler T) (offset : ℕ)
      → offset ≤ length bytes
      → Filled bytes a.buffer offset
      → landed a (piece id tag bytes offset) (piece_end bytes offset) (filled bytes a.buffer offset)
        ≡ (if piece_end bytes offset == length bytes
            then (reset (held a offset), ok (some (message id tag bytes)))
            else (held a offset, ok none))
  unfolding landed held completed
  landed-piece a offset h n =
      rw (has_last-fragment_flags offset (piece_end bytes offset) (length bytes))
        (elim (Bool-cases (piece_end bytes offset == length bytes)) [
          | inl e ↦
              rw e (ap (completed (held a offset)) (completed_piece a offset h n (ground arith)))
          | inr e ↦ rw e
        ])

  pub store-piece :
      (a : Assembler T) (offset : ℕ)
      → offset ≤ length bytes
      → Filled bytes a.buffer offset
      → store a (piece id tag bytes offset)
        ≡ some (
            if piece_end bytes offset == length bytes
            then (reset (held a offset), ok (some (message id tag bytes)))
            else (held a offset, ok none))
  unfolding store after_copy
  store-piece a offset h n =
      let p : Fragment T = piece id tag bytes offset in
      let part : List ℕ = slice bytes offset (piece_end bytes offset) in
      let e : offset + length part ≡ piece_end bytes offset =
        omega
          (arith, length-slice bytes offset (piece_end bytes offset) (omega arith) (omega arith)) in
      ap (λ d. after_copy a p (offset + length d) (write_at a.buffer offset d))
        (fragment_data-piece id tag bytes small offset h)
      ∙ ap (after_copy a p (offset + length part))
          (write_at-filled id tag bytes small a.buffer offset h n.0)
      ∙ ap (λ e. some (landed a p e (filled bytes a.buffer offset))) e
      ∙ ap some (landed-piece a offset h n)
