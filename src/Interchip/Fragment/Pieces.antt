-- ===== src/Interchip/Fragment/Pieces.antt =====
-- The pieces that src/interchip/control_fragment.rs cuts a control message into, and how an
-- assembler's buffer fills up with them.
use hidshift.Interchip.Fragment.Assembler.{Pushed, write_at, Assembler, push}
use hidshift.Interchip.Fragment.{
  invalid_length, cut, control_data_max_len, ControlFragmentError, ControlMessage, Fragment,
  control_fragment_data_max_len, fragment_bounds, fragment_data, fragment_flags, from_message,
  has_last, message_data, new_message, padded,
}
use hidshift.Prelude.{
  sym, passed, false, length-append, length-slice, ltb, take-slice, ◌%◌, refl, ◌∙◌, Bool, List,
  Option, Result, [], ap, arith, drop, err, if◌then◌else◌, length, length-drop, length-take, min,
  none, ok, slice, some, suc, take, take-append_exact, zero, ℕ, ◌++◌, ◌+◌, ◌-◌, ◌<◌, ◌∷◌, ◌≡◌, ◌≤◌,
  ◌⊎◌,
}

-- The fragment, and those that follow it unless it is marked last.
unfoldable pub followed :
    {T : Type 0}
    → (Fragment T → List (Fragment T))
    → Result ControlFragmentError (Fragment T)
    → List (Fragment T)
followed rest (ok f) = f ∷ (if has_last f.flags then [] else rest f)
followed rest (err e) = []

-- `queue_next_control_request_fragment`, once for each fragment: the next offset is the end of the
-- fragment before.
unfoldable pub fragments_from : {T : Type 0} → ℕ → ControlMessage T → ℕ → List (Fragment T)
unfolding from_message fragment_data followed
fragments_from zero m offset = []
fragments_from (suc fuel) m offset =
    followed (λ f. fragments_from fuel m (offset + length (fragment_data f)))
      (from_message m offset)

-- What the pushes answer, in order; `none` is a panic.
abbrev pub Answers : Type 0 → Type 0
Answers T = List (Result ControlFragmentError (Option (ControlMessage T)))

unfoldable pub prepend :
    {T : Type 0}
    → Result ControlFragmentError (Option (ControlMessage T))
    → Option (Answers T)
    → Option (Answers T)
prepend r none = none
prepend r (some rs) = some (r ∷ rs)

unfoldable pub answered :
    {T : Type 0} → (Assembler T → Option (Answers T)) → Option (Pushed T) → Option (Answers T)
unfolding prepend
answered rest none = none
answered rest (some (a, r)) = prepend r (rest a)

unfoldable pub push_all :
    {T : Type 0} → (T → T → Bool) → Assembler T → List (Fragment T) → Option (Answers T)
unfolding push answered
push_all same a [] = some []
push_all same a (f ∷ fs) = answered (λ a2. push_all same a2 fs) (push same a f)

-- The part of a message's bytes in the fragment at `offset`.
abbrev pub piece_end : List ℕ → ℕ → ℕ
piece_end bytes offset = min (length bytes) (offset + control_fragment_data_max_len)

abbrev pub piece : {T : Type 0} → ℕ → T → List ℕ → ℕ → Fragment T
piece id tag bytes offset = record {
  request_id = id;
  tag = tag;
  offset = offset;
  total_length = length bytes;
  flags = fragment_flags offset (piece_end bytes offset) (length bytes);
  length = piece_end bytes offset - offset;
  buffer = padded control_fragment_data_max_len (slice bytes offset (piece_end bytes offset));
}

abbrev pub message : {T : Type 0} → ℕ → T → List ℕ → ControlMessage T
message id tag bytes = record {
  request_id = id;
  tag = tag;
  length = length bytes;
  buffer = padded control_data_max_len bytes;
}

-- A buffer that has the message's first `offset` bytes, and what the next piece makes of it.
abbrev pub Filled : List ℕ → List ℕ → ℕ → Type 0
Filled bytes buffer offset = (length buffer ≡ 256) × (take offset buffer ≡ take offset bytes)

abbrev pub filled : List ℕ → List ℕ → ℕ → List ℕ
filled bytes buffer offset =
    take offset buffer
    ++ slice bytes offset (piece_end bytes offset)
    ++ drop (piece_end bytes offset) buffer

module _ {T : Type 0} (id : ℕ) (tag : T) (bytes : List ℕ) (small : length bytes ≤ 256) where
  pub new_message-message : new_message id tag bytes ≡ ok (message id tag bytes)
  unfolding new_message
  new_message-message = ground arith

  pub message_data-message : message_data (message id tag bytes) ≡ bytes
  unfolding message_data
  message_data-message = take-append_exact bytes _ (length bytes) refl

  cut_lem :
      (offset : ℕ)
      → (offset < length bytes) ⊎ (offset + length bytes ≡ 0)
      → cut (message id tag bytes) bytes offset ≡ ok (piece id tag bytes offset)
  unfolding cut fragment_bounds
  cut_lem offset k =
      let b : fragment_bounds (length bytes) offset ≡ ok tt = ground arith in
      let e1 : offset % 65536 ≡ offset = omega arith in
      let e2 : length bytes % 65536 ≡ length bytes = omega arith in
      let e3 : (piece_end bytes offset - offset) % 256 ≡ piece_end bytes offset - offset =
        omega arith in
      simp (b, e1, e2, e3)

  pub from_message-message :
      (offset : ℕ)
      → (offset < length bytes) ⊎ (offset + length bytes ≡ 0)
      → from_message (message id tag bytes) offset ≡ ok (piece id tag bytes offset)
  unfolding from_message
  from_message-message offset k =
      ap (λ b. cut (message id tag bytes) b offset) message_data-message ∙ cut_lem offset k

  pub fragment_data-piece :
      (offset : ℕ)
      → offset ≤ length bytes
      → fragment_data (piece id tag bytes offset) ≡ slice bytes offset (piece_end bytes offset)
  unfolding fragment_data
  fragment_data-piece offset h =
      take-append_exact (slice bytes offset (piece_end bytes offset)) _ _
        (length-slice bytes offset (piece_end bytes offset) (omega arith) (omega arith))

  pub filled-Filled :
      (buffer : List ℕ) (offset : ℕ)
      → offset ≤ length bytes
      → Filled bytes buffer offset
      → Filled bytes (filled bytes buffer offset) (piece_end bytes offset)
  filled-Filled buffer offset h (n, t) =
      let end : ℕ = piece_end bytes offset in
      let part : List ℕ = slice bytes offset end in
      let a : length (take offset buffer) ≡ offset = omega (arith, length-take offset buffer) in
      let b : length part ≡ end - offset =
        length-slice bytes offset end (omega arith) (omega arith) in
      let d : length (take offset buffer ++ part) ≡ end =
        omega (arith, length-append (take offset buffer) part) in
      (
        omega (
          arith,
          length-append (take offset buffer ++ part) (drop end buffer),
          length-drop end buffer,
        ),
        take-append_exact (take offset buffer ++ part) (drop end buffer) end d
            ∙ ap (λ xs. xs ++ part) t
            ∙ take-slice bytes offset end (omega arith),
      )

  pub write_at-filled :
      (buffer : List ℕ) (offset : ℕ)
      → offset ≤ length bytes
      → length buffer ≡ 256
      → write_at buffer offset (slice bytes offset (piece_end bytes offset))
        ≡ some (filled bytes buffer offset)
  unfolding write_at
  write_at-filled buffer offset h n =
      let end : ℕ = piece_end bytes offset in
      let e : offset + length (slice bytes offset end) ≡ end =
        omega (arith, length-slice bytes offset end (omega arith) (omega arith)) in
      let in_range : ltb (length buffer) end ≡ false = ground arith in rw (e, in_range)

pub new_message-ok :
    {T : Type 0} (id : ℕ) (tag : T) (bytes : List ℕ) {m : ControlMessage T}
    → new_message id tag bytes ≡ ok m
    → (length bytes ≤ 256) × (message id tag bytes ≡ m)
unfolding new_message
new_message-ok id tag bytes {m = m} h =
    let (fits, k) = passed (ltb 256 (length bytes)) invalid_length _ h in
    let small : length bytes ≤ 256 = ground arith in
    let e : ok (message id tag bytes) ≡ ok m = sym (new_message-message id tag bytes small) ∙ h in
    (small, cc)
