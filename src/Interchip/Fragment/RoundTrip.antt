-- ===== src/Interchip/Fragment/RoundTrip.antt =====
-- Every fragment that src/interchip/control_fragment.rs cuts survives the wire.
use hidshift.Interchip.Fragment.Wire.{
  decode_response, encode_response, decode_request, encode_request,
}
use hidshift.Interchip.Fragment.Pieces.{
  fragment_data-piece, from_message-message, message, message_data-message, new_message-ok, piece,
  piece_end,
}
use hidshift.Interchip.Fragment.Decoding.{decode_response-wired, decode_request-wired, wired}
use hidshift.Interchip.Fragment.{
  ControlResponseFragment, ControlStatus, MirrorControlResponse, from_response,
  ControlRequestFragment, MirrorControlRequest, fragment_data, from_request, message_data,
  ControlMessage, Fragment, cut, fragment_bounds, fragment_flags, from_message, new_message,
  out_of_order, too_large, validate_fragment,
}
use hidshift.Prelude.{
  false, refl, ◌^◌, ap, length-slice, sym, ◌-◌, ◌∙◌, >>=-eq-ok, List, arith, length, ltb, not, ok,
  passed, slice, ℕ, ◌&&◌, ◌+◌, ◌<◌, ◌==◌, ◌||◌, ◌≡◌, ◌≤◌, ◌⊎◌,
}

cut-bounds :
    {T : Type 0} (m : ControlMessage T) (bytes : List ℕ) (offset : ℕ) {f : Fragment T}
    → cut m bytes offset ≡ ok f
    → (offset < length bytes) ⊎ (offset + length bytes ≡ 0)
unfolding cut fragment_bounds
cut-bounds m bytes offset h =
    let (_, b, k) = >>=-eq-ok (fragment_bounds (length bytes) offset) _ h in
    let (e1, b2) = passed (ltb 256 (length bytes) || ltb (length bytes) offset) too_large _ b in
    let (e2, _) = passed (not (length bytes == 0) && (offset == length bytes)) out_of_order _ b2 in
    ground arith

abbrev part : List ℕ → ℕ → List ℕ
part bytes offset = slice bytes offset (piece_end bytes offset)

abbrev marks : List ℕ → ℕ → ℕ
marks bytes offset = fragment_flags offset (piece_end bytes offset) (length bytes)

module _ (bytes : List ℕ) (offset : ℕ) (inside : offset ≤ length bytes) where
  length-part : length (part bytes offset) ≡ piece_end bytes offset - offset
  length-part = length-slice bytes offset (piece_end bytes offset) (omega arith) (omega arith)

  part-small : length (part bytes offset) ≤ 86
  part-small = omega (arith, length-part)

  marks_valid :
      length bytes ≤ 256
      → validate_fragment (marks bytes offset) offset (length bytes) (length (part bytes offset))
        ≡ ok tt
  unfolding validate_fragment fragment_flags
  marks_valid small =
      let n : length (part bytes offset) ≡ piece_end bytes offset - offset = length-part in
      rw n (ground arith)

  piece-wired :
      {T : Type 0} (id : ℕ) (tag : T)
      → piece id tag bytes offset
        ≡ wired id offset (length bytes) (marks bytes offset) (part bytes offset) tag
  piece-wired id tag = rw length-part

module _ {T : Type 0} (id : ℕ) (tag : T) (bytes : List ℕ) (offset : ℕ) where
  cut_inside :
      {f : Fragment T}
      → length bytes ≤ 256
      → from_message (message id tag bytes) offset ≡ ok f
      → (offset < length bytes) ⊎ (offset + length bytes ≡ 0)
  unfolding from_message
  cut_inside small k =
      let d : message_data (message id tag bytes) ≡ bytes =
        message_data-message id tag bytes small in
      cut-bounds (message id tag bytes) bytes offset
        (ap (λ b. cut (message id tag bytes) b offset) (sym d) ∙ k)

  -- A fragment is what `decode` makes of its bytes.
  from_message-wired :
      {m : ControlMessage T} {f : Fragment T}
      → new_message id tag bytes ≡ ok m
      → from_message m offset ≡ ok f
      → (length bytes ≤ 256) × (offset ≤ length bytes) × (f ≡ piece id tag bytes offset)
  from_message-wired {f = f} h k =
      let (small, e) = new_message-ok id tag bytes h in
      let k2 : from_message (message id tag bytes) offset ≡ ok f =
        ap (λ m. from_message m offset) e ∙ k in
      let b : (offset < length bytes) ⊎ (offset + length bytes ≡ 0) = cut_inside small k2 in
      let p : ok f ≡ ok (piece id tag bytes offset) =
        sym k2 ∙ from_message-message id tag bytes small offset b in
      (small, omega arith, cc)

-- Every fragment cut from a control request, with a request id of 32 bits and a setup packet of
-- eight bytes, fits an output of 104 bytes, and decoding what is written gives the fragment back.
pub decode_request-encode_request :
    (id : ℕ) (packet bytes : List ℕ) (offset space : ℕ) {m : MirrorControlRequest}
    {f : ControlRequestFragment}
    → id < 2 ^ 32
    → length packet ≡ 8
    → new_message id packet bytes ≡ ok m
    → from_request m offset ≡ ok f
    → 104 ≤ space
    → (wire : List ℕ) × (encode_request f space ≡ ok wire) × (decode_request wire ≡ ok f)
unfolding from_request encode_request
decode_request-encode_request id packet bytes offset space wide n h k room =
    let (small, inside, e) = from_message-wired id packet bytes offset h k in
    let d : fragment_data (piece id packet bytes offset) ≡ part bytes offset =
      fragment_data-piece id packet bytes small offset inside in
    let fits : length (part bytes offset) ≤ 86 = part-small bytes offset inside in
    let free : ltb space (18 + length (part bytes offset)) ≡ false = ground arith in
    let w : decode_request _ ≡ ok (wired id offset (length bytes) _ (part bytes offset) packet) =
      decode_request-wired id offset (length bytes) (marks bytes offset) (part bytes offset) wide
        (omega arith) (omega arith) fits (marks_valid bytes offset inside small) packet n in
    rw (e, d, free) (_, refl, w ∙ ap ok (sym (piece-wired bytes offset inside id packet)))

-- Every fragment cut from a control response, with a request id of 32 bits, fits an output of 96
-- bytes, and decoding what is written gives the fragment back, its status included.
decode_response-encode_response :
    (id : ℕ) (status : ControlStatus) (bytes : List ℕ) (offset space : ℕ)
    {m : MirrorControlResponse} {f : ControlResponseFragment}
    → id < 2 ^ 32
    → new_message id status bytes ≡ ok m
    → from_response m offset ≡ ok f
    → 96 ≤ space
    → (wire : List ℕ) × (encode_response f space ≡ ok wire) × (decode_response wire ≡ ok f)
unfolding from_response encode_response
decode_response-encode_response id status bytes offset space wide h k room =
    let (small, inside, e) = from_message-wired id status bytes offset h k in
    let d : fragment_data (piece id status bytes offset) ≡ part bytes offset =
      fragment_data-piece id status bytes small offset inside in
    let fits : length (part bytes offset) ≤ 86 = part-small bytes offset inside in
    let free : ltb space (10 + length (part bytes offset)) ≡ false = ground arith in
    let w : decode_response _ ≡ ok (wired id offset (length bytes) _ (part bytes offset) status) =
      decode_response-wired id offset (length bytes) (marks bytes offset) (part bytes offset) wide
        (omega arith) (omega arith) fits (marks_valid bytes offset inside small) status in
    rw (e, d, free) (_, refl, w ∙ ap ok (sym (piece-wired bytes offset inside id status)))
