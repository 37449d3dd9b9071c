-- ===== src/Interchip/Fragment/Safety.antt =====
-- The assemblers of src/interchip/control_fragment.rs copy no byte out of range.
use hidshift.Interchip.Cell.{byte_at}
use hidshift.Interchip.Fragment.{
  invalid_fragment, ControlRequestFragment, ControlResponseFragment, malformed, ControlMessage,
  Fragment, MessageError, fragment_data, has_last, new_message, validate_fragment,
}
use hidshift.Interchip.Fragment.Wire.{
  read_u16, read_u32, request_header_len, response_header_len, bad_request, bad_response,
  decode_request, decode_response, status_from, unpack,
}
use hidshift.Prelude.{
  slice, ◌-◌, >>=-eq-ok, passed, ◌%◌, Bool, Bool-cases, List, Option, Result, arith, drop, err,
  false, inl, inr, length, length-append, length-drop, length-take, ltb, none, ok, refl, some, take,
  ℕ, ◌++◌, ◌+◌, ◌∙◌, ◌≡◌, ◌≤◌,
}
use hidshift.Interchip.Fragment.Assembler.{
  ControlRequestAssembler, ControlResponseAssembler, push_request, push_response, same_packet,
  same_status, Pushed, after_copy, completed, landed, push, write_at, Assembler, begun, expects,
  reset, store,
}

-- The call did not panic, and the buffer is still the array of 256 bytes.
unfoldable pub Kept : {T : Type 0} → Option (Pushed T) → Type 0
Kept none = ⊥
Kept (some (a, r)) = length a.buffer ≡ 256

length-write_at :
    (buffer : List ℕ) (offset : ℕ) (bytes : List ℕ)
    → offset + length bytes ≤ length buffer
    → (b : List ℕ) × (write_at buffer offset bytes ≡ some b) × (length b ≡ length buffer)
unfolding write_at
length-write_at buffer offset bytes h =
    let e : ltb (length buffer) (offset + length bytes) ≡ false = ground arith in
    (
      take offset buffer ++ bytes ++ drop (offset + length bytes) buffer,
      rw e refl,
      omega (
        arith,
        length-append (take offset buffer ++ bytes) (drop (offset + length bytes) buffer),
        length-append (take offset buffer) bytes,
        length-take offset buffer,
        length-drop (offset + length bytes) buffer,
      ),
    )

module _ {T : Type 0} where
  completed-Kept :
      (a : Assembler T) (m : Result MessageError (ControlMessage T))
      → length a.buffer ≡ 256
      → length (completed a m).0.buffer ≡ 256
  unfolding completed reset
  completed-Kept a (ok m) h = h
  completed-Kept a (err e) h = h

  landed-Kept :
      (a : Assembler T) (f : Fragment T) (end : ℕ) (buffer : List ℕ)
      → length buffer ≡ 256
      → length (landed a f end buffer).0.buffer ≡ 256
  unfolding landed
  landed-Kept a f end buffer h = elim (Bool-cases (has_last f.flags)) [
    | inl e ↦ rw e (completed-Kept _ (new_message f.request_id f.tag (take end buffer)) h)
    | inr e ↦ rw e h
  ]

  store-Kept :
      (a : Assembler T) (f : Fragment T)
      → length a.buffer ≡ 256
      → f.offset + length (fragment_data f) ≤ 256
      → Kept (store a f)
  unfolding store after_copy Kept
  store-Kept a f h k =
      let (b, e, n) = length-write_at a.buffer f.offset (fragment_data f) (omega arith) in
      rw e (landed-Kept a f _ b (n ∙ h))

  begun-Kept : (a : Assembler T) (f : Fragment T) → length (begun a f).buffer ≡ length a.buffer
  unfolding begun
  begun-Kept a f = ground arith

  push-Kept_in :
      (same : T → T → Bool) (a : Assembler T) (f : Fragment T)
      → length a.buffer ≡ 256
      → f.offset + length (fragment_data f) ≤ 256
      → Kept (push same a f)
  unfolding push reset Kept
  push-Kept_in same a f h k =
      let n : length (begun a f).buffer ≡ 256 = begun-Kept a f ∙ h in
      elim (Bool-cases (expects same (begun a f) f)) [
        | inl e ↦ rw e (store-Kept (begun a f) f n k)
        | inr e ↦ rw e n
      ]

  fragment_data-le : (f : Fragment T) → length (fragment_data f) ≤ f.length
  unfolding fragment_data
  fragment_data-le f = omega (arith, length-take f.length f.buffer)

  unpack-inside :
      (id : ℕ) (tag : T) (offset total flags count : ℕ) (bytes : List ℕ) {f : Fragment T}
      → unpack id tag offset total flags count bytes ≡ ok f
      → f.offset + length (fragment_data f) ≤ 256
  unfolding unpack validate_fragment
  unpack-inside id tag offset total flags count bytes {f = f} h =
      let (_, v, k) = >>=-eq-ok (validate_fragment flags offset total count) _ h in
      let (valid, _) = passed (invalid_fragment flags offset total count) malformed (ok tt) v in
      let inside : offset + count ≤ 256 = ground arith in
      let c1 : f.offset ≡ offset = cc in
      let c2 : f.length ≡ count % 256 = cc in omega (arith, fragment_data-le f)

-- Pushing a request fragment that `decode` accepted never copies out of range, whatever the bytes
-- were and whatever state the assembler is in, and leaves its buffer of 256 bytes at that length.
pub push_request-Kept :
    (a : ControlRequestAssembler) (wire : List ℕ) {f : ControlRequestFragment}
    → length a.buffer ≡ 256
    → decode_request wire ≡ ok f
    → Kept (push_request a f)
unfolding push_request decode_request
push_request-Kept a wire {f = f} n h =
    let (_, k) = passed (bad_request wire) malformed _ h in
    push-Kept_in same_packet a f n (
      unpack-inside (read_u32 wire) (slice wire 10 18) (read_u16 wire 6) (read_u16 wire 8)
        (byte_at wire 4) (length wire - request_header_len) (drop request_header_len wire) k)

-- The same of response fragments.
push_response-Kept :
    (a : ControlResponseAssembler) (wire : List ℕ) {f : ControlResponseFragment}
    → length a.buffer ≡ 256
    → decode_response wire ≡ ok f
    → Kept (push_response a f)
unfolding push_response decode_response
push_response-Kept a wire {f = f} n h =
    let (_, k) = passed (bad_response wire) malformed _ h in
    let (status, _, l) = >>=-eq-ok (status_from (byte_at wire 4)) _ k in
    push-Kept_in same_status a f n (
      unpack-inside (read_u32 wire) status (read_u16 wire 6) (read_u16 wire 8) (byte_at wire 5)
        (length wire - response_header_len) (drop response_header_len wire) l)
