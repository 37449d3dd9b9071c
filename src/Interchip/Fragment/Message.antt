-- ===== src/Interchip/Fragment/Message.antt =====
-- The wire forms of whole control messages, in src/interchip/message.rs. The `space` is the length of
-- the output slice.
use hidshift.Interchip.Fragment.Pieces.{
  message, message_data-message, new_message-message, new_message-ok,
}
use hidshift.Interchip.Cell.{byte_at}
use hidshift.Interchip.Fragment.Wire.{read_u32}
use hidshift.Prelude.{
  arith, drop-append_add, err, false, from-to_le32, get_or, get_or-append, if◌then◌else◌,
  length-append, refl, sym, take, take-append_exact, ◌/◌, ◌<◌, ◌>>=◌, ◌∙◌, ◌≡◌, ◌≤◌, Bool, List,
  Result, [], drop, from_le16, length, ltb, not, ok, refuse_if, slice, to_le16, to_le32, ℕ, ◌%◌,
  ◌++◌, ◌+◌, ◌-◌, ◌==◌, ◌>>◌, ◌^◌, ◌||◌, ◌∷◌,
}
use hidshift.Interchip.Fragment.{
  ControlStatus, disconnected, invalid_status, stall, success, timeout, unsupported, MessageError,
  MirrorControlRequest, MirrorControlResponse, invalid_length, message_data, new_message,
  status_code,
}

abbrev pub message_request_header_len : ℕ
message_request_header_len = 14

abbrev pub message_response_header_len : ℕ
message_response_header_len = 7

-- The bytes are written from front to back.
abbrev pub request_bytes : ℕ → List ℕ → List ℕ → List ℕ
request_bytes id packet bytes = to_le32 id ++ (packet ++ (to_le16 (length bytes % 2 ^ 16) ++ bytes))

unfoldable pub encode_request_message : MirrorControlRequest → ℕ → Result MessageError (List ℕ)
encode_request_message m space = do
  refuse_if (ltb space (message_request_header_len + length (message_data m))) invalid_length
  ok (request_bytes m.request_id m.tag (message_data m))

abbrev pub bad_request_message : List ℕ → Bool
bad_request_message bytes =
    ltb (length bytes) message_request_header_len
    || not (
        from_le16 (byte_at bytes 12) (byte_at bytes 13)
        == length bytes - message_request_header_len)

unfoldable pub decode_request_message : List ℕ → Result MessageError MirrorControlRequest
decode_request_message bytes = do
  refuse_if (bad_request_message bytes) invalid_length
  new_message (read_u32 bytes) (slice bytes 4 12) (drop message_request_header_len bytes)

abbrev pub response_bytes : ℕ → ControlStatus → List ℕ → List ℕ
response_bytes id status bytes =
    to_le32 id ++ (status_code status ∷ []) ++ to_le16 (length bytes % 2 ^ 16) ++ bytes

unfoldable pub encode_response_message : MirrorControlResponse → ℕ → Result MessageError (List ℕ)
encode_response_message m space = do
  refuse_if (ltb space (message_response_header_len + length (message_data m))) invalid_length
  ok (response_bytes m.request_id m.tag (message_data m))

abbrev pub bad_response_message : List ℕ → Bool
bad_response_message bytes =
    ltb (length bytes) message_response_header_len
    || not (
        from_le16 (byte_at bytes 5) (byte_at bytes 6) == length bytes - message_response_header_len)

-- `match bytes[4]`
unfoldable pub message_status : ℕ → Result MessageError ControlStatus
message_status code =
    if code == 0
    then ok success
    else if code == 1
    then ok stall
    else if code == 2
    then ok timeout
    else if code == 3
    then ok disconnected
    else if code == 4
    then ok unsupported
    else err invalid_status

unfoldable pub decode_response_message : List ℕ → Result MessageError MirrorControlResponse
decode_response_message bytes = do
  refuse_if (bad_response_message bytes) invalid_length
  status ← message_status (byte_at bytes 4)
  new_message (read_u32 bytes) status (drop message_response_header_len bytes)

module _ (id : ℕ) (bytes : List ℕ) (wide : id < 2 ^ 32) (small : length bytes ≤ 256) where
  decode_request-bytes :
      (packet : List ℕ)
      → length packet ≡ 8
      → decode_request_message (request_bytes id packet bytes) ≡ new_message id packet bytes
  unfolding decode_request_message
  decode_request-bytes packet n =
      let tail : List ℕ = to_le16 (length bytes % 65536) ++ bytes in
      let e0 : length bytes % 65536 ≡ length bytes = omega arith in
      let e1 : take 8 (packet ++ tail) ≡ packet = take-append_exact packet tail 8 n in
      let e2 : drop 10 (packet ++ tail) ≡ bytes = drop-append_add packet tail 8 2 n in
      let b0 : get_or (packet ++ tail) 8 0 ≡ length bytes % 65536 % 256 =
        get_or-append packet tail 0 8 0 n in
      let b1 : get_or (packet ++ tail) 9 0 ≡ length bytes % 65536 / 256 % 256 =
        get_or-append packet tail 1 8 0 n in
      let e3 : length (packet ++ tail) ≡ 10 + length bytes =
        omega (arith, length-append packet tail) in
      let good : bad_request_message (request_bytes id packet bytes) ≡ false =
        ground (arith, e3, b0, b1) in
      rw (good, e1, e2, from-to_le32 id wide)

  message_status-status_code :
      (status : ControlStatus) → message_status (status_code status) ≡ ok status
  unfolding message_status status_code
  message_status-status_code success = refl
  message_status-status_code stall = refl
  message_status-status_code timeout = refl
  message_status-status_code disconnected = refl
  message_status-status_code unsupported = refl

  decode_response-bytes :
      (status : ControlStatus)
      → decode_response_message (response_bytes id status bytes) ≡ new_message id status bytes
  unfolding decode_response_message
  decode_response-bytes status =
      let good : bad_response_message (response_bytes id status bytes) ≡ false = ground arith in
      rw (good, message_status-status_code status, from-to_le32 id wide)

-- A control request, with an id of 32 bits and a setup packet of eight bytes, fits an output of 270
-- bytes, and decoding what is written gives the request back.
pub decode-encode_request_message :
    (id : ℕ) (packet bytes : List ℕ) (space : ℕ) {m : MirrorControlRequest}
    → id < 2 ^ 32
    → length packet ≡ 8
    → new_message id packet bytes ≡ ok m
    → 270 ≤ space
    → (wire : List ℕ) × (encode_request_message m space ≡ ok wire)
      × (decode_request_message wire ≡ ok m)
unfolding encode_request_message
decode-encode_request_message id packet bytes space wide n h room =
    let (small, e) = new_message-ok id packet bytes h in
    let d : message_data (message id packet bytes) ≡ bytes =
      message_data-message id packet bytes small in
    let free : ltb space (14 + length bytes) ≡ false = ground arith in
    let back : decode_request_message (request_bytes id packet bytes)
        ≡ ok (message id packet bytes) =
      decode_request-bytes id bytes wide small packet n
      ∙ new_message-message id packet bytes small in
    rw (sym e, d, free) (_, refl, back)

-- A control response, with an id of 32 bits, fits an output of 263 bytes, and decoding what is
-- written gives the response back, its status included.
decode-encode_response_message :
    (id : ℕ) (status : ControlStatus) (bytes : List ℕ) (space : ℕ) {m : MirrorControlResponse}
    → id < 2 ^ 32
    → new_message id status bytes ≡ ok m
    → 263 ≤ space
    → (wire : List ℕ) × (encode_response_message m space ≡ ok wire)
      × (decode_response_message wire ≡ ok m)
unfolding encode_response_message
decode-encode_response_message id status bytes space wide h room =
    let (small, e) = new_message-ok id status bytes h in
    let d : message_data (message id status bytes) ≡ bytes =
      message_data-message id status bytes small in
    let free : ltb space (7 + length bytes) ≡ false = ground arith in
    let back : decode_response_message (response_bytes id status bytes)
        ≡ ok (message id status bytes) =
      decode_response-bytes id bytes wide small status
      ∙ new_message-message id status bytes small in
    rw (sym e, d, free) (_, refl, back)
