-- ===== src/Interchip/Fragment/Tests.antt =====
-- Control messages as in the unit tests of src/interchip/control_fragment.rs.
use hidshift.Interchip.Fragment.Message.{
  decode-encode_request_message, decode_request_message, encode_request_message,
}
use hidshift.Interchip.Fragment.Reassembly.{push_all-fragments}
use hidshift.Interchip.Fragment.RoundTrip.{decode_request-encode_request}
use hidshift.Interchip.Fragment.Wire.{
  decode_response, status_from, unpack, decode_request, encode_request,
}
use hidshift.Interchip.Fragment.Safety.{Kept, push_request-Kept}
use hidshift.Interchip.Fragment.Pieces.{fragments_from, message, piece, push_all}
use hidshift.Interchip.Fragment.{
  from_request, from_response, validate_fragment, MirrorControlRequest, cut, fragment_bounds,
  fragment_flags, from_message, message_data, new_message, out_of_order, success,
}
use hidshift.Prelude.{
  List, [], arith, err, none, ok, refl, replicate, some, to_le16, to_le32, true, ℕ, ◌++◌, ◌∷◌, ◌≡◌,
}
use hidshift.Interchip.Fragment.Assembler.{
  ControlRequestAssembler, begun, expects, push, push_request, same_packet, reset,
}

abbrev packet : List ℕ
packet = 1 ∷ 2 ∷ 3 ∷ 4 ∷ 5 ∷ 6 ∷ 7 ∷ 8 ∷ []

-- Two hundred bytes: three fragments.
abbrev payload : List ℕ
payload = replicate 200 0x5a

abbrev request : MirrorControlRequest
request = message 7 packet payload

abbrev idle : ControlRequestAssembler
idle = record {
  request_id = none;
  tag = packet;
  total_length = 0;
  next_offset = 0;
  buffer = replicate 256 0;
}

same_packet_refl : (xs : List ℕ) → same_packet xs xs ≡ true
unfolding same_packet
same_packet_refl [] = refl
same_packet_refl (x ∷ xs) = rw (same_packet_refl xs) (ground arith)

request_ok : new_message 7 packet payload ≡ ok request
unfolding new_message
request_ok = refl

third : from_message request 172 ≡ ok (piece 7 packet payload 172)
unfolding from_message cut fragment_bounds fragment_flags message_data
third = refl

third_request : from_request request 172 ≡ ok (piece 7 packet payload 172)
unfolding from_request from_message cut fragment_bounds fragment_flags message_data
third_request = refl

-- The last fragment without the one before is out of order, and the assembler starts again.
out_of_order_discards :
    push_request (begun idle (piece 7 packet payload 0)) (piece 7 packet payload 172)
    ≡ some (reset (begun idle (piece 7 packet payload 0)), err out_of_order)
unfolding push_request push same_packet expects begun reset fragment_flags
out_of_order_discards = refl

push_all-fragments_example :
    push_all same_packet idle (fragments_from 3 request 0)
    ≡ some (ok none ∷ ok none ∷ ok (some request) ∷ [])
push_all-fragments_example =
    push_all-fragments same_packet same_packet_refl 7 packet payload idle request_ok refl

abbrev wire_of : List ℕ
wire_of = to_le32 7 ++ (2 ∷ 0 ∷ []) ++ to_le16 172 ++ to_le16 200 ++ packet ++ replicate 28 0x5a

decode_request-encode_request_example :
    (wire : List ℕ) × (encode_request (piece 7 packet payload 172) 104 ≡ ok wire)
    × (decode_request wire ≡ ok (piece 7 packet payload 172))
decode_request-encode_request_example =
    decode_request-encode_request 7 packet payload 172 104 (omega arith) refl request_ok
      third_request (omega arith)

wire_decodes : decode_request wire_of ≡ ok (piece 7 packet payload 172)
unfolding decode_request unpack validate_fragment fragment_flags
wire_decodes = refl

push_request-Kept_example : Kept (push_request idle (piece 7 packet payload 172))
push_request-Kept_example = push_request-Kept idle wire_of refl wire_decodes

response_ok : new_message 7 success payload ≡ ok (message 7 success payload)
unfolding new_message
response_ok = refl

third_response : from_response (message 7 success payload) 172 ≡ ok (piece 7 success payload 172)
unfolding from_response from_message cut fragment_bounds fragment_flags message_data
third_response = refl

abbrev response_wire : List ℕ
response_wire = to_le32 7 ++ (0 ∷ 2 ∷ []) ++ to_le16 172 ++ to_le16 200 ++ replicate 28 0x5a

response_decodes : decode_response response_wire ≡ ok (piece 7 success payload 172)
unfolding decode_response unpack validate_fragment fragment_flags status_from
response_decodes = refl

decode-encode_request_message_example :
    (wire : List ℕ) × (encode_request_message request 270 ≡ ok wire)
    × (decode_request_message wire ≡ ok request)
decode-encode_request_message_example =
    decode-encode_request_message 7 packet payload 270 (omega arith) refl request_ok (omega arith)
