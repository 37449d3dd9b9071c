-- ===== src/Interchip/Fragment/Wire.antt =====
-- The wire forms of the fragments of src/interchip/control_fragment.rs. The `capacity` is the length
-- of the output slice, and the result the part of it that is written.
use hidshift.Routing.{capacity}
use hidshift.Prelude.{
  Bool, List, Result, [], drop, err, from_le16, from_le32, if◌then◌else◌, length, ltb, not, ok,
  refuse_if, slice, to_le16, to_le32, ℕ, ◌%◌, ◌++◌, ◌+◌, ◌-◌, ◌==◌, ◌>>=◌, ◌>>◌, ◌^◌, ◌||◌, ◌∷◌,
}
use hidshift.Interchip.Fragment.{
  Fragment, ControlFragmentError, ControlRequestFragment, ControlResponseFragment, ControlStatus,
  MessageError, control_fragment_data_max_len, disconnected, fragment_data, invalid_length,
  malformed, padded, stall, status_code, success, timeout, unsupported, validate_fragment,
}
use hidshift.Interchip.Cell.{byte_at}

abbrev pub request_header_len : ℕ
request_header_len = 18

abbrev pub response_header_len : ℕ
response_header_len = 10

unfoldable pub encode_request : ControlRequestFragment → ℕ → Result MessageError (List ℕ)
unfolding fragment_data
encode_request f capacity = do
  refuse_if (ltb capacity (request_header_len + length (fragment_data f))) invalid_length
  ok (
      to_le32 f.request_id
      ++ (f.flags ∷ 0 ∷ [])
      ++ to_le16 f.offset
      ++ to_le16 f.total_length
      ++ f.tag
      ++ fragment_data f)

-- How both decoders end: the checks, then the fragment with the bytes after the header.
unfoldable pub unpack :
    {T : Type 0} → ℕ → T → ℕ → ℕ → ℕ → ℕ → List ℕ → Result ControlFragmentError (Fragment T)
unfolding validate_fragment
unpack request_id tag offset total_length flags data_length bytes = do
  validate_fragment flags offset total_length data_length
  ok (record {
    request_id = request_id;
    tag = tag;
    offset = offset;
    total_length = total_length;
    flags = flags;
    length = data_length % 2 ^ 8;
    buffer = padded control_fragment_data_max_len bytes;
  })

-- `read_u32(&bytes[..4])`
abbrev pub read_u32 : List ℕ → ℕ
read_u32 bytes = from_le32 (byte_at bytes 0) (byte_at bytes 1) (byte_at bytes 2) (byte_at bytes 3)

-- `read_u16(&bytes[i..i + 2])`
abbrev pub read_u16 : List ℕ → ℕ → ℕ
read_u16 bytes i = from_le16 (byte_at bytes i) (byte_at bytes (i + 1))

-- The wire is too short, its reserved byte is set, or it has too many bytes of data.
abbrev pub bad_request : List ℕ → Bool
bad_request bytes =
    ltb (length bytes) request_header_len
    || not (byte_at bytes 5 == 0)
    || ltb control_fragment_data_max_len (length bytes - request_header_len)

abbrev pub bad_response : List ℕ → Bool
bad_response bytes =
    ltb (length bytes) response_header_len
    || ltb control_fragment_data_max_len (length bytes - response_header_len)

unfoldable pub decode_request : List ℕ → Result ControlFragmentError ControlRequestFragment
unfolding unpack
decode_request bytes = do
  refuse_if (bad_request bytes) malformed
  unpack (read_u32 bytes) (slice bytes 10 18) (read_u16 bytes 6) (read_u16 bytes 8)
      (byte_at bytes 4) (length bytes - request_header_len) (drop request_header_len bytes)

unfoldable pub encode_response : ControlResponseFragment → ℕ → Result MessageError (List ℕ)
unfolding fragment_data status_code
encode_response f capacity = do
  refuse_if (ltb capacity (response_header_len + length (fragment_data f))) invalid_length
  ok (
      to_le32 f.request_id
      ++ (status_code f.tag ∷ f.flags ∷ [])
      ++ to_le16 f.offset
      ++ to_le16 f.total_length
      ++ fragment_data f)

-- `match bytes[4]`
unfoldable pub status_from : ℕ → Result ControlFragmentError ControlStatus
status_from code =
    if code == 0
    then ok success
    else if code == 1
    then ok stall
    else if code == 2
    then ok timeout
    else if code == 3
    then ok disconnected
    else if code == 4
    then ok unsupported
    else err malformed

unfoldable pub decode_response : List ℕ → Result ControlFragmentError ControlResponseFragment
unfolding unpack status_from
decode_response bytes = do
  refuse_if (bad_response bytes) malformed
  status ← status_from (byte_at bytes 4)
  unpack (read_u32 bytes) status (read_u16 bytes 6) (read_u16 bytes 8) (byte_at bytes 5)
      (length bytes - response_header_len) (drop response_header_len bytes)
