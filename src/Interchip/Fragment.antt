-- ===== src/Interchip/Fragment.antt =====
-- The control messages of src/interchip/message.rs and the fragments that
-- src/interchip/control_fragment.rs cuts them into. Requests and responses differ in one field, the
-- setup packet or the status, which is the type `T` here; both are named at the end.
use hidshift.Prelude.{
  Bool, List, length, Result, if◌then◌else◌, ltb, min, not, ok, refuse_if, replicate, slice, take,
  ℕ, ◌%◌, ◌&&◌, ◌*◌, ◌++◌, ◌+◌, ◌-◌, ◌/◌, ◌==◌, ◌>>=◌, ◌>>◌, ◌^◌, ◌||◌,
}
pub mod Assembler
pub mod Pieces
pub mod Storing
pub mod Reassembly
pub mod Wire
pub mod Decoding
pub mod RoundTrip
pub mod Safety
pub mod Message
mod Tests

abbrev pub control_data_max_len : ℕ
control_data_max_len = 256

abbrev pub control_fragment_data_max_len : ℕ
control_fragment_data_max_len = 86

pub data MessageError : Type 0 where
  invalid_length invalid_role invalid_flags invalid_status : MessageError

pub data ControlFragmentError : Type 0 where
  malformed out_of_order too_large : ControlFragmentError

pub data ControlStatus : Type 0 where
  success stall timeout disconnected unsupported : ControlStatus

-- `status as u8`
unfoldable pub status_code : ControlStatus → ℕ
status_code success = 0
status_code stall = 1
status_code timeout = 2
status_code disconnected = 3
status_code unsupported = 4

-- `length` bytes of the array `buffer` (the field `data`) are in use.
pub record ControlMessage (T : Type 0) : Type 0 where
  pub request_id : ℕ
  pub tag : T
  pub length : ℕ
  pub buffer : List ℕ

pub record Fragment (T : Type 0) : Type 0 where
  pub request_id : ℕ
  pub tag : T
  pub offset : ℕ
  pub total_length : ℕ
  pub flags : ℕ
  pub length : ℕ
  pub buffer : List ℕ

-- The source copies into a zeroed array of `size` bytes.
abbrev pub padded : ℕ → List ℕ → List ℕ
padded size bytes = bytes ++ replicate (size - length bytes) 0

module _ {T : Type 0} where
  unfoldable pub new_message : ℕ → T → List ℕ → Result MessageError (ControlMessage T)
  new_message request_id tag bytes = do
    refuse_if (ltb control_data_max_len (length bytes)) invalid_length
    ok (record {
      request_id = request_id;
      tag = tag;
      length = length bytes % 2 ^ 16;
      buffer = padded control_data_max_len bytes;
    })

  unfoldable pub message_data : ControlMessage T → List ℕ
  message_data m = take m.length m.buffer

  unfoldable pub fragment_data : Fragment T → List ℕ
  fragment_data f = take f.length f.buffer

unfoldable pub fragment_bounds : ℕ → ℕ → Result ControlFragmentError (Unit {0})
fragment_bounds total_length offset = do
  refuse_if (ltb control_data_max_len total_length || ltb total_length offset) too_large
  refuse_if (not (total_length == 0) && (offset == total_length)) out_of_order
  ok tt

-- `u8::from(b)`
abbrev pub from_bool : Bool → ℕ
from_bool b = if b then 1 else 0

-- Bit 0 is `CONTROL_FRAGMENT_FIRST` and bit 1 `CONTROL_FRAGMENT_LAST`; they do not overlap.
unfoldable pub fragment_flags : ℕ → ℕ → ℕ → ℕ
fragment_flags offset end total_length =
    from_bool (offset == 0) * 1 + from_bool (end == total_length) * 2

-- `flags & CONTROL_FRAGMENT_FIRST != 0`
abbrev pub has_first : ℕ → Bool
has_first flags = flags % 2 == 1

-- `flags & CONTROL_FRAGMENT_LAST != 0`
abbrev pub has_last : ℕ → Bool
has_last flags = flags / 2 % 2 == 1

-- `flags & !(FIRST | LAST) != 0`, of a byte
abbrev pub has_other : ℕ → Bool
has_other flags = not (flags / 4 == 0)

-- `a != b` of Booleans
abbrev pub differ : Bool → Bool → Bool
differ a b = if a then not b else b

abbrev pub invalid_fragment : ℕ → ℕ → ℕ → ℕ → Bool
invalid_fragment flags offset total_length data_length =
    has_other flags
    || ltb control_data_max_len total_length
    || ltb total_length (offset + data_length)
    || differ (has_first flags) (offset == 0)
    || differ (has_last flags) (offset + data_length == total_length)

unfoldable pub validate_fragment : ℕ → ℕ → ℕ → ℕ → Result ControlFragmentError (Unit {0})
validate_fragment flags offset total_length data_length = do
  refuse_if (invalid_fragment flags offset total_length data_length) malformed
  ok tt

module _ {T : Type 0} where
  -- `from_request` and `from_response`; `bytes` is what `data()` gives.
  unfoldable pub cut : ControlMessage T → List ℕ → ℕ → Result ControlFragmentError (Fragment T)
  unfolding fragment_bounds fragment_flags
  cut m bytes offset = do
    fragment_bounds (length bytes) offset
    let end : ℕ = min (length bytes) (offset + control_fragment_data_max_len)
    ok (record {
      request_id = m.request_id;
      tag = m.tag;
      offset = offset % 2 ^ 16;
      total_length = length bytes % 2 ^ 16;
      flags = fragment_flags offset end (length bytes);
      length = (end - offset) % 2 ^ 8;
      buffer = padded control_fragment_data_max_len (slice bytes offset end);
    })

  unfoldable pub from_message : ControlMessage T → ℕ → Result ControlFragmentError (Fragment T)
  unfolding cut message_data
  from_message m offset = cut m (message_data m) offset

abbrev pub MirrorControlRequest : Type 0
MirrorControlRequest = ControlMessage (List ℕ)

abbrev pub MirrorControlResponse : Type 0
MirrorControlResponse = ControlMessage ControlStatus

abbrev pub ControlRequestFragment : Type 0
ControlRequestFragment = Fragment (List ℕ)

abbrev pub ControlResponseFragment : Type 0
ControlResponseFragment = Fragment ControlStatus

unfoldable pub from_request :
    MirrorControlRequest → ℕ → Result ControlFragmentError ControlRequestFragment
unfolding from_message
from_request = from_message

unfoldable pub from_response :
    MirrorControlResponse → ℕ → Result ControlFragmentError ControlResponseFragment
unfolding from_message
from_response = from_message
