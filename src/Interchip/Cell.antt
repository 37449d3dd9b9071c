-- ===== src/Interchip/Cell.antt =====
-- The cell of src/interchip/cell.rs: 128 bytes on the wire, a header, a payload, a checksum.
use hidshift.Checksum.{crc16_ccitt_false}
pub mod Codec
pub mod Checks
pub mod Canonical
mod Tests
use hidshift.Prelude.{
  ◌>>=◌, ◌>>◌, Bool, Result, [], drop, false, from_le16, from_le32, get_or, ltb, not, ok, refuse_if,
  take, to_le16, to_le32, ◌&&◌, ◌++◌, ◌+◌, ◌-◌, ◌==◌, ◌||◌, ◌∷◌, ℕ, List, replicate,
}

abbrev pub spi_cell_len : ℕ
spi_cell_len = 128

abbrev pub spi_cell_header_len : ℕ
spi_cell_header_len = 16

abbrev pub spi_cell_payload_len : ℕ
spi_cell_payload_len = 110

abbrev pub spi_cell_magic : ℕ
spi_cell_magic = 0x4853

abbrev pub spi_protocol_version : ℕ
spi_protocol_version = 1

pub record SpiCellHeader : Type 0 where
  pub magic : ℕ
  pub version : ℕ
  pub flags : ℕ
  pub session_id : ℕ
  pub tx_sequence : ℕ
  pub cumulative_ack : ℕ
  pub payload_len : ℕ
  pub record_count : ℕ
  pub receive_window : ℕ

unfoldable pub new_header : ℕ → SpiCellHeader
new_header session_id = record {
  magic = spi_cell_magic;
  version = spi_protocol_version;
  flags = 0;
  session_id = session_id;
  tx_sequence = 0;
  cumulative_ack = 0;
  payload_len = 0;
  record_count = 0;
  receive_window = 4;
}

pub record SpiCell : Type 0 where
  pub header : SpiCellHeader
  pub payload : List ℕ

unfoldable pub empty_cell : ℕ → SpiCell
unfolding new_header
empty_cell session_id = record {
  header = new_header session_id;
  payload = replicate spi_cell_payload_len 0;
}

pub data SpiCellError : Type 0 where
  invalid_magic unsupported_version payload_too_long sequence_zero_has_payload
        non_zero_trailing_bytes crc_mismatch :
      SpiCellError

-- The first 126 bytes of an encoded cell. The source writes them into a zeroed array.
unfoldable pub encode_header : SpiCellHeader → List ℕ
encode_header h =
    to_le16 h.magic
    ++ (h.version ∷ h.flags ∷ [])
    ++ to_le32 h.session_id
    ++ to_le16 h.tx_sequence
    ++ to_le16 h.cumulative_ack
    ++ to_le16 h.payload_len
    ++ (h.record_count ∷ h.receive_window ∷ [])

unfoldable pub encode_body : SpiCell → List ℕ
unfolding encode_header
encode_body c =
    encode_header c.header
    ++ (take c.header.payload_len c.payload
        ++ replicate (spi_cell_payload_len - c.header.payload_len) 0)

-- `tx_sequence == 0 && (payload_len != 0 || record_count != 0)`
abbrev pub zero_with_payload : SpiCellHeader → Bool
zero_with_payload h =
    (h.tx_sequence == 0) && (not (h.payload_len == 0) || not (h.record_count == 0))

unfoldable pub encode : SpiCell → Result SpiCellError (List ℕ)
unfolding encode_body
encode c = do
  refuse_if (ltb spi_cell_payload_len c.header.payload_len) payload_too_long
  refuse_if (zero_with_payload c.header) sequence_zero_has_payload
  ok (encode_body c ++ to_le16 (crc16_ccitt_false (encode_body c)))

-- `bytes[i]`; the array has 128 bytes and every index is below that.
abbrev pub byte_at : List ℕ → ℕ → ℕ
byte_at bytes i = get_or bytes i 0

unfoldable pub decode_header : List ℕ → SpiCellHeader
decode_header b = record {
  magic = from_le16 (byte_at b 0) (byte_at b 1);
  version = byte_at b 2;
  flags = byte_at b 3;
  session_id = from_le32 (byte_at b 4) (byte_at b 5) (byte_at b 6) (byte_at b 7);
  tx_sequence = from_le16 (byte_at b 8) (byte_at b 9);
  cumulative_ack = from_le16 (byte_at b 10) (byte_at b 11);
  payload_len = from_le16 (byte_at b 12) (byte_at b 13);
  record_count = byte_at b 14;
  receive_window = byte_at b 15;
}

-- `iter().any(|byte| *byte != 0)`
unfoldable pub any_nonzero : List ℕ → Bool
any_nonzero [] = false
any_nonzero (x ∷ xs) = not (x == 0) || any_nonzero xs

unfoldable pub decode_payload : SpiCellHeader → List ℕ → Result SpiCellError SpiCell
unfolding any_nonzero
decode_payload h bytes = do
  refuse_if (not (h.magic == spi_cell_magic)) invalid_magic
  refuse_if (not (h.version == spi_protocol_version)) unsupported_version
  refuse_if (ltb spi_cell_payload_len h.payload_len) payload_too_long
  refuse_if (zero_with_payload h) sequence_zero_has_payload
  refuse_if
      (any_nonzero (drop (spi_cell_header_len + h.payload_len) (take (spi_cell_len - 2) bytes)))
      non_zero_trailing_bytes
  ok (record {
    header = h;
    payload =
        take h.payload_len (drop spi_cell_header_len bytes)
        ++ replicate (spi_cell_payload_len - h.payload_len) 0;
  })

unfoldable pub decode : List ℕ → Result SpiCellError SpiCell
decode bytes = do
  refuse_if
      (not (
        crc16_ccitt_false (take (spi_cell_len - 2) bytes)
        == from_le16 (byte_at bytes (spi_cell_len - 2)) (byte_at bytes (spi_cell_len - 1))))
      crc_mismatch
  decode_payload (decode_header bytes) bytes

-- The method `payload`.
unfoldable pub payload_of : SpiCell → List ℕ
payload_of c = take c.header.payload_len c.payload
