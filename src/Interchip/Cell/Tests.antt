-- ===== src/Interchip/Cell/Tests.antt =====
-- The cell of the round-trip test in src/interchip/cell.rs.
use hidshift.Interchip.Cell.Canonical.{all_bytes, encode-decode}
use hidshift.Checksum.{crc16_ccitt_false}
use hidshift.Interchip.Cell.Codec.{decode-encode, trimmed}
use hidshift.Prelude.{
  true, List, arith, err, length, ok, refl, replicate, set, to_le16, ℕ, ◌++◌, ◌∷◌, ◌≡◌,
}
use hidshift.Interchip.Cell.{SpiCell, SpiCellHeader, crc_mismatch, decode, encode, encode_body}

abbrev header : SpiCellHeader
header = record {
  magic = 0x4853;
  version = 1;
  flags = 0;
  session_id = 0x1234_5678;
  tx_sequence = 7;
  cumulative_ack = 5;
  payload_len = 3;
  record_count = 1;
  receive_window = 4;
}

abbrev cell : SpiCell
cell = record { header = header; payload = 1 ∷ 2 ∷ 3 ∷ replicate 107 0 }

abbrev wire : List ℕ
wire = encode_body cell ++ to_le16 (crc16_ccitt_false (encode_body cell))

encodes : encode cell ≡ ok wire
unfolding encode
encodes = refl

decode-encode_example : (length wire ≡ 128) × (decode wire ≡ ok (trimmed cell))
decode-encode_example = decode-encode cell (omega arith) refl refl encodes

-- One flipped bit is caught by the checksum.
flipped : decode (set wire 40 0x80) ≡ err crc_mismatch
unfolding decode encode_body crc16_ccitt_false
flipped = refl

wire_bytes : all_bytes wire ≡ true
unfolding all_bytes encode_body crc16_ccitt_false
wire_bytes = refl

encode-decode_example : encode (trimmed cell) ≡ ok wire
encode-decode_example =
    encode-decode wire (decode-encode cell (omega arith) refl refl encodes).0 wire_bytes
      (decode-encode cell (omega arith) refl refl encodes).1
