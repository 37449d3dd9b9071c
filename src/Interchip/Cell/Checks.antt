-- ===== src/Interchip/Cell/Checks.antt =====
-- What `decode` of src/interchip/cell.rs checks.
use hidshift.Checksum.{crc16_ccitt_false}
use hidshift.Prelude.{
  List, Result, arith, drop, eq_of_ne, false, from_le16, ltb, not, ok, passed, refl, replicate, sym,
  take, ℕ, ◌++◌, ◌+◌, ◌-◌, ◌==◌, ◌≡◌, ◌≤◌,
}
use hidshift.Interchip.Cell.{
  SpiCell, SpiCellError, SpiCellHeader, any_nonzero, byte_at, crc_mismatch, decode, decode_header,
  decode_payload, invalid_magic, non_zero_trailing_bytes, payload_too_long,
  sequence_zero_has_payload, spi_cell_magic, spi_cell_payload_len, spi_protocol_version,
  unsupported_version, zero_with_payload,
}

cell_injective : {a b : SpiCell} → ◌≡◌ {A = Result SpiCellError SpiCell} (ok a) (ok b) → a ≡ b
cell_injective e = cc

-- What the checks of `decode` establish about the cell `c` read from `bytes`.
pub record IsChecked (bytes : List ℕ) (c : SpiCell) : Type 0 where
  pub magic : c.header.magic ≡ spi_cell_magic
  pub version : c.header.version ≡ spi_protocol_version
  pub fits : c.header.payload_len ≤ spi_cell_payload_len
  pub carried : zero_with_payload c.header ≡ false
  pub cleared : any_nonzero (drop (16 + c.header.payload_len) (take 126 bytes)) ≡ false
  pub payload :
      c.payload
      ≡ take c.header.payload_len (drop 16 bytes) ++ replicate (110 - c.header.payload_len) 0

decode_payload-IsChecked :
    (h : SpiCellHeader) (bytes : List ℕ) {c : SpiCell}
    → decode_payload h bytes ≡ ok c
    → IsChecked bytes c × (c.header ≡ h)
unfolding decode_payload
decode_payload-IsChecked h bytes {c} e =
    let (m, e₁) = passed (not (h.magic == spi_cell_magic)) invalid_magic _ e in
    let (v, e₂) = passed (not (h.version == spi_protocol_version)) unsupported_version _ e₁ in
    let (l, e₃) = passed (ltb 110 h.payload_len) payload_too_long _ e₂ in
    let (z, e₄) = passed (zero_with_payload h) sequence_zero_has_payload _ e₃ in
    let (a, e₅) =
      passed (any_nonzero (drop (16 + h.payload_len) (take 126 bytes))) non_zero_trailing_bytes _
        e₄ in
    let same : c ≡ record {
      header = h;
      payload = take h.payload_len (drop 16 bytes) ++ replicate (110 - h.payload_len) 0;
    } =
      sym (cell_injective e₅) in
    rw same (
      record {
        magic = eq_of_ne h.magic spi_cell_magic m;
        version = eq_of_ne h.version spi_protocol_version v;
        fits = ground arith;
        carried = z;
        cleared = a;
        payload = refl;
      },
      refl,
    )

-- What `decode` accepts in 128 bytes is a cell of this protocol whose payload fits, which carries
-- nothing under sequence zero, whose bytes behind the payload are zero, and whose checksum is right.
-- Its header is the one that the first 16 bytes spell.
pub decode-IsChecked :
    (bytes : List ℕ) {c : SpiCell}
    → decode bytes ≡ ok c
    → IsChecked bytes c
      × (c.header ≡ decode_header bytes)
      × (crc16_ccitt_false (take 126 bytes) ≡ from_le16 (byte_at bytes 126) (byte_at bytes 127))
unfolding decode
decode-IsChecked bytes e =
    let (crc, e') =
      passed
        (not
          (crc16_ccitt_false (take 126 bytes) == from_le16 (byte_at bytes 126) (byte_at bytes 127)))
        crc_mismatch _ e in
    let (checked, header) = decode_payload-IsChecked (decode_header bytes) bytes e' in
    (checked, header, eq_of_ne _ _ crc)
