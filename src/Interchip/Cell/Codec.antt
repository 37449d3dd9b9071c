-- ===== src/Interchip/Cell/Codec.antt =====
-- Encoding and decoding of a cell (src/interchip/cell.rs) undo one another.
use mathlib.Core.List.{append_assoc}
use hidshift.Checksum.{crc16_ccitt_false}
use hidshift.Checksum.Bounds.{crc16_ccitt_false-lt}
use hidshift.Interchip.Cell.{
  crc_mismatch, decode_payload, invalid_magic, non_zero_trailing_bytes, unsupported_version, decode,
  spi_cell_magic, spi_protocol_version, SpiCellError, byte_at, encode, payload_too_long,
  sequence_zero_has_payload, zero_with_payload, SpiCell, SpiCellHeader, any_nonzero, decode_header,
  encode_body, encode_header, spi_cell_payload_len,
}
use hidshift.Prelude.{
  drop-append_exact, get_or-append, take-append_exact, ne_of_eq, not, passes, ◌==◌, Result, ◌∙◌,
  from_le16, ltb, ok, passed, sym, to_le16, List, ap, arith, drop, false, from-to_le16,
  from-to_le32, length, length-append, length-replicate, length-take, refl, replicate, suc, take,
  zero, ℕ, ◌++◌, ◌+◌, ◌-◌, ◌<◌, ◌^◌, ◌≡◌, ◌≤◌,
}

pub any_nonzero-replicate : (n : ℕ) → any_nonzero (replicate n 0) ≡ false
unfolding any_nonzero
any_nonzero-replicate zero = refl
any_nonzero-replicate (suc n) = any_nonzero-replicate n

-- The fields fit the widths of their types, and the payload array has its 110 bytes.
pub record IsTyped (c : SpiCell) : Type 0 where
  pub magic : c.header.magic < 2 ^ 16
  pub session_id : c.header.session_id < 2 ^ 32
  pub tx_sequence : c.header.tx_sequence < 2 ^ 16
  pub cumulative_ack : c.header.cumulative_ack < 2 ^ 16
  pub payload_len : c.header.payload_len < 2 ^ 16
  pub payload : length c.payload ≡ 110

-- The cell with the bytes behind its payload cleared.
pub trimmed : SpiCell → SpiCell
trimmed c = record c {
  payload =
      take c.header.payload_len c.payload
      ++ replicate (spi_cell_payload_len - c.header.payload_len) 0;
}

decode-encode_header :
    (h : SpiCellHeader) (rest : List ℕ)
    → h.magic < 2 ^ 16
    → h.session_id < 2 ^ 32
    → h.tx_sequence < 2 ^ 16
    → h.cumulative_ack < 2 ^ 16
    → h.payload_len < 2 ^ 16
    → decode_header (encode_header h ++ rest) ≡ h
unfolding decode_header encode_header
decode-encode_header h rest m s t a p = ground (
  arith,
  from-to_le16 h.magic m,
  from-to_le32 h.session_id s,
  from-to_le16 h.tx_sequence t,
  from-to_le16 h.cumulative_ack a,
  from-to_le16 h.payload_len p,
)

length-encode_body :
    (c : SpiCell)
    → length c.payload ≡ 110
    → c.header.payload_len ≤ 110
    → length (encode_body c) ≡ 126
unfolding encode_body encode_header
length-encode_body c h k = omega (
  arith,
  length-append (take c.header.payload_len c.payload) (replicate (110 - c.header.payload_len) 0),
  length-take c.header.payload_len c.payload,
  length-replicate (110 - c.header.payload_len) (let z : ℕ = 0 in z),
)

ok_injective : {a b : List ℕ} → ◌≡◌ {A = Result SpiCellError (List ℕ)} (ok a) (ok b) → a ≡ b
ok_injective e = cc

encode-ok :
    (c : SpiCell) {bytes : List ℕ}
    → encode c ≡ ok bytes
    → (c.header.payload_len ≤ 110)
      × (zero_with_payload c.header ≡ false)
      × (bytes ≡ encode_body c ++ to_le16 (crc16_ccitt_false (encode_body c)))
unfolding encode
encode-ok c e =
    let (short, e') = passed (ltb 110 c.header.payload_len) payload_too_long _ e in
    let (carried, e'') = passed (zero_with_payload c.header) sequence_zero_has_payload _ e' in
    (ground arith, carried, ok_injective (sym e''))

-- What `encode` writes after its checks.
sealed : SpiCell → List ℕ
sealed c = encode_body c ++ to_le16 (crc16_ccitt_false (encode_body c))

-- The payload bytes and the zeros behind them.
abbrev padded : SpiCell → List ℕ
padded c =
    take c.header.payload_len c.payload ++ replicate (spi_cell_payload_len - c.header.payload_len) 0

length-encode_header : (h : SpiCellHeader) → length (encode_header h) ≡ 16
unfolding encode_header
length-encode_header h = refl

encode_body_parts :
    (c : SpiCell)
    → encode_body c
      ≡ (encode_header c.header ++ take c.header.payload_len c.payload)
        ++ replicate (spi_cell_payload_len - c.header.payload_len) 0
unfolding encode_body
encode_body_parts c = sym (
    append_assoc (encode_header c.header) (take c.header.payload_len c.payload)
      (replicate (spi_cell_payload_len - c.header.payload_len) 0))

sealed_parts :
    (c : SpiCell)
    → sealed c
      ≡ encode_header c.header
        ++ (take c.header.payload_len c.payload
            ++ (replicate (spi_cell_payload_len - c.header.payload_len) 0
                ++ to_le16 (crc16_ccitt_false (encode_body c))))
unfolding sealed encode_body
sealed_parts c =
    append_assoc (encode_header c.header) (padded c) (to_le16 (crc16_ccitt_false (encode_body c)))
    ∙ ap (◌++◌ (encode_header c.header)) (
        append_assoc (take c.header.payload_len c.payload)
          (replicate (spi_cell_payload_len - c.header.payload_len) 0)
          (to_le16 (crc16_ccitt_false (encode_body c))))

decode_payload-ok :
    (h : SpiCellHeader) (bytes : List ℕ)
    → h.magic ≡ spi_cell_magic
    → h.version ≡ spi_protocol_version
    → h.payload_len ≤ 110
    → zero_with_payload h ≡ false
    → any_nonzero (drop (16 + h.payload_len) (take 126 bytes)) ≡ false
    → decode_payload h bytes
      ≡ ok (record {
        header = h;
        payload = take h.payload_len (drop 16 bytes) ++ replicate (110 - h.payload_len) 0;
      })
unfolding decode_payload
decode_payload-ok h bytes m v l z a =
    passes (not (h.magic == spi_cell_magic)) invalid_magic _ (ground arith)
    ∙ passes (not (h.version == spi_protocol_version)) unsupported_version _ (ground arith)
    ∙ passes (ltb 110 h.payload_len) payload_too_long _ (ground arith)
    ∙ passes (zero_with_payload h) sequence_zero_has_payload _ z
    ∙ passes (any_nonzero (drop (16 + h.payload_len) (take 126 bytes))) non_zero_trailing_bytes _ a

decode_of_crc :
    (bytes : List ℕ)
    → from_le16 (byte_at bytes 126) (byte_at bytes 127) ≡ crc16_ccitt_false (take 126 bytes)
    → decode bytes ≡ decode_payload (decode_header bytes) bytes
unfolding decode
decode_of_crc bytes e =
    passes
      (not
        (crc16_ccitt_false (take 126 bytes) == from_le16 (byte_at bytes 126) (byte_at bytes 127)))
      crc_mismatch (decode_payload (decode_header bytes) bytes)
      (ne_of_eq (crc16_ccitt_false (take 126 bytes))
        (from_le16 (byte_at bytes 126) (byte_at bytes 127)) (sym e))

-- What `decode` finds there.
module _ (c : SpiCell) (t : IsTyped c) (short : c.header.payload_len ≤ 110) where
  take-sealed : take 126 (sealed c) ≡ encode_body c
  unfolding sealed
  take-sealed = take-append_exact (encode_body c) _ 126 (length-encode_body c t.payload short)

  crc-sealed :
      from_le16 (byte_at (sealed c) 126) (byte_at (sealed c) 127)
      ≡ crc16_ccitt_false (encode_body c)
  unfolding sealed
  crc-sealed =
      let whole = length-encode_body c t.payload short in
      let last = to_le16 (crc16_ccitt_false (encode_body c)) in
      rw
        (
          get_or-append (encode_body c) last 0 126 0 whole,
          get_or-append (encode_body c) last 1 126 0 whole,
        )
        (from-to_le16 (crc16_ccitt_false (encode_body c)) (crc16_ccitt_false-lt (encode_body c)))

  header-sealed : decode_header (sealed c) ≡ c.header
  unfolding sealed encode_body
  header-sealed =
      decode-encode_header c.header (padded c ++ to_le16 (crc16_ccitt_false (encode_body c)))
        t.magic t.session_id t.tx_sequence t.cumulative_ack t.payload_len

  length-carried : length (take c.header.payload_len c.payload) ≡ c.header.payload_len
  length-carried = omega (arith, length-take c.header.payload_len c.payload, t.payload)

  trailing-sealed : any_nonzero (drop (16 + c.header.payload_len) (encode_body c)) ≡ false
  trailing-sealed = rw trailing_zeros (any_nonzero-replicate (110 - c.header.payload_len))
    where
      trailing_zeros :
          drop (16 + c.header.payload_len) (encode_body c)
          ≡ replicate (110 - c.header.payload_len) 0
      trailing_zeros =
          ap (drop (16 + c.header.payload_len)) (encode_body_parts c)
          ∙ drop-append_exact (encode_header c.header ++ take c.header.payload_len c.payload) _
              (16 + c.header.payload_len)
              (omega (
                arith,
                length-append (encode_header c.header) (take c.header.payload_len c.payload),
                length-encode_header c.header,
                length-carried,
              ))

  payload-sealed :
      take c.header.payload_len (drop 16 (sealed c)) ≡ take c.header.payload_len c.payload
  payload-sealed =
      ap (λ b. take c.header.payload_len (drop 16 b)) (sealed_parts c)
      ∙ ap (take c.header.payload_len)
          (drop-append_exact (encode_header c.header) _ 16 (length-encode_header c.header))
      ∙ take-append_exact (take c.header.payload_len c.payload) _ c.header.payload_len
          length-carried

  length-sealed : length (sealed c) ≡ 128
  unfolding sealed
  length-sealed = omega (
    arith,
    length-append (encode_body c) (to_le16 (crc16_ccitt_false (encode_body c))),
    length-encode_body c t.payload short,
  )

  decode-sealed :
      c.header.magic ≡ spi_cell_magic
      → c.header.version ≡ spi_protocol_version
      → zero_with_payload c.header ≡ false
      → decode (sealed c) ≡ ok (trimmed c)
  unfolding trimmed
  decode-sealed m v z =
      decode_of_crc (sealed c) (crc-sealed ∙ ap crc16_ccitt_false (sym take-sealed))
      ∙ ap (λ h. decode_payload h (sealed c)) header-sealed
      ∙ decode_payload-ok c.header (sealed c) m v short z
          (ap (λ b. any_nonzero (drop (16 + c.header.payload_len) b)) take-sealed ∙ trailing-sealed)
      ∙ ap
          (λ p.
            ok (record {
              header = c.header;
              payload = p ++ replicate (110 - c.header.payload_len) 0;
            }))
          payload-sealed

-- A cell of this protocol version that `encode` accepts takes 128 bytes, and `decode` reads from them
-- the cell again, with the bytes of its payload array behind `payload_len` cleared.
pub decode-encode :
    (c : SpiCell) {bytes : List ℕ}
    → IsTyped c
    → c.header.magic ≡ spi_cell_magic
    → c.header.version ≡ spi_protocol_version
    → encode c ≡ ok bytes
    → (length bytes ≡ 128) × (decode bytes ≡ ok (trimmed c))
unfolding sealed
decode-encode c t m v e =
    let (short, z, same) = encode-ok c e in
    rw same (length-sealed c t short, decode-sealed c t short m v z)
