-- ===== src/Interchip/Cell/Canonical.antt =====
-- What `decode` of src/interchip/cell.rs accepts is what `encode` writes, byte for byte.
use hidshift.Checksum.{crc16_ccitt_false}
use hidshift.Interchip.Cell.Checks.{IsChecked, decode-IsChecked}
use hidshift.Interchip.Cell.{
  spi_cell_payload_len, SpiCell, any_nonzero, byte_at, decode, decode_header, encode, encode_body,
  encode_header, payload_too_long, sequence_zero_has_payload, zero_with_payload,
}
use hidshift.Prelude.{
  Bool, List, [], ap, arith, drop, drop-drop, drop-take, false, from_le16, from_le32, length,
  length-drop, length-take, ltb, ok, passes, refl, replicate, suc, sym, take, take-add,
  take-append-drop, take-append_exact, take_length, to_le16, true, zero, ℕ, ◌%◌, ◌&&◌, ◌*◌, ◌++◌,
  ◌+◌, ◌-◌, ◌/◌, ◌<◌, ◌∙◌, ◌∷◌, ◌≡◌, ◌≤◌,
}

-- The list holds bytes.
unfoldable pub all_bytes : List ℕ → Bool
all_bytes [] = true
all_bytes (x ∷ xs) = ltb x 256 && all_bytes xs

byte_at-lt : (bytes : List ℕ) (i : ℕ) → all_bytes bytes ≡ true → byte_at bytes i < 256
unfolding all_bytes
byte_at-lt [] i h = omega arith
byte_at-lt (x ∷ xs) zero h = ground arith
byte_at-lt (x ∷ xs) (suc i) h =
    let rest : all_bytes xs ≡ true = ground arith in byte_at-lt xs i rest

to-from_le16 : (a b : ℕ) → a < 256 → b < 256 → to_le16 (from_le16 a b) ≡ a ∷ b ∷ []
to-from_le16 a b h k =
    let first : (a + b * 256) % 256 ≡ a = omega (arith, h, k) in
    let second : (a + b * 256) / 256 % 256 ≡ b = omega (arith, h, k) in rw (first, second) refl

-- So many bytes from an index on.
listed : ℕ → ℕ → List ℕ → List ℕ
listed i zero bytes = []
listed i (suc n) bytes = byte_at bytes i ∷ listed (suc i) n bytes

listed-later : (i n x : ℕ) (xs : List ℕ) → listed (suc i) n (x ∷ xs) ≡ listed i n xs
unfolding listed
listed-later i zero x xs = refl
listed-later i (suc n) x xs = ap (◌∷◌ (byte_at xs i)) (listed-later (suc i) n x xs)

take-listed : (n : ℕ) (bytes : List ℕ) → n ≤ length bytes → take n bytes ≡ listed 0 n bytes
unfolding listed
take-listed zero bytes h = refl
take-listed (suc n) [] h = absurd (omega arith)
take-listed (suc n) (x ∷ xs) h =
    ap (◌∷◌ x) (take-listed n xs (omega arith) ∙ sym (listed-later 0 n x xs))

slice-listed :
    (i n : ℕ) (bytes : List ℕ) → i + n ≤ length bytes → take n (drop i bytes) ≡ listed i n bytes
unfolding listed
slice-listed zero n bytes h = take-listed n bytes (omega (arith, h))
slice-listed (suc i) zero [] h = refl
slice-listed (suc i) (suc n) [] h = absurd (omega (arith, h))
slice-listed (suc i) n (x ∷ xs) h =
    slice-listed i n xs (omega (arith, h)) ∙ sym (listed-later i n x xs)

le16-parts :
    (a b : ℕ) → a < 256 → b < 256 → (from_le16 a b % 256 ≡ a) × (from_le16 a b / 256 % 256 ≡ b)
le16-parts a b h k = (omega (arith, h, k), omega (arith, h, k))

le32-parts :
    (a b c d : ℕ)
    → a < 256
    → b < 256
    → c < 256
    → d < 256
    → (from_le32 a b c d % 256 ≡ a)
      × (from_le32 a b c d / 256 % 256 ≡ b)
      × (from_le32 a b c d / 65536 % 256 ≡ c)
      × (from_le32 a b c d / 16777216 % 256 ≡ d)
le32-parts a b c d h1 h2 h3 h4 = (
  omega (arith, h1, h2, h3, h4),
  omega (arith, h1, h2, h3, h4),
  omega (arith, h1, h2, h3, h4),
  omega (arith, h1, h2, h3, h4),
)

header-listed :
    (bytes : List ℕ)
    → all_bytes bytes ≡ true
    → encode_header (decode_header bytes) ≡ listed 0 16 bytes
unfolding encode_header decode_header listed
header-listed bytes h =
    let at = λ (i : ℕ). byte_at-lt bytes i h in
    let (a1, a2) = le16-parts (byte_at bytes 0) (byte_at bytes 1) (at 0) (at 1) in
    let (b1, b2, b3, b4) =
      le32-parts (byte_at bytes 4) (byte_at bytes 5) (byte_at bytes 6) (byte_at bytes 7) (at 4)
        (at 5) (at 6) (at 7) in
    let (c1, c2) = le16-parts (byte_at bytes 8) (byte_at bytes 9) (at 8) (at 9) in
    let (d1, d2) = le16-parts (byte_at bytes 10) (byte_at bytes 11) (at 10) (at 11) in
    let (e1, e2) = le16-parts (byte_at bytes 12) (byte_at bytes 13) (at 12) (at 13) in
    rw (a1, a2, b1, b2, b3, b4, c1, c2, d1, d2, e1, e2) refl

zeros : (xs : List ℕ) → any_nonzero xs ≡ false → xs ≡ replicate (length xs) 0
unfolding any_nonzero
zeros [] h = refl
zeros (x ∷ xs) h =
    let first : x ≡ 0 = ground arith in
    let rest : any_nonzero xs ≡ false = ground arith in rw first (ap (◌∷◌ 0) (zeros xs rest))

-- The payload array, up to its length, and the zeros behind it are the 110 bytes of the wire.
payload_bytes :
    (bytes : List ℕ) (n : ℕ)
    → length bytes ≡ 128
    → n ≤ 110
    → any_nonzero (drop (16 + n) (take 126 bytes)) ≡ false
    → take n (drop 16 bytes) ++ replicate (110 - n) 0 ≡ take 110 (drop 16 bytes)
payload_bytes bytes n len short clear =
    let behind = drop (16 + n) (take 126 bytes) in
    let count_is : length behind ≡ 110 - n =
      omega (arith, length-drop (16 + n) (take 126 bytes), length-take 126 bytes, len, short) in
    let same : behind ≡ take (110 - n) (drop n (drop 16 bytes)) =
      drop-take (16 + n) 126 bytes
      ∙ ap (λ k. take k (drop (16 + n) bytes)) (omega (arith, short))
      ∙ ap (take (110 - n)) (sym (drop-drop n 16 bytes)) in
    let zeroed : replicate (110 - n) 0 ≡ behind =
      ap (λ k. replicate k 0) (sym count_is) ∙ sym (zeros behind clear) in
    let whole : n + (110 - n) ≡ 110 = omega (arith, short) in
    ap (◌++◌ (take n (drop 16 bytes))) (zeroed ∙ same)
    ∙ sym (take-add (drop 16 bytes) n (110 - n))
    ∙ ap (λ k. take k (drop 16 bytes)) whole

encode_body-decoded :
    (bytes : List ℕ) (c : SpiCell)
    → length bytes ≡ 128
    → all_bytes bytes ≡ true
    → c.header ≡ decode_header bytes
    → IsChecked bytes c
    → encode_body c ≡ take 126 bytes
unfolding encode_body
encode_body-decoded bytes c len bound header w =
    let n = c.header.payload_len in
    let carried : length (take n (drop 16 bytes)) ≡ n =
      omega (arith, length-take n (drop 16 bytes), length-drop 16 bytes, len, w.fits) in
    let spelled : encode_header c.header ≡ take 16 bytes =
      ap encode_header header
      ∙ header-listed bytes bound
      ∙ sym (take-listed 16 bytes (omega (arith, len))) in
    let trimmed_payload : take n c.payload ≡ take n (drop 16 bytes) =
      ap (take n) w.payload
      ∙ take-append_exact (take n (drop 16 bytes)) (replicate (110 - n) 0) n carried in
    ap (λ first. first ++ (take n c.payload ++ replicate (spi_cell_payload_len - n) 0)) spelled
    ∙ ap (λ carried. take 16 bytes ++ (carried ++ replicate (110 - n) 0)) trimmed_payload
    ∙ ap (◌++◌ (take 16 bytes)) (payload_bytes bytes n len w.fits w.cleared)
    ∙ sym (take-add bytes 16 110)

encoded :
    (c : SpiCell)
    → c.header.payload_len ≤ 110
    → zero_with_payload c.header ≡ false
    → encode c ≡ ok (encode_body c ++ to_le16 (crc16_ccitt_false (encode_body c)))
unfolding encode
encoded c short carried =
    passes (ltb 110 c.header.payload_len) payload_too_long _ (ground (arith, short))
    ∙ passes (zero_with_payload c.header) sequence_zero_has_payload _ carried

crc_bytes :
    (bytes : List ℕ)
    → length bytes ≡ 128
    → all_bytes bytes ≡ true
    → to_le16 (from_le16 (byte_at bytes 126) (byte_at bytes 127)) ≡ drop 126 bytes
unfolding listed
crc_bytes bytes len bound =
    let two : length (drop 126 bytes) ≡ 2 = omega (arith, length-drop 126 bytes, len) in
    to-from_le16 (byte_at bytes 126) (byte_at bytes 127) (byte_at-lt bytes 126 bound)
      (byte_at-lt bytes 127 bound)
    ∙ sym (slice-listed 126 2 bytes (omega (arith, len)))
    ∙ ap (λ n. take n (drop 126 bytes)) (sym two)
    ∙ take_length (drop 126 bytes)

-- A cell has one form on the wire: 128 bytes that `decode` accepts are those that `encode` writes for
-- the cell that was read, so no two such strings of bytes decode to the same cell.
pub encode-decode :
    (bytes : List ℕ) {c : SpiCell}
    → length bytes ≡ 128
    → all_bytes bytes ≡ true
    → decode bytes ≡ ok c
    → encode c ≡ ok bytes
encode-decode bytes {c = c} len bound h =
    let (w, header, crc) = decode-IsChecked bytes {c = c} h in
    let body = encode_body-decoded bytes c len bound header w in
    let checksum : to_le16 (crc16_ccitt_false (encode_body c)) ≡ drop 126 bytes =
      ap (λ b. to_le16 (crc16_ccitt_false b)) body ∙ ap to_le16 crc ∙ crc_bytes bytes len bound in
    encoded c w.fits w.carried
    ∙ ap ok (
        ap (λ b. b ++ to_le16 (crc16_ccitt_false (encode_body c))) body
        ∙ ap (◌++◌ (take 126 bytes)) checksum
        ∙ take-append-drop 126 bytes)
