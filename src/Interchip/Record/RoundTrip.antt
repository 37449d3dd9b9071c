-- ===== src/Interchip/Record/RoundTrip.antt =====
-- Reading back what `encode_records` of src/interchip/record.rs wrote.
use mathlib.Core.List.{append-nil, append_assoc}
use hidshift.Interchip.Cell.{spi_cell_payload_len}
use hidshift.Interchip.Record.{
  encode_records, finish, new, too_many_records, RecordIter, next, RecordCodecError, align4,
  collect, payload_capacity, record_header_len, record_too_long, Record, chunk, encode_from,
}
use hidshift.Prelude.{
  length-replicate, replicate, take, take-append_exact, ◌-◌, length-append, none, refl, >>=-eq-ok,
  Option, Result, [], ap, arith, false, ltb, map, ok_or, passed, some, suc, sym, ◌∙◌, List, length,
  ok, ℕ, ◌++◌, ◌+◌, ◌∷◌, ◌≡◌, ◌≤◌,
}
use hidshift.Interchip.Record.Chunks.{length-chunk, next-chunk, align4-some, padded}

value_injective : {m n : ℕ} → ◌≡◌ {A = Result RecordCodecError ℕ} (ok m) (ok n) → n ≡ m
value_injective e = cc

ok_injective : {a b : List ℕ} → ◌≡◌ {A = Result RecordCodecError (List ℕ)} (ok a) (ok b) → a ≡ b
ok_injective e = cc

-- What a successful round of the loop of `encode_records` did.

ok_or_value :
    (o : Option ℕ) {m n : ℕ}
    → o ≡ some m
    → ◌≡◌ {A = Result RecordCodecError ℕ} (ok_or o record_too_long) (ok n)
    → n ≡ m
ok_or_value o {m} {n} e f = value_injective (rw e at f)

encode_from-cons :
    (offset : ℕ) (r : Record) (rs : List Record) {used : List ℕ}
    → encode_from offset (r ∷ rs) ≡ ok used
    → (rest : List ℕ) × (length r.bytes ≤ 65535)
      × (offset + padded r ≤ spi_cell_payload_len)
      × (encode_from (offset + padded r) rs ≡ ok rest)
      × (used ≡ chunk r (padded r) ++ rest)
unfolding encode_from
encode_from-cons offset r rs {used} e =
    let (short, e₁) = passed (ltb 65535 (length r.bytes)) record_too_long _ e in
    let short' : length r.bytes ≤ 65535 = ground arith in
    let (n, aligned, e₂) =
      >>=-eq-ok (ok_or (align4 (record_header_len + length r.bytes)) record_too_long) _ e₁ in
    let width : n ≡ padded r =
      ok_or_value (align4 (record_header_len + length r.bytes))
        (align4-some (record_header_len + length r.bytes) (omega arith)) aligned in
    let (room, e₃) = passed (ltb spi_cell_payload_len (offset + n)) payload_capacity _ e₂ in
    let (rest, written, e₄) = >>=-eq-ok (encode_from (offset + n) rs) _ e₃ in
    (
      rest,
      short',
      ground arith,
      rw (← width) written,
      sym (ok_injective e₄) ∙ ap (λ k. chunk r k ++ rest) width,
    )

encoded_nothing : (offset : ℕ) {used : List ℕ} → encode_from offset [] ≡ ok used → used ≡ []
unfolding encode_from
encoded_nothing offset e = ok_injective (sym e)

abbrev pub ok_all : List Record → List (Result RecordCodecError Record)
ok_all = map (λ r. ok r)

collect-none :
    (fuel : ℕ) (it it' : RecordIter) → next it ≡ (none, it') → collect (suc fuel) it ≡ ([], it')
unfolding collect
collect-none fuel it it' e = ground (arith, e)

collect-some :
    (fuel : ℕ) (it it' : RecordIter) (r : Result RecordCodecError Record)
    → next it ≡ (some r, it')
    → collect (suc fuel) it ≡ (r ∷ (collect fuel it').0, (collect fuel it').1)
unfolding collect
collect-some fuel it it' r e = ground (arith, e)

next_spent :
    (bytes : List ℕ) (offset : ℕ)
    → let it : RecordIter = record {
      bytes = bytes;
      offset = offset;
      remaining = 0;
      failed = false;
    } in
      next it ≡ (none, it)
unfolding next
next_spent bytes offset = refl

led_by :
    Result RecordCodecError Record
    → List (Result RecordCodecError Record) × RecordIter
    → List (Result RecordCodecError Record) × RecordIter
led_by r x = (r ∷ x.0, x.1)

-- The reader yields the records and stops at the end, without an error.
collect-encode_from :
    (rs : List Record) (before : List ℕ) {used : List ℕ}
    → encode_from (length before) rs ≡ ok used
    → collect (suc (length rs)) (record {
      bytes = before ++ used;
      offset = length before;
      remaining = length rs;
      failed = false;
    })
      ≡ (
        ok_all rs,
        record {
          bytes = before ++ used;
          offset = length (before ++ used);
          remaining = 0;
          failed = false;
        },
      )
unfolding led_by
collect-encode_from [] before {used} e =
    let empty : used ≡ [] = encoded_nothing (length before) e in
    rw (empty, append-nil) (collect-none 0 _ _ (next_spent before (length before)))
collect-encode_from (r ∷ rs) before {used} e =
    let (rest, short, room, written, same) = encode_from-cons (length before) r rs e in
    let before' = before ++ chunk r (padded r) in
    let grown : length before' ≡ length before + padded r =
      omega (arith, length-append before (chunk r (padded r)), length-chunk r) in
    let later = collect-encode_from rs before' {used = rest} (rw grown written) in
    rw same (
      collect-some (suc (length rs)) _ _ (ok r) (next-chunk before rest r (length rs) short)
      ∙ ap (led_by (ok r)) (rw (append_assoc, grown) at later))

encode_from-le :
    (rs : List Record) (offset : ℕ) {used : List ℕ}
    → offset ≤ spi_cell_payload_len
    → encode_from offset rs ≡ ok used
    → offset + length used ≤ spi_cell_payload_len
encode_from-le [] offset {used} h e = omega (arith, ap length (encoded_nothing offset e))
encode_from-le (r ∷ rs) offset {used} h e =
    let (rest, short, room, written, same) = encode_from-cons offset r rs e in
    omega (
      arith,
      ap length same,
      length-append (chunk r (padded r)) rest,
      length-chunk r,
      encode_from-le rs (offset + padded r) room written,
    )

encode_records-ok :
    (rs : List Record) {array : List ℕ} {len count : ℕ}
    → encode_records rs ≡ ok (array, len, count)
    → (used : List ℕ) × (encode_from 0 rs ≡ ok used)
      × (array ≡ used ++ replicate (spi_cell_payload_len - length used) 0)
      × (len ≡ length used)
      × (count ≡ length rs)
unfolding encode_records
encode_records-ok rs {array} {len} {count} e =
    let (few, e₁) = passed (ltb 255 (length rs)) too_many_records _ e in
    let (used, written, e₂) = >>=-eq-ok (encode_from 0 rs) _ e₁ in
    (used, written, ground arith, ground arith, ground arith)

finish_end :
    (bytes : List ℕ)
    → finish (record { bytes = bytes; offset = length bytes; remaining = 0; failed = false })
      ≡ ok tt
unfolding finish
finish_end bytes = ground arith

-- Records that `encode_records` accepts fill an array of 110 bytes; a reader over the used part of it
-- and the record count yields exactly those records, in order, none of them an error, and then
-- finishes without one. `count + 1` calls of `next` are enough.
pub collect-encode_records :
    (rs : List Record) {array : List ℕ} {len count : ℕ}
    → encode_records rs ≡ ok (array, len, count)
    → let (items, last) = collect (suc count) (new (take len array) count) in
      (length array ≡ spi_cell_payload_len)
      × (count ≡ length rs)
      × (items ≡ ok_all rs)
      × (finish last ≡ ok tt)
unfolding new
collect-encode_records rs {array} {len} {count} e =
    let (used, written, filled, size, number) = encode_records-ok rs e in
    let room = encode_from-le rs 0 (omega arith) written in
    let cut : take len array ≡ used =
      ap (λ a. take len a) filled
      ∙ take-append_exact used (replicate (spi_cell_payload_len - length used) 0) len (sym size) in
    let read = collect-encode_from rs [] written in
    (
      omega (
        arith,
        ap length filled,
        length-append used (replicate (spi_cell_payload_len - length used) 0),
        length-replicate {A = ℕ} (spi_cell_payload_len - length used) 0,
        room,
      ),
      number,
      rw (cut, number, read),
      rw (cut, number, read) (finish_end used),
    )
