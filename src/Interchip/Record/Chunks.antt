-- ===== src/Interchip/Record/Chunks.antt =====
-- Reading one record where src/interchip/record.rs has written it.
use native.Mathlib.Nat.{add-zero}
use mathlib.Core.List.{append_assoc}
use hidshift.Interchip.Cell.Codec.{any_nonzero-replicate}
use hidshift.Interchip.Cell.{any_nonzero}
use hidshift.Interchip.Record.{
  next_record, Record, RecordIter, align4, chunk, next, record_header_len,
}
use hidshift.Prelude.{
  drop, from-to_le16, from_le16, ap, drop-append_exact, take, take-append_exact, to_le16, ◌∙◌, ◌∷◌,
  List, arith, drop-append_add, false, get_or, get_or-append, length, length-append,
  length-replicate, ok, refl, replicate, slice, some, suc, ℕ, ◌*◌, ◌++◌, ◌+◌, ◌-◌, ◌/◌, ◌≡◌, ◌≤◌,
}

pub align4-some : (n : ℕ) → n ≤ 65539 → align4 n ≡ some ((n + 3) / 4 * 4)
unfolding align4
align4-some n h = ground arith

-- The padded length of a record.
abbrev pub padded : Record → ℕ
padded r = (record_header_len + length r.bytes + 3) / 4 * 4

pub length-chunk : (r : Record) → length (chunk r (padded r)) ≡ padded r
unfolding chunk
length-chunk r = omega (
  arith,
  length-append r.bytes (replicate (padded r - (record_header_len + length r.bytes)) 0),
  length-replicate {A = ℕ} (padded r - (record_header_len + length r.bytes)) 0,
)

next_record-ok :
    (it : RecordIter) (left raw_len padded_len : ℕ)
    → it.remaining ≡ suc left
    → it.offset + padded_len ≤ length it.bytes
    → any_nonzero (slice it.bytes (it.offset + raw_len) (it.offset + padded_len)) ≡ false
    → next_record it raw_len padded_len ≡ (
      some (
          ok (record {
            record_type = get_or it.bytes it.offset 0;
            flags = get_or it.bytes (it.offset + 1) 0;
            bytes = slice it.bytes (it.offset + record_header_len) (it.offset + raw_len);
          })),
      record it { offset = it.offset + padded_len; remaining = left },
    )
unfolding next_record
next_record-ok it left raw_len padded_len e h z = ground arith

next-ok :
    (it : RecordIter) (left len padded_len : ℕ)
    → it.failed ≡ false
    → it.remaining ≡ suc left
    → it.offset + 4 ≤ length it.bytes
    → from_le16 (get_or it.bytes (it.offset + 2) 0) (get_or it.bytes (it.offset + 3) 0) ≡ len
    → align4 (record_header_len + len) ≡ some padded_len
    → next it ≡ next_record it (record_header_len + len) padded_len
unfolding next
next-ok it left len padded_len f r h e a = ground arith

module _ (before after : List ℕ) (r : Record) (remaining : ℕ) (fits : length r.bytes ≤ 65535) where
  -- The reader stands before the record.
  abbrev pub stream : List ℕ
  stream = before ++ (chunk r (padded r) ++ after)

  abbrev pub reader : RecordIter
  reader = record {
    bytes = stream;
    offset = length before;
    remaining = suc remaining;
    failed = false;
  }

  byte-stream :
      (i : ℕ) → get_or stream (length before + i) 0 ≡ get_or (chunk r (padded r) ++ after) i 0
  byte-stream i = get_or-append before (chunk r (padded r) ++ after) i (length before) 0 refl

  length-stream : length stream ≡ length before + (padded r + length after)
  length-stream = omega (
    arith,
    length-append before (chunk r (padded r) ++ after),
    length-append (chunk r (padded r)) after,
    length-chunk r,
  )

  slice-stream :
      (k n : ℕ)
      → slice stream (length before + k) (length before + n)
        ≡ slice (chunk r (padded r) ++ after) k n
  slice-stream k n =
      let shift : length before + n - (length before + k) ≡ n - k = omega arith in
      rw (shift, drop-append_add before (chunk r (padded r) ++ after) (length before) k refl)

  -- The number of zeros that pad the record, and the zeros.
  abbrev gap : ℕ
  gap = padded r - (record_header_len + length r.bytes)

  abbrev padding : List ℕ
  padding = replicate (padded r - (record_header_len + length r.bytes)) 0

  abbrev head_bytes : List ℕ
  head_bytes = r.record_type ∷ r.flags ∷ to_le16 (length r.bytes)

  -- The record's own bytes.
  slice-data : slice (chunk r (padded r) ++ after) 4 (record_header_len + length r.bytes) ≡ r.bytes
  unfolding chunk
  slice-data =
      let own : record_header_len + length r.bytes - 4 ≡ length r.bytes = omega arith in
      rw own (
        ap (take (length r.bytes)) (append_assoc r.bytes padding after)
        ∙ take-append_exact r.bytes (padding ++ after) (length r.bytes) refl)

  slice-padding :
      any_nonzero (slice (chunk r (padded r) ++ after) (4 + length r.bytes) (padded r)) ≡ false
  unfolding chunk
  slice-padding =
      ap any_nonzero (
        ap (λ b. take gap (drop (record_header_len + length r.bytes) (head_bytes ++ b)))
          (append_assoc r.bytes padding after)
        ∙ ap (take gap) (
            drop-append_add head_bytes (r.bytes ++ (padding ++ after)) 4 (length r.bytes) refl
            ∙ drop-append_exact r.bytes (padding ++ after) (length r.bytes) refl)
        ∙ take-append_exact padding after gap (length-replicate gap 0))
      ∙ any_nonzero-replicate gap

  byte_length :
      from_le16 (get_or stream (length before + 2) 0) (get_or stream (length before + 3) 0)
      ≡ length r.bytes
  unfolding chunk
  byte_length = rw (byte-stream 2, byte-stream 3) (from-to_le16 (length r.bytes) (omega arith))

  read_record : Record
  read_record = record {
    record_type = get_or stream (length before) 0;
    flags = get_or stream (length before + 1) 0;
    bytes =
        slice stream (length before + record_header_len)
          (length before + (record_header_len + length r.bytes));
  }

  read_record_lem : read_record ≡ r
  unfolding read_record chunk
  read_record_lem =
      let start = rw add-zero at (byte-stream 0) in
      ground (
        arith,
        start,
        byte-stream 1,
        slice-stream record_header_len (record_header_len + length r.bytes),
        slice-data,
      )

  -- The reader passes on the record and stops behind its padding.
  pub next-chunk : next reader ≡ (
    some (ok r),
    record {
      bytes = stream;
      offset = length before + padded r;
      remaining = remaining;
      failed = false;
    },
  )
  unfolding read_record
  next-chunk =
      next-ok reader remaining (length r.bytes) (padded r) refl refl (omega (arith, length-stream))
        byte_length (align4-some (record_header_len + length r.bytes) (omega arith))
      ∙ next_record-ok reader remaining (record_header_len + length r.bytes) (padded r) refl
          (omega (arith, length-stream))
          (rw (slice-stream (record_header_len + length r.bytes) (padded r)) slice-padding)
      ∙ ap
          (λ x. (
            some (ok x),
            record {
              bytes = stream;
              offset = length before + padded r;
              remaining = remaining;
              failed = false;
            },
          ))
          read_record_lem
