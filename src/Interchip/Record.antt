-- ===== src/Interchip/Record.antt =====
-- src/interchip/record.rs: the records that a cell's payload is made of. A slice is a list; the
-- 32-bit usize bounds `align4` and nothing else here.
use hidshift.Interchip.Cell.{any_nonzero, spi_cell_payload_len}
use hidshift.Prelude.{
  ok_or, Bool, List, Option, Result, [], err, false, from_le16, get_or, if◌then◌else◌, length, ltb,
  none, not, ok, refuse_if, replicate, slice, some, suc, to_le16, true, zero, ℕ, ◌*◌, ◌++◌, ◌+◌,
  ◌-◌, ◌/◌, ◌==◌, ◌>>=◌, ◌>>◌, ◌^◌, ◌||◌, ◌∷◌,
}
pub mod Chunks
pub mod RoundTrip
pub mod Bounds
mod Tests

abbrev pub record_header_len : ℕ
record_header_len = 4

-- `Record` and `RecordRef`
pub record Record : Type 0 where
  pub record_type : ℕ
  pub flags : ℕ
  pub bytes : List ℕ

pub data RecordCodecError : Type 0 where
  too_many_records record_too_long payload_capacity malformed_record non_zero_padding
        record_count_mismatch :
      RecordCodecError

abbrev pub usize_max : ℕ
usize_max = 2 ^ 32 - 1

unfoldable pub align4 : ℕ → Option ℕ
align4 value = if ltb usize_max (value + 3) then none else some ((value + 3) / 4 * 4)

-- The bytes of one record, padding included.
unfoldable pub chunk : Record → ℕ → List ℕ
chunk r padded_len =
    (r.record_type ∷ r.flags ∷ [])
    ++ to_le16 (length r.bytes)
    ++ (r.bytes ++ replicate (padded_len - (record_header_len + length r.bytes)) 0)

-- The loop of `encode_records` from `offset` on: the bytes that it writes there. The array is zeroed
-- first and written from front to back. On an error the array's content is left unspecified.
unfoldable pub encode_from : ℕ → List Record → Result RecordCodecError (List ℕ)
encode_from offset [] = ok []
encode_from offset (r ∷ rs) = do
  refuse_if (ltb 65535 (length r.bytes)) record_too_long
  padded_len ← ok_or (align4 (record_header_len + length r.bytes)) record_too_long
  refuse_if (ltb spi_cell_payload_len (offset + padded_len)) payload_capacity
  rest ← encode_from (offset + padded_len) rs
  ok (chunk r padded_len ++ rest)

-- The array, the number of bytes used and the number of records.
unfoldable pub encode_records : List Record → Result RecordCodecError (List ℕ × ℕ × ℕ)
encode_records records = do
  refuse_if (ltb 255 (length records)) too_many_records
  used ← encode_from 0 records
  ok (used ++ replicate (spi_cell_payload_len - length used) 0, length used, length records)

pub record RecordIter : Type 0 where
  pub bytes : List ℕ
  pub offset : ℕ
  pub remaining : ℕ
  pub failed : Bool

unfoldable pub new : List ℕ → ℕ → RecordIter
new bytes record_count = record {
  bytes = bytes;
  offset = 0;
  remaining = record_count;
  failed = false;
}

unfoldable pub finish : RecordIter → Result RecordCodecError (Unit {0})
finish it =
    if it.failed
    then err malformed_record
    else if not (it.remaining == 0) || not (it.offset == length it.bytes)
    then err record_count_mismatch
    else ok tt

abbrev pub Item : Type 0
Item = Option (Result RecordCodecError Record)

abbrev pub fail : RecordIter → RecordCodecError → Item × RecordIter
fail it e = (some (err e), record it { failed = true })

-- `next` once the lengths are known.
unfoldable pub next_record : RecordIter → ℕ → ℕ → Item × RecordIter
next_record it raw_len padded_len =
    if ltb (length it.bytes) (it.offset + padded_len)
    then fail it malformed_record
    else if any_nonzero (slice it.bytes (it.offset + raw_len) (it.offset + padded_len))
    then fail it non_zero_padding
    else (
      some (
          ok (record {
            record_type = get_or it.bytes it.offset 0;
            flags = get_or it.bytes (it.offset + 1) 0;
            bytes = slice it.bytes (it.offset + record_header_len) (it.offset + raw_len);
          })),
      record it { offset = it.offset + padded_len; remaining = it.remaining - 1 },
    )

-- `checked_add` on a length that is a u16 never fails.
unfoldable pub next : RecordIter → Item × RecordIter
next it =
    if it.failed || it.remaining == 0
    then (none, it)
    else if ltb (length it.bytes) (it.offset + record_header_len)
    then fail it malformed_record
    else (let raw_len =
          record_header_len
          + from_le16 (get_or it.bytes (it.offset + 2) 0) (get_or it.bytes (it.offset + 3) 0) in
        elim (align4 raw_len) [
          | none ↦ fail it malformed_record
          | some padded_len ↦ next_record it raw_len padded_len
        ])

-- `for item in iter`, with fuel: a round lowers `remaining` or fails, after which one more ends it.
unfoldable pub collect : ℕ → RecordIter → List (Result RecordCodecError Record) × RecordIter
collect zero it = ([], it)
collect (suc fuel) it =
    let (item, it') = next it in
    let rest = collect fuel it' in elim item [ none ↦ ([], it') | some r ↦ (r ∷ rest.0, rest.1) ]
