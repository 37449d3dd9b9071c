-- ===== src/Interchip/Record/Tests.antt =====
-- The records of the tests in src/interchip/record.rs.
use hidshift.Interchip.Cell.{any_nonzero, spi_cell_payload_len}
use hidshift.Interchip.Record.RoundTrip.{collect-encode_records, ok_all}
use hidshift.Interchip.Record.Bounds.{Progress, next-Progress}
use hidshift.Interchip.Record.{
  Record, RecordIter, align4, chunk, collect, encode_from, encode_records, finish, new, next,
  next_record, non_zero_padding,
}
use hidshift.Prelude.{
  List, [], err, false, length, ok, refl, replicate, some, take, true, ℕ, ◌∷◌, ◌≡◌,
}

abbrev two_records : List Record
two_records =
    record { record_type = 1; flags = 2; bytes = 1 ∷ 2 ∷ 3 ∷ [] }
    ∷ record { record_type = 0x26; flags = 0; bytes = 4 ∷ 5 ∷ 6 ∷ 7 ∷ [] }
    ∷ []

abbrev encoded : List ℕ
encoded = 1 ∷ 2 ∷ 3 ∷ 0 ∷ 1 ∷ 2 ∷ 3 ∷ 0 ∷ 0x26 ∷ 0 ∷ 4 ∷ 0 ∷ 4 ∷ 5 ∷ 6 ∷ 7 ∷ replicate 94 0

two_records-encoded : encode_records two_records ≡ ok (encoded, 16, 2)
unfolding encode_records encode_from align4 chunk
two_records-encoded = refl

collect-encode_records_example :
    let (items, last) = collect 3 (new (take 16 encoded) 2) in
    (length encoded ≡ spi_cell_payload_len)
    × (2 ≡ length two_records)
    × (items ≡ ok_all two_records)
    × (finish last ≡ ok tt)
collect-encode_records_example = collect-encode_records two_records two_records-encoded

abbrev dirty : RecordIter
dirty = record {
  bytes = 1 ∷ 0 ∷ 1 ∷ 0 ∷ 9 ∷ 1 ∷ 0 ∷ 0 ∷ [];
  offset = 0;
  remaining = 1;
  failed = false;
}

padding_is_checked : next dirty ≡ (some (err non_zero_padding), record dirty { failed = true })
unfolding next next_record align4 any_nonzero
padding_is_checked = refl

next-Progress_example : let (item, it') = next dirty in Progress dirty item it'
next-Progress_example = next-Progress dirty
