-- ===== src/Interchip/Record/Bounds.antt =====
-- The reader of src/interchip/record.rs on arbitrary bytes: it ends, and never reads out of bounds.
use hidshift.Interchip.Cell.{any_nonzero}
use hidshift.Interchip.Record.{
  fail, malformed_record, record_header_len, Item, Record, RecordCodecError, RecordIter, align4,
  next, next_record, usize_max,
}
use hidshift.Prelude.{
  false, from_le16, get_or, length, suc, true, ◌==◌, ◌||◌, Bool-cases, List, arith, drop, err, inl,
  inr, length-drop, length-take, ltb, none, ok, refl, slice, some, ℕ, ◌%◌, ◌*◌, ◌+◌, ◌-◌, ◌/◌, ◌<◌,
  ◌≡◌, ◌≤◌, ◌⊎◌,
}

-- What one call of `next` does to a reader.
pub data Progress (it : RecordIter) : Item → RecordIter → Type 0 where
  ended : (it.failed ≡ true) ⊎ (it.remaining ≡ 0) → Progress it none it
  failed :
      {e : RecordCodecError} {it' : RecordIter}
      → it' ≡ record it { failed = true }
      → Progress it (some (err e)) it'
  yielded :
      {it' : RecordIter} (r : Record) (raw_len padded_len : ℕ)
      → it.remaining ≡ suc it'.remaining
      → raw_len ≡ record_header_len + length r.bytes
      → raw_len ≤ padded_len
      → padded_len < raw_len + 4
      → padded_len % 4 ≡ 0
      → it'.offset ≡ it.offset + padded_len
      → it'.offset ≤ length it.bytes
      → it'.bytes ≡ it.bytes
      → it'.failed ≡ false
      → Progress it (some (ok r)) it'

align4-cases :
    (n : ℕ)
    → (align4 n ≡ none) ⊎ ((m : ℕ) × (align4 n ≡ some m) × (n ≤ m) × (m < n + 4) × (m % 4 ≡ 0))
unfolding align4
align4-cases n = elim (Bool-cases (ltb usize_max (n + 3))) [
  | inl big ↦ inl (rw big)
  | inr small ↦ inr ((n + 3) / 4 * 4, rw small, omega arith, omega arith, omega arith)
]

length-slice : (xs : List ℕ) (a b : ℕ) → a ≤ b → b ≤ length xs → length (slice xs a b) ≡ b - a
length-slice xs a b h k = omega (arith, length-take (b - a) (drop a xs), length-drop a xs)

next_record-Progress :
    (it : RecordIter) (left raw_len padded_len : ℕ)
    → it.failed ≡ false
    → it.remaining ≡ suc left
    → record_header_len ≤ raw_len
    → raw_len ≤ padded_len
    → padded_len < raw_len + 4
    → padded_len % 4 ≡ 0
    → let (item, it') = next_record it raw_len padded_len in Progress it item it'
unfolding next_record
next_record-Progress it left raw_len padded_len f r h k l m =
    elim (Bool-cases (ltb (length it.bytes) (it.offset + padded_len))) [
      | inl short ↦ rw short (failed refl)
      | inr room ↦
          elim (Bool-cases
            (any_nonzero (slice it.bytes (it.offset + raw_len) (it.offset + padded_len)))) [
              | inl dirty ↦ rw (room, dirty) (failed refl)
              | inr clean ↦
                  let inside : it.offset + padded_len ≤ length it.bytes = ground arith in
                  rw (room, clean)
                    (yielded _ raw_len padded_len (omega arith)
                      (omega (
                        arith,
                        length-slice it.bytes (it.offset + record_header_len) (it.offset + raw_len)
                            (omega arith) (omega arith),
                      ))
                      k l m refl inside refl f)
            ]
    ]

next_length-Progress :
    (it : RecordIter) (raw_len : ℕ)
    → it.failed ≡ false
    → it.remaining ≡ suc (it.remaining - 1)
    → record_header_len ≤ raw_len
    → let result : Item × RecordIter = elim (align4 raw_len) [
      | none ↦ fail it malformed_record
      | some padded_len ↦ next_record it raw_len padded_len
    ] in
      Progress it result.0 result.1
next_length-Progress it raw_len f r h = elim (align4-cases raw_len) [
  | inl e ↦ rw e (failed refl)
  | inr (m, e, k, l, z) ↦ rw e (next_record-Progress it (it.remaining - 1) raw_len m f r h k l z)
]

-- On any bytes at all, a call of `next` has ended, or it reports an error after which the reader has
-- ended, or it yields a record that lies whole within the bytes: the reader moves on by the record's
-- padded length, a multiple of four, stays within the bytes, and has one record less to read.
pub next-Progress : (it : RecordIter) → let (item, it') = next it in Progress it item it'
unfolding next
next-Progress it = elim (Bool-cases (it.failed || it.remaining == 0)) [
  | inl over ↦ rw over (ended (ground arith))
  | inr live ↦ elim (Bool-cases (ltb (length it.bytes) (it.offset + record_header_len))) [
    | inl short ↦ rw (live, short) (failed refl)
    | inr room ↦
        rw (live, room)
          (next_length-Progress it
            (record_header_len
              + from_le16 (get_or it.bytes (it.offset + 2) 0) (get_or it.bytes (it.offset + 3) 0))
            (ground arith) (ground arith) (omega arith))
  ]
]
