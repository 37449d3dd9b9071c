-- ===== src/Interchip/Fragment/Decoding.antt =====
-- Fragments of src/interchip/control_fragment.rs over the wire.
use hidshift.Interchip.Fragment.{
  ControlStatus, disconnected, stall, status_code, success, timeout, unsupported, Fragment,
  control_fragment_data_max_len, padded, validate_fragment,
}
use hidshift.Interchip.Fragment.Wire.{decode_response, status_from, decode_request, unpack}
use hidshift.Prelude.{
  from-to_le16, from-to_le32, refl, List, [], arith, drop, drop-append_exact, false, length,
  length-append, ltb, ok, take, take-append_exact, to_le16, to_le32, ℕ, ◌%◌, ◌++◌, ◌+◌, ◌-◌, ◌<◌,
  ◌^◌, ◌||◌, ◌∷◌, ◌≡◌, ◌≤◌,
}

-- The fragment with these header fields and these bytes.
abbrev pub wired : {T : Type 0} → ℕ → ℕ → ℕ → ℕ → List ℕ → T → Fragment T
wired id offset total flags bytes tag = record {
  request_id = id;
  tag = tag;
  offset = offset;
  total_length = total;
  flags = flags;
  length = length bytes;
  buffer = padded control_fragment_data_max_len bytes;
}

module _ (id offset total flags : ℕ) (bytes : List ℕ) (id_small : id < 2 ^ 32)
    (offset_small : offset < 2 ^ 16) (total_small : total < 2 ^ 16) (fits : length bytes ≤ 86)
    (valid : validate_fragment flags offset total (length bytes) ≡ ok tt) where
  unpack-wired :
      {T : Type 0} (tag : T)
      → unpack id tag offset total flags (length bytes) bytes
        ≡ ok (wired id offset total flags bytes tag)
  unfolding unpack
  unpack-wired tag = let e : length bytes % 256 ≡ length bytes = omega arith in rw (valid, e)

  pub decode_request-wired :
      (packet : List ℕ)
      → length packet ≡ 8
      → decode_request
          (to_le32 id ++ (flags ∷ 0 ∷ []) ++ to_le16 offset ++ to_le16 total ++ packet ++ bytes)
        ≡ ok (wired id offset total flags bytes packet)
  unfolding decode_request
  decode_request-wired packet n =
      let wire : List ℕ =
        to_le32 id ++ (flags ∷ 0 ∷ []) ++ to_le16 offset ++ to_le16 total ++ packet ++ bytes in
      let e1 : take 8 (packet ++ bytes) ≡ packet = take-append_exact packet bytes 8 n in
      let e2 : drop 8 (packet ++ bytes) ≡ bytes = drop-append_exact packet bytes 8 n in
      let e3 : length (packet ++ bytes) ≡ 8 + length bytes =
        omega (arith, length-append packet bytes) in
      let e4 : length wire - 18 ≡ length bytes = omega (arith, e3) in
      let e5 : (ltb (length wire) 18 || false || ltb 86 (length wire - 18)) ≡ false =
        ground (arith, e3) in
      rw
        (
          e5,
          e4,
          e1,
          e2,
          from-to_le32 id id_small,
          from-to_le16 offset offset_small,
          from-to_le16 total total_small,
        )
        (unpack-wired packet)

  status_from-status_code : (status : ControlStatus) → status_from (status_code status) ≡ ok status
  unfolding status_from status_code
  status_from-status_code success = refl
  status_from-status_code stall = refl
  status_from-status_code timeout = refl
  status_from-status_code disconnected = refl
  status_from-status_code unsupported = refl

  pub decode_response-wired :
      (status : ControlStatus)
      → decode_response (
          to_le32 id
          ++ (status_code status ∷ flags ∷ [])
          ++ to_le16 offset
          ++ to_le16 total
          ++ bytes)
        ≡ ok (wired id offset total flags bytes status)
  unfolding decode_response
  decode_response-wired status =
      let wire : List ℕ =
        to_le32 id
        ++ (status_code status ∷ flags ∷ [])
        ++ to_le16 offset
        ++ to_le16 total
        ++ bytes in
      let e4 : length wire - 10 ≡ length bytes = omega arith in
      let e5 : (ltb (length wire) 10 || ltb 86 (length wire - 10)) ≡ false = ground arith in
      rw
        (
          e5,
          e4,
          status_from-status_code status,
          from-to_le32 id id_small,
          from-to_le16 offset offset_small,
          from-to_le16 total total_small,
        )
        (unpack-wired status)
