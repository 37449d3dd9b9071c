-- ===== src/Interchip/Fragment/Assembler.antt =====
-- The assemblers of src/interchip/control_fragment.rs. A copy past the end of the 256-byte array
-- panics, which is the outer `none` of `push`.
use hidshift.Prelude.{
  Bool, List, Option, Result, [], drop, err, false, if◌then◌else◌, length, ltb, none, ok, replicate,
  some, take, true, ℕ, ◌%◌, ◌&&◌, ◌++◌, ◌+◌, ◌==◌, ◌^◌, ◌∷◌,
}
use hidshift.Interchip.Fragment.{
  MessageError, ControlFragmentError, ControlMessage, ControlRequestFragment,
  ControlResponseFragment, ControlStatus, Fragment, control_data_max_len, fragment_data, has_first,
  has_last, malformed, new_message, out_of_order, status_code,
}

pub record Assembler (T : Type 0) : Type 0 where
  pub request_id : Option ℕ
  pub tag : T
  pub total_length : ℕ
  pub next_offset : ℕ
  pub buffer : List ℕ

-- `data[offset..end].copy_from_slice(bytes)`
unfoldable pub write_at : List ℕ → ℕ → List ℕ → Option (List ℕ)
write_at buffer offset bytes =
    if ltb (length buffer) (offset + length bytes)
    then none
    else some (take offset buffer ++ bytes ++ drop (offset + length bytes) buffer)

-- `self.request_id == Some(id)`
abbrev pub is_for : Option ℕ → ℕ → Bool
is_for none id = false
is_for (some own) id = own == id

module _ {T : Type 0} where
  unfoldable pub new_assembler : T → Assembler T
  new_assembler tag = record {
    request_id = none;
    tag = tag;
    total_length = 0;
    next_offset = 0;
    buffer = replicate control_data_max_len 0;
  }

  unfoldable pub reset : Assembler T → Assembler T
  reset a = record a { request_id = none; total_length = 0; next_offset = 0 }

  -- What a first fragment does before the comparison.
  unfoldable pub begun : Assembler T → Fragment T → Assembler T
  begun a f =
      if has_first f.flags
      then record a {
        request_id = some f.request_id;
        tag = f.tag;
        total_length = f.total_length;
        next_offset = 0;
      }
      else a

module _ {T : Type 0} (same : T → T → Bool) where
  unfoldable pub expects : Assembler T → Fragment T → Bool
  expects a f =
      is_for a.request_id f.request_id
      && same a.tag f.tag
      && (a.total_length == f.total_length)
      && (a.next_offset == f.offset)

abbrev pub Pushed : Type 0 → Type 0
Pushed T = Assembler T × Result ControlFragmentError (Option (ControlMessage T))

module _ {T : Type 0} where
  -- The answer after the last fragment; `Malformed` leaves the state as it is.
  unfoldable pub completed : Assembler T → Result MessageError (ControlMessage T) → Pushed T
  completed a (ok m) = (reset a, ok (some m))
  completed a (err e) = (a, err malformed)

  -- The bytes are in the array.
  unfoldable pub landed : Assembler T → Fragment T → ℕ → List ℕ → Pushed T
  landed a f end buffer =
      let stored : Assembler T = record a { buffer = buffer; next_offset = end % 2 ^ 16 } in
      if has_last f.flags
      then completed stored (new_message f.request_id f.tag (take end buffer))
      else (stored, ok none)

  unfoldable pub after_copy : Assembler T → Fragment T → ℕ → Option (List ℕ) → Option (Pushed T)
  after_copy a f end none = none
  after_copy a f end (some buffer) = some (landed a f end buffer)

  -- The fragment is the expected one: its bytes are stored.
  unfoldable pub store : Assembler T → Fragment T → Option (Pushed T)
  store a f =
      let end : ℕ = f.offset + length (fragment_data f) in
      after_copy a f end (write_at a.buffer f.offset (fragment_data f))

  unfoldable pub push : (T → T → Bool) → Assembler T → Fragment T → Option (Pushed T)
  push same a f =
      if expects same (begun a f) f
      then store (begun a f) f
      else some (reset (begun a f), err out_of_order)

abbrev pub ControlRequestAssembler : Type 0
ControlRequestAssembler = Assembler (List ℕ)

abbrev pub ControlResponseAssembler : Type 0
ControlResponseAssembler = Assembler ControlStatus

-- `==` of setup packets
unfoldable pub same_packet : List ℕ → List ℕ → Bool
same_packet [] [] = true
same_packet [] (y ∷ ys) = false
same_packet (x ∷ xs) [] = false
same_packet (x ∷ xs) (y ∷ ys) = (x == y) && same_packet xs ys

-- `==` of statuses
unfoldable pub same_status : ControlStatus → ControlStatus → Bool
unfolding status_code
same_status s t = status_code s == status_code t

unfoldable pub push_request :
    ControlRequestAssembler → ControlRequestFragment → Option (Pushed (List ℕ))
unfolding push same_packet
push_request = push same_packet

unfoldable pub push_response :
    ControlResponseAssembler → ControlResponseFragment → Option (Pushed ControlStatus)
unfolding push same_status
push_response = push same_status
