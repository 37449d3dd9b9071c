-- ===== src/Storage/HostCodec.antt =====
-- The records of the computers in the image of src/storage.rs, with their bonds.
use hidshift.Storage.Codec.{bool_byte, byte_bool, stored_bond_len, stored_host_record_len}
use hidshift.Prelude.{
  List, Option, Result, [], byte_of, err, if◌then◌else◌, is_some, ltb, none, ok, refuse_if,
  replicate, slice, some, write_all, ℕ, ◌==◌, ◌>>=◌, ◌>>◌, ◌∷◌,
}
use hidshift.Storage.{
  StorageError, StoredAddressKind, StoredBond, StoredHostProfile, StoredSecurityLevel, encrypted,
  encrypted_authenticated, invalid_length, invalid_name, max_host_name_len, no_encryption,
  public_address, random_address,
}
pub mod RoundTrip

unfoldable pub address_kind_byte : StoredAddressKind → ℕ
address_kind_byte public_address = 0
address_kind_byte random_address = 1

unfoldable pub security_level_byte : StoredSecurityLevel → ℕ
security_level_byte no_encryption = 0
security_level_byte encrypted = 1
security_level_byte encrypted_authenticated = 2

-- The bytes of `if let Some(irk) = bond.peer_irk`: none are written without one.
abbrev pub irk_bytes : Option (List ℕ) → List ℕ
irk_bytes none = []
irk_bytes (some irk) = irk

-- It never fails.
unfoldable pub encode_bond : Option StoredBond → List ℕ
unfolding address_kind_byte security_level_byte
encode_bond none = replicate stored_bond_len 0
encode_bond (some bond) = write_all (replicate stored_bond_len 0) (
    (0, 1 ∷ [])
    ∷ (1, bond.peer_address)
    ∷ (7, bool_byte (is_some bond.peer_irk) ∷ [])
    ∷ (8, irk_bytes bond.peer_irk)
    ∷ (24, bond.ltk)
    ∷ (40, bool_byte bond.is_bonded ∷ [])
    ∷ (41, security_level_byte bond.security_level ∷ [])
    ∷ (42, address_kind_byte bond.peer_address_kind ∷ [])
    ∷ [])

unfoldable pub security_level_from : ℕ → Result StorageError StoredSecurityLevel
security_level_from byte =
    if byte == 0
    then ok no_encryption
    else if byte == 1
    then ok encrypted
    else if byte == 2
    then ok encrypted_authenticated
    else err invalid_length

unfoldable pub address_kind_from : ℕ → Result StorageError StoredAddressKind
address_kind_from byte =
    if byte == 0
    then ok public_address
    else if byte == 1
    then ok random_address
    else err invalid_length

abbrev pub read_bond : List ℕ → StoredSecurityLevel → StoredAddressKind → StoredBond
read_bond record_bytes level kind = record {
  peer_address = slice record_bytes 1 7;
  peer_address_kind = kind;
  peer_irk = if byte_of record_bytes 7 == 0 then none else some (slice record_bytes 8 24);
  ltk = slice record_bytes 24 40;
  is_bonded = byte_bool (byte_of record_bytes 40);
  security_level = level;
}

unfoldable pub decode_present_bond : List ℕ → Result StorageError (Option StoredBond)
unfolding security_level_from address_kind_from
decode_present_bond record_bytes = do
  level ← security_level_from (byte_of record_bytes 41)
  kind ← address_kind_from (byte_of record_bytes 42)
  ok (some (read_bond record_bytes level kind))

unfoldable pub decode_bond : List ℕ → Result StorageError (Option StoredBond)
unfolding decode_present_bond
decode_bond record_bytes =
    let present = decode_present_bond record_bytes in
    if byte_of record_bytes 0 == 0 then ok none else present

unfoldable pub encode_host_record : StoredHostProfile → List ℕ
unfolding encode_bond
encode_host_record host = write_all (replicate stored_host_record_len 0) (
    (0, host.host_id ∷ [])
    ∷ (1, bool_byte host.bonded ∷ [])
    ∷ (2, bool_byte host.keyboard_cccd_enabled ∷ [])
    ∷ (3, bool_byte host.mouse_cccd_enabled ∷ [])
    ∷ (4, bool_byte host.consumer_cccd_enabled ∷ [])
    ∷ (5, bool_byte host.keyboard_output_cccd_enabled ∷ [])
    ∷ (6, host.name.len ∷ [])
    ∷ (7, 0 ∷ [])
    ∷ (8, host.name.bytes)
    ∷ (40, encode_bond host.bond)
    ∷ [])

abbrev pub read_host_record : List ℕ → Option StoredBond → StoredHostProfile
read_host_record record_bytes bond = record {
  host_id = byte_of record_bytes 0;
  bonded = byte_bool (byte_of record_bytes 1);
  keyboard_cccd_enabled = byte_bool (byte_of record_bytes 2);
  mouse_cccd_enabled = byte_bool (byte_of record_bytes 3);
  consumer_cccd_enabled = byte_bool (byte_of record_bytes 4);
  keyboard_output_cccd_enabled = byte_bool (byte_of record_bytes 5);
  name = record { len = byte_of record_bytes 6; bytes = slice record_bytes 8 40 };
  bond = bond;
}

unfoldable pub decode_host_record : List ℕ → Result StorageError StoredHostProfile
unfolding decode_bond
decode_host_record record_bytes = do
  refuse_if (ltb max_host_name_len (byte_of record_bytes 6)) invalid_name
  bond ← decode_bond (slice record_bytes 40 88)
  ok (read_host_record record_bytes bond)
