-- ===== src/Storage/HostCodec/RoundTrip.antt =====
-- The records of the computers that src/storage.rs writes are read back, bonds and names included.
use hidshift.Storage.Codec.RoundTrip.{byte_bool-bool_byte}
use hidshift.Storage.Codec.{byte_bool, stored_host_record_len, bool_byte, stored_bond_len}
use hidshift.Storage.HostCodec.{
  decode_host_record, encode_host_record, read_host_record, encode_bond, irk_bytes,
  address_kind_byte, address_kind_from, decode_bond, decode_present_bond, read_bond,
  security_level_byte, security_level_from,
}
use hidshift.Prelude.{
  passes, ◌>>=◌, Bool, false, length-write_all, ltb, byte_of, Layout, List, Option, Within, [], ap,
  arith, get_elem?, get_or_of_slice, if◌then◌else◌, is_some, length, none, ok, read_back, refl,
  replicate, slice, some, ℕ, ◌+◌, ◌==◌, ◌∙◌, ◌∷◌, ◌≡◌, ◌≤◌,
}
use hidshift.Storage.{
  invalid_name, StoredHostProfile, max_host_name_len, StoredAddressKind, StoredBond,
  StoredSecurityLevel, encrypted, encrypted_authenticated, no_encryption, public_address,
  random_address,
}

pub data IsIrk : Option (List ℕ) → Type 0 where
  no_irk : IsIrk none
  irk_of : (irk : List ℕ) → length irk ≡ 16 → IsIrk (some irk)

pub record IsBond (b : StoredBond) : Type 0 where
  pub address : length b.peer_address ≡ 6
  pub irk : IsIrk b.peer_irk
  pub ltk : length b.ltk ≡ 16

abbrev bond_layout : Layout
bond_layout = (0, 1) ∷ (1, 6) ∷ (7, 1) ∷ (8, 16) ∷ (24, 16) ∷ (40, 1) ∷ (41, 1) ∷ (42, 1) ∷ []

irk-room : (irk : Option (List ℕ)) → IsIrk irk → length (irk_bytes irk) ≤ 16
irk-room _ no_irk = omega arith
irk-room _ (irk_of irk h) = omega arith

security_level_from-byte :
    (level : StoredSecurityLevel) → security_level_from (security_level_byte level) ≡ ok level
unfolding security_level_from security_level_byte
security_level_from-byte no_encryption = refl
security_level_from-byte encrypted = refl
security_level_from-byte encrypted_authenticated = refl

address_kind_from-byte :
    (kind : StoredAddressKind) → address_kind_from (address_kind_byte kind) ≡ ok kind
unfolding address_kind_from address_kind_byte
address_kind_from-byte public_address = refl
address_kind_from-byte random_address = refl

abbrev bond_writes : StoredBond → List (ℕ × List ℕ)
bond_writes bond =
    (0, 1 ∷ [])
    ∷ (1, bond.peer_address)
    ∷ (7, bool_byte (is_some bond.peer_irk) ∷ [])
    ∷ (8, irk_bytes bond.peer_irk)
    ∷ (24, bond.ltk)
    ∷ (40, bool_byte bond.is_bonded ∷ [])
    ∷ (41, security_level_byte bond.security_level ∷ [])
    ∷ (42, address_kind_byte bond.peer_address_kind ∷ [])
    ∷ []

module _ (b : StoredBond) (w : IsBond b) where
  within : Within (bond_writes b) bond_layout
  within = (
    refl,
    omega arith,
    (
      refl,
      omega (arith, w.address),
      (
        refl,
        omega arith,
        (
          refl,
          irk-room b.peer_irk w.irk,
          (
            refl,
            omega (arith, w.ltk),
            (refl, omega arith, (refl, omega arith, (refl, omega arith, tt))),
          ),
        ),
      ),
    ),
  )

  bond_read :
      (k : ℕ) {offset to : ℕ} {bytes : List ℕ}
      → get_elem? (bond_writes b) k ≡ some (offset, bytes)
      → offset + length bytes ≡ to
      → slice (encode_bond (some b)) offset to ≡ bytes
  unfolding encode_bond
  bond_read k = read_back (replicate stored_bond_len 0) (bond_writes b) bond_layout k within refl

  bond_byte :
      (k i : ℕ) {byte : ℕ}
      → get_elem? (bond_writes b) k ≡ some (i, byte ∷ [])
      → byte_of (encode_bond (some b)) i ≡ byte
  bond_byte k i e =
      get_or_of_slice (encode_bond (some b)) i (i + 1) 0 (omega arith) (bond_read k e refl)

  read_irk :
      (irk : Option (List ℕ))
      → IsIrk irk
      → b.peer_irk ≡ irk
      → (if byte_of (encode_bond (some b)) 7 == 0
          then none
          else some (slice (encode_bond (some b)) 8 24))
        ≡ irk
  read_irk _ no_irk e =
      let flag : byte_of (encode_bond (some b)) 7 ≡ 0 =
        bond_byte 2 7 refl ∙ ap (λ o. bool_byte (is_some o)) e in
      rw flag refl
  read_irk _ (irk_of irk h) e =
      let flag : byte_of (encode_bond (some b)) 7 ≡ 1 =
        bond_byte 2 7 refl ∙ ap (λ o. bool_byte (is_some o)) e in
      let bytes : irk_bytes b.peer_irk ≡ irk = ap irk_bytes e in
      rw flag (ap some (bond_read 3 {to = 24} refl (omega (arith, h, ap length bytes)) ∙ bytes))

  read-bond : read_bond (encode_bond (some b)) b.security_level b.peer_address_kind ≡ b
  read-bond =
      rw
        (
          bond_read 1 {to = 7} refl (omega (arith, w.address)),
          read_irk b.peer_irk w.irk refl,
          bond_read 4 {to = 40} refl (omega (arith, w.ltk)),
          bond_byte 5 40 refl,
          byte_bool-bool_byte b.is_bonded,
        )
        refl

  decode-encode_present : decode_bond (encode_bond (some b)) ≡ ok (some b)
  unfolding decode_bond decode_present_bond
  decode-encode_present =
      rw
        (
          bond_byte 0 0 refl,
          bond_byte 6 41 refl,
          bond_byte 7 42 refl,
          security_level_from-byte b.security_level,
          address_kind_from-byte b.peer_address_kind,
          read-bond,
        )
        refl

pub data IsSomeBond : Option StoredBond → Type 0 where
  no_bond : IsSomeBond none
  bond_of : (b : StoredBond) → IsBond b → IsSomeBond (some b)

decode-encode_bond :
    (bond : Option StoredBond) → IsSomeBond bond → decode_bond (encode_bond bond) ≡ ok bond
unfolding decode_bond encode_bond
decode-encode_bond _ no_bond = refl
decode-encode_bond _ (bond_of b w) = decode-encode_present b w

length-encode_bond : (bond : Option StoredBond) → length (encode_bond bond) ≡ stored_bond_len
unfolding encode_bond
length-encode_bond none = refl
length-encode_bond (some b) = length-write_all (replicate stored_bond_len 0) (bond_writes b)

pub record IsHost (h : StoredHostProfile) : Type 0 where
  pub len : h.name.len ≤ max_host_name_len
  pub name : length h.name.bytes ≡ max_host_name_len
  pub bond : IsSomeBond h.bond

abbrev host_layout : Layout
host_layout =
    (0, 1) ∷ (1, 1) ∷ (2, 1) ∷ (3, 1) ∷ (4, 1) ∷ (5, 1) ∷ (6, 1) ∷ (7, 1) ∷ (8, 32) ∷ (40, 48) ∷ []

abbrev host_writes : StoredHostProfile → List (ℕ × List ℕ)
host_writes host =
    (0, host.host_id ∷ [])
    ∷ (1, bool_byte host.bonded ∷ [])
    ∷ (2, bool_byte host.keyboard_cccd_enabled ∷ [])
    ∷ (3, bool_byte host.mouse_cccd_enabled ∷ [])
    ∷ (4, bool_byte host.consumer_cccd_enabled ∷ [])
    ∷ (5, bool_byte host.keyboard_output_cccd_enabled ∷ [])
    ∷ (6, host.name.len ∷ [])
    ∷ (7, 0 ∷ [])
    ∷ (8, host.name.bytes)
    ∷ (40, encode_bond host.bond)
    ∷ []

module _ (h : StoredHostProfile) (w : IsHost h) where
  host-Within : Within (host_writes h) host_layout
  host-Within = (
    refl,
    omega arith,
    (
      refl,
      omega arith,
      (
        refl,
        omega arith,
        (
          refl,
          omega arith,
          (
            refl,
            omega arith,
            (
              refl,
              omega arith,
              (
                refl,
                omega arith,
                (
                  refl,
                  omega arith,
                  (
                    refl,
                    omega (arith, w.name),
                    (refl, omega (arith, length-encode_bond h.bond), tt),
                  ),
                ),
              ),
            ),
          ),
        ),
      ),
    ),
  )

  host_read :
      (k : ℕ) {offset to : ℕ} {bytes : List ℕ}
      → get_elem? (host_writes h) k ≡ some (offset, bytes)
      → offset + length bytes ≡ to
      → slice (encode_host_record h) offset to ≡ bytes
  unfolding encode_host_record
  host_read k =
      read_back (replicate stored_host_record_len 0) (host_writes h) host_layout k host-Within refl

  host_byte :
      (k i : ℕ) {byte : ℕ}
      → get_elem? (host_writes h) k ≡ some (i, byte ∷ [])
      → byte_of (encode_host_record h) i ≡ byte
  host_byte k i e =
      get_or_of_slice (encode_host_record h) i (i + 1) 0 (omega arith) (host_read k e refl)

  host_flag :
      (k i : ℕ) {flag : Bool}
      → get_elem? (host_writes h) k ≡ some (i, bool_byte flag ∷ [])
      → byte_bool (byte_of (encode_host_record h) i) ≡ flag
  host_flag k i {flag = flag} e = ap byte_bool (host_byte k i e) ∙ byte_bool-bool_byte flag

  read-host : read_host_record (encode_host_record h) h.bond ≡ h
  read-host =
      rw
        (
          host_byte 0 0 refl,
          host_flag 1 1 refl,
          host_flag 2 2 refl,
          host_flag 3 3 refl,
          host_flag 4 4 refl,
          host_flag 5 5 refl,
          host_byte 6 6 refl,
          host_read 8 {to = 40} refl (omega (arith, w.name)),
        )
        refl

  pub decode-encode_host_record : decode_host_record (encode_host_record h) ≡ ok h
  unfolding decode_host_record
  decode-encode_host_record =
      let bytes = encode_host_record h in
      let bond : slice bytes 40 88 ≡ encode_bond h.bond =
        host_read 9 {to = 88} refl (omega (arith, length-encode_bond h.bond)) in
      let len : ltb max_host_name_len (byte_of bytes 6) ≡ false =
        ground (arith, host_byte 6 6 refl, w.len) in
      let read : decode_bond (slice bytes 40 88) ≡ ok h.bond =
        ap decode_bond bond ∙ decode-encode_bond h.bond w.bond in
      passes (ltb max_host_name_len (byte_of bytes 6)) invalid_name _ len
      ∙ ap (λ r. r >>= λ bond. ok (read_host_record bytes bond)) read
      ∙ ap ok read-host

pub length-encode_host_record :
    (h : StoredHostProfile) → length (encode_host_record h) ≡ stored_host_record_len
unfolding encode_host_record
length-encode_host_record h = length-write_all (replicate stored_host_record_len 0) (host_writes h)
