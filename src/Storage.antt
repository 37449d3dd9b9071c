-- ===== src/Storage.antt =====
-- src/storage.rs: what the board keeps in flash. The parts are the names and the bonds of the computers
-- here, the image of 1024 bytes in Image, the two slots in Slots, the flash behind them in Flash, and
-- when the state is written in Persistence.
use hidshift.Settings.{GlobalSettings, default_global_settings}
use hidshift.InputProfile.{InputProfileRegistry, new_registry}
use hidshift.OutputTarget.{HostId, host_slot_count}
use hidshift.OutputTarget.Stored.{StoredPresentationConfig, default_presentation}
use hidshift.Prelude.{
  ◌>>=◌, write_at, Bool, List, Option, Result, [], any, false, get_or, if◌then◌else◌, leb, length,
  ltb, none, not, ok, refuse_if, replicate, set, some, take, true, ℕ, ◌++◌, ◌-◌, ◌==◌, ◌>>◌, ◌||◌,
  ◌∷◌,
}
pub mod Codec
pub mod HostCodec
pub mod PresentationCodec
pub mod Image
pub mod Slots
pub mod Flash
pub mod Persistence
pub mod Durable

abbrev pub max_host_name_len : ℕ
max_host_name_len = 32

abbrev pub stored_hosts_max : ℕ
stored_hosts_max = host_slot_count

-- `bytes` is an array of 32 bytes, of which the first `len` count.
pub record FixedName : Type 0 where
  pub len : ℕ
  pub bytes : List ℕ

unfoldable pub empty_name : FixedName
empty_name = record { len = 0; bytes = replicate max_host_name_len 0 }

abbrev pub is_ascii : List ℕ → Bool
is_ascii bytes = not (any (λ byte. leb 128 byte) bytes)

unfoldable pub from_ascii : List ℕ → Option FixedName
from_ascii name =
    if ltb max_host_name_len (length name) || not (is_ascii name)
    then none
    else some
        (record { len = length name; bytes = write_at (replicate max_host_name_len 0) 0 name })

unfoldable pub name_bytes : FixedName → List ℕ
name_bytes name = take name.len name.bytes

pub data StoredAddressKind : Type 0 where
  public_address random_address : StoredAddressKind

pub data StoredSecurityLevel : Type 0 where
  no_encryption encrypted encrypted_authenticated : StoredSecurityLevel

-- The address has 6 bytes, the two keys have 16.
pub record StoredBond : Type 0 where
  pub peer_address : List ℕ
  pub peer_address_kind : StoredAddressKind
  pub peer_irk : Option (List ℕ)
  pub ltk : List ℕ
  pub is_bonded : Bool
  pub security_level : StoredSecurityLevel

pub record StoredHostProfile : Type 0 where
  pub host_id : HostId
  pub bonded : Bool
  pub keyboard_cccd_enabled : Bool
  pub mouse_cccd_enabled : Bool
  pub consumer_cccd_enabled : Bool
  pub keyboard_output_cccd_enabled : Bool
  pub name : FixedName
  pub bond : Option StoredBond

pub data StorageError : Type 0 where
  host_capacity invalid_host_id invalid_output_target duplicate_host_id : StorageError
  active_host_missing image_too_short invalid_magic unsupported_version : StorageError
  invalid_length crc_mismatch host_count_too_large invalid_name : StorageError
  flash_layout flash_read flash_erase flash_write flash_verify storage_unavailable : StorageError

pub record StorageState : Type 0 where
  pub generation : ℕ
  pub last_active_host : Option HostId
  pub global_settings : GlobalSettings
  pub input_profiles : InputProfileRegistry
  pub presentation : StoredPresentationConfig
  pub hosts : List StoredHostProfile

unfoldable pub new_state : ℕ → StorageState
unfolding default_global_settings new_registry default_presentation
new_state generation = record {
  generation = generation;
  last_active_host = none;
  global_settings = default_global_settings;
  input_profiles = new_registry;
  presentation = default_presentation;
  hosts = [];
}

unfoldable pub push_host : StorageState → StoredHostProfile → Result StorageError StorageState
push_host s host = do
  refuse_if (leb stored_hosts_max (length s.hosts)) host_capacity
  ok (record s { hosts = s.hosts ++ (host ∷ []) })

-- `seen` is the array of the ids met so far.
unfoldable pub validate_hosts : List Bool → List StoredHostProfile → Result StorageError (Unit {0})
validate_hosts seen [] = ok tt
validate_hosts seen (host ∷ hosts) = do
  refuse_if (host.host_id == 0) invalid_host_id
  refuse_if (leb stored_hosts_max (host.host_id - 1)) invalid_host_id
  refuse_if (get_or seen (host.host_id - 1) false) duplicate_host_id
  validate_hosts (set seen (host.host_id - 1) true) hosts

abbrev pub is_stored : List StoredHostProfile → HostId → Bool
is_stored hosts id = any (λ host. host.host_id == id) hosts

unfoldable pub validate_active :
    Option HostId → List StoredHostProfile → Result StorageError (Unit {0})
validate_active none hosts = ok tt
validate_active (some active) hosts = refuse_if (not (is_stored hosts active)) active_host_missing

unfoldable pub validate_state : StorageState → Result StorageError (Unit {0})
unfolding validate_hosts validate_active
validate_state s = do
  validate_hosts (replicate stored_hosts_max false) s.hosts
  validate_active s.last_active_host s.hosts
