-- ===== src/OutputTarget/Stored.antt =====
-- What src/output_target.rs keeps in storage: the chosen target, and the identity of a mirrored device.
use hidshift.OutputTarget.{OutputTarget, ble, wired}
use hidshift.Prelude.{
  write_at, List, Option, Result, is_none, length, ltb, none, ok, refuse_if, replicate, some, take,
  ℕ, ◌&&◌, ◌==◌, ◌>>◌,
}

pub data StoredOutputTarget : Type 0 where
  stored_wired : StoredOutputTarget
  stored_ble : ℕ → StoredOutputTarget

unfoldable pub as_output_target : StoredOutputTarget → OutputTarget
as_output_target stored_wired = wired
as_output_target (stored_ble slot) = ble slot

abbrev pub mirror_port_path_max_len : ℕ
mirror_port_path_max_len = 8

-- The port path is an array of eight bytes, of which the first `port_path_len` count.
pub record MirrorStableId : Type 0 where
  pub vendor_id : ℕ
  pub product_id : ℕ
  pub serial_hash : Option ℕ
  pub descriptor_hash : ℕ
  pub port_path_len : ℕ
  pub port_path_bytes : List ℕ

pub data MirrorStableIdError : Type 0 where
  missing_physical_location port_path_too_long : MirrorStableIdError

unfoldable pub new_stable_id :
    ℕ → ℕ → Option ℕ → ℕ → List ℕ → Result MirrorStableIdError MirrorStableId
new_stable_id vendor_id product_id serial_hash descriptor_hash port_path = do
  refuse_if (ltb mirror_port_path_max_len (length port_path)) port_path_too_long
  refuse_if (is_none serial_hash && (length port_path == 0)) missing_physical_location
  ok (record {
    vendor_id = vendor_id;
    product_id = product_id;
    serial_hash = serial_hash;
    descriptor_hash = descriptor_hash;
    port_path_len = length port_path;
    port_path_bytes = write_at (replicate mirror_port_path_max_len 0) 0 port_path;
  })

unfoldable pub synthetic : ℕ → MirrorStableId
synthetic descriptor_hash = record {
  vendor_id = 0xcafe;
  product_id = 0;
  serial_hash = some descriptor_hash;
  descriptor_hash = descriptor_hash;
  port_path_len = 0;
  port_path_bytes = replicate mirror_port_path_max_len 0;
}

unfoldable pub port_path : MirrorStableId → List ℕ
port_path s = take s.port_path_len s.port_path_bytes

pub record StoredPresentationConfig : Type 0 where
  pub output_target : StoredOutputTarget
  pub wired_ble_host : Option ℕ
  pub mirror_target : Option MirrorStableId

unfoldable pub default_presentation : StoredPresentationConfig
default_presentation = record {
  output_target = stored_wired;
  wired_ble_host = none;
  mirror_target = none;
}
