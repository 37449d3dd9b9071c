-- ===== src/Prelude/Words.antt =====
-- Little-endian words, as `to_le_bytes` and `from_le_bytes` lay them out.
use Prim.Native.Nat.{ℕ, ◌+◌, ◌*◌, ◌/◌, ◌%◌, ◌^◌, ◌<◌}
use mathlib.Core.Path.{◌≡◌}
use mathlib.Core.List.{List, [], ◌∷◌}
use native.Mathlib.Omega.{arith}
use hidshift.Prelude.Lists.{get_or, drop}

abbrev pub to_le16 : ℕ → List ℕ
to_le16 n = (n % 256) ∷ (n / 256 % 256) ∷ []

abbrev pub from_le16 : ℕ → ℕ → ℕ
from_le16 a b = a + b * 256

abbrev pub to_le32 : ℕ → List ℕ
to_le32 n = (n % 256) ∷ (n / 256 % 256) ∷ (n / 65536 % 256) ∷ (n / 16777216 % 256) ∷ []

abbrev pub from_le32 : ℕ → ℕ → ℕ → ℕ → ℕ
from_le32 a b c d = a + b * 256 + c * 65536 + d * 16777216

pub from-to_le16 : (n : ℕ) → n < 2 ^ 16 → from_le16 (n % 256) (n / 256 % 256) ≡ n
from-to_le16 n h = omega arith

pub from-to_le32 :
    (n : ℕ)
    → n < 2 ^ 32
    → from_le32 (n % 256) (n / 256 % 256) (n / 65536 % 256) (n / 16777216 % 256) ≡ n
from-to_le32 n h = omega arith

abbrev pub to_le64 : ℕ → List ℕ
to_le64 n =
    (n % 256)
    ∷ (n / 256 % 256)
    ∷ (n / 65536 % 256)
    ∷ (n / 16777216 % 256)
    ∷ (n / 4294967296 % 256)
    ∷ (n / 1099511627776 % 256)
    ∷ (n / 281474976710656 % 256)
    ∷ (n / 72057594037927936 % 256)
    ∷ []

abbrev pub byte_of : List ℕ → ℕ → ℕ
byte_of bytes i = get_or bytes i 0

-- `read_u16`, `read_u32` and `read_u64` of a slice.
abbrev pub read_u16 : List ℕ → ℕ
read_u16 bytes = from_le16 (byte_of bytes 0) (byte_of bytes 1)

abbrev pub read_u32 : List ℕ → ℕ
read_u32 bytes = from_le32 (byte_of bytes 0) (byte_of bytes 1) (byte_of bytes 2) (byte_of bytes 3)

abbrev pub read_u64 : List ℕ → ℕ
read_u64 bytes = read_u32 bytes + 4294967296 * read_u32 (drop 4 bytes)

pub read_u16-to_le16 : (n : ℕ) → n < 2 ^ 16 → read_u16 (to_le16 n) ≡ n
read_u16-to_le16 n h = omega arith

pub read_u32-to_le32 : (n : ℕ) → n < 2 ^ 32 → read_u32 (to_le32 n) ≡ n
read_u32-to_le32 n h = omega arith

pub read_u64-to_le64 : (n : ℕ) → n < 2 ^ 64 → read_u64 (to_le64 n) ≡ n
read_u64-to_le64 n h = omega arith
