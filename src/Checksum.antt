-- ===== src/Checksum.antt =====
-- src/checksum.rs, bit by bit: CRC-16/CCITT-FALSE and CRC-32/IEEE.
use hidshift.Prelude.{
  List, [], if◌then◌else◌, not, suc, zero, ℕ, ◌%◌, ◌*◌, ◌-◌, ◌/◌, ◌==◌, ◌^◌, ◌∷◌,
}
pub mod Bounds
mod Tests
use Prim.Native.Nat.{bit_and, bit_xor}

-- `crc << 1` on a u16.
abbrev pub shl16 : ℕ → ℕ
shl16 crc = crc * 2 % 65536

unfoldable pub crc16_bit : ℕ → ℕ
crc16_bit crc = if not (bit_and crc 0x8000 == 0) then bit_xor (shl16 crc) 0x1021 else shl16 crc

-- `for _ in 0..8`
abbrev pub repeat : ℕ → (ℕ → ℕ) → ℕ → ℕ
repeat zero f x = x
repeat (suc n) f x = repeat n f (f x)

-- One round of the loop over the bytes.
unfoldable pub crc16_byte : ℕ → ℕ → ℕ
unfolding crc16_bit
crc16_byte crc byte = repeat 8 crc16_bit (bit_xor crc (byte * 256 % 65536))

unfoldable pub crc16_from : ℕ → List ℕ → ℕ
unfolding crc16_byte
crc16_from crc [] = crc
crc16_from crc (byte ∷ bytes) = crc16_from (crc16_byte crc byte) bytes

unfoldable pub crc16_ccitt_false : List ℕ → ℕ
unfolding crc16_from
crc16_ccitt_false bytes = crc16_from 0xffff bytes

pub record Crc32 : Type 0 where
  pub state : ℕ

unfoldable pub new : Crc32
new = record { state = 0xffff_ffff }

-- `mask` is 0 or all ones: `(self.state & 1).wrapping_neg()`.
unfoldable pub crc32_bit : ℕ → ℕ
crc32_bit state =
    let mask = (2 ^ 32 - bit_and state 1) % 2 ^ 32 in bit_xor (state / 2) (bit_and 0xedb8_8320 mask)

unfoldable pub crc32_byte : Crc32 → ℕ → Crc32
unfolding crc32_bit
crc32_byte c byte = record { state = repeat 8 crc32_bit (bit_xor c.state byte) }

unfoldable pub update : Crc32 → List ℕ → Crc32
unfolding crc32_byte
update c [] = c
update c (byte ∷ bytes) = update (crc32_byte c byte) bytes

-- `!self.state`
unfoldable pub finalize : Crc32 → ℕ
finalize c = 2 ^ 32 - 1 - c.state

unfoldable pub crc32_ieee : List ℕ → ℕ
unfolding new update finalize
crc32_ieee bytes = finalize (update new bytes)
