-- ===== src/Checksum/Bounds.antt =====
-- The checksums of src/checksum.rs stay within their width, and a checksum taken in parts is that of
-- the whole.
use Prim.Native.Nat.{bit_xor}
use hidshift.Prelude.Bits.{bit_xor-lt}
use hidshift.Interchip.Recovery.Quiet.{step}
use hidshift.Checksum.{
  crc16_byte, crc32_byte, Crc32, crc16_bit, crc16_ccitt_false, crc16_from, repeat, shl16, update,
}
use hidshift.Prelude.{List, [], arith, refl, suc, zero, ℕ, ◌%◌, ◌*◌, ◌++◌, ◌<◌, ◌^◌, ◌∷◌, ◌≡◌}

crc16_bit-lt : (crc : ℕ) → crc < 2 ^ 16 → crc16_bit crc < 2 ^ 16
unfolding crc16_bit
crc16_bit-lt crc h = ground (arith, bit_xor-lt 16 (shl16 crc) 0x1021)

repeat-lt :
    (k n : ℕ) (f : ℕ → ℕ) (x : ℕ)
    → ((y : ℕ) → y < 2 ^ k → f y < 2 ^ k)
    → x < 2 ^ k
    → repeat n f x < 2 ^ k
repeat-lt k zero f x step h = h
repeat-lt k (suc n) f x step h = repeat-lt k n f (f x) step (step x h)

crc16_byte-lt : (crc byte : ℕ) → crc < 2 ^ 16 → crc16_byte crc byte < 2 ^ 16
unfolding crc16_byte
crc16_byte-lt crc byte h =
    repeat-lt 16 8 crc16_bit (bit_xor crc (byte * 256 % 65536)) crc16_bit-lt
      (bit_xor-lt 16 crc (byte * 256 % 65536) h (omega arith))

crc16_from-lt : (crc : ℕ) (bytes : List ℕ) → crc < 2 ^ 16 → crc16_from crc bytes < 2 ^ 16
unfolding crc16_from
crc16_from-lt crc [] h = h
crc16_from-lt crc (byte ∷ bytes) h =
    crc16_from-lt (crc16_byte crc byte) bytes (crc16_byte-lt crc byte h)

pub crc16_ccitt_false-lt : (bytes : List ℕ) → crc16_ccitt_false bytes < 2 ^ 16
unfolding crc16_ccitt_false
crc16_ccitt_false-lt bytes = crc16_from-lt 0xffff bytes (omega arith)

-- Feeding the bytes in two calls of `update` gives the state that one call gives.
update-append : (c : Crc32) (xs ys : List ℕ) → update c (xs ++ ys) ≡ update (update c xs) ys
unfolding update
update-append c [] ys = refl
update-append c (x ∷ xs) ys = update-append (crc32_byte c x) xs ys
