-- ===== src/Checksum/Tests.antt =====
-- The standard check values, as in the unit tests of src/checksum.rs.
use hidshift.Checksum.{crc16_ccitt_false, crc32_ieee}
use hidshift.Prelude.{List, [], refl, ℕ, ◌∷◌, ◌≡◌}

abbrev digits_1_to_9 : List ℕ
digits_1_to_9 = b'1' ∷ b'2' ∷ b'3' ∷ b'4' ∷ b'5' ∷ b'6' ∷ b'7' ∷ b'8' ∷ b'9' ∷ []

crc16_check_value : crc16_ccitt_false digits_1_to_9 ≡ 0x29b1
unfolding crc16_ccitt_false
crc16_check_value = refl

crc32_check_value : crc32_ieee digits_1_to_9 ≡ 0xcbf4_3926
unfolding crc32_ieee
crc32_check_value = refl
