-- ===== src/Settings/Shortcut.antt =====
-- The packed form of the shortcuts of src/settings.rs.
use hidshift.Settings.{KeyboardShortcut, disabled_shortcut, from_packed, new_shortcut, packed}
use hidshift.Prelude.{arith, from_le16, refl, some, ℕ, ◌%◌, ◌/◌, ◌<◌, ◌^◌, ◌≡◌, ◌≤◌, ◌⊎◌}

-- The shortcuts there are: the disabled one, and a key that is no modifier with any modifiers.
pub data IsShortcut : KeyboardShortcut → Type 0 where
  off : IsShortcut disabled_shortcut
  chord :
      (modifiers key : ℕ)
      → modifiers < 256
      → 1 ≤ key
      → key < 256
      → (key < 0xe0) ⊎ (0xe7 < key)
      → IsShortcut (record { modifiers = modifiers; key = key })

-- A shortcut that `from_packed` or `new` can give is found again from its packed form.
pub from_packed-packed : (s : KeyboardShortcut) → IsShortcut s → from_packed (packed s) ≡ some s
unfolding from_packed packed new_shortcut disabled_shortcut
from_packed-packed _ off = refl
from_packed-packed _ (chord modifiers key m low high free) =
    let k : from_le16 key modifiers % 256 ≡ key = omega arith in
    let n : from_le16 key modifiers / 256 % 256 ≡ modifiers = omega arith in
    rw (k, n) (ground arith)

pub packed-lt : (s : KeyboardShortcut) → IsShortcut s → packed s < 2 ^ 16
unfolding packed disabled_shortcut
packed-lt _ off = omega arith
packed-lt _ (chord modifiers key m low high free) = omega arith
