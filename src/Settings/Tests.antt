-- ===== src/Settings/Tests.antt =====
-- The shortcut of the unit test of src/settings.rs.
use hidshift.Settings.{from_packed, new_shortcut}
use hidshift.Prelude.{none, refl, ◌≡◌}

no_modifier_key : from_packed 0x00e0 ≡ none
unfolding from_packed new_shortcut
no_modifier_key = refl
