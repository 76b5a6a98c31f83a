-- ===== src/Shortcuts/Tests.antt =====
-- Keys to press, and the theorems applied to them.
use app_dockhand.Base.{[], refl, ℕ, Text, txt, text_eq, false, true, ◌≡◌, none, ◌≢◌}
use app_dockhand.Shortcuts.{Key, Keyboard, on_key, second_key, is_typing, is_after_g, dest}
use app_dockhand.Shortcuts.Chords.{is_elsewhere, on_key-elsewhere, on_key-push}

abbrev same : Text → Text
same s = s

abbrev plain_key : Text → ℕ → Key
plain_key k now = record {
  key = k;
  meta_key = false;
  ctrl_key = false;
  alt_key = false;
  shift_key = false;
  default_prevented = false;
  target = none;
  now = now;
}

abbrev at_rest : Keyboard
at_rest = record { palette_open = false; keys_open = false; blocked = false; g_at = 0 }

abbrev after_g : Keyboard
after_g = record { palette_open = false; keys_open = false; blocked = false; g_at = 5000 }

abbrev in_palette : Keyboard
in_palette = record { palette_open = true; keys_open = false; blocked = false; g_at = 5000 }

on_key-push_example :
    (is_elsewhere (plain_key (txt "m") 5900) after_g ≡ false)
    × (false ≡ false)
    × (is_after_g 5900 after_g ≡ true)
    × (false ≡ false)
    × (dest (txt "m") ≢ none)
    × ((on_key same (plain_key (txt "m") 5900) after_g).0.g_at ≡ 0)
unfolding on_key second_key text_eq is_typing
on_key-push_example = on_key-push same (plain_key (txt "m") 5900) after_g refl

on_key-elsewhere_example : on_key same (plain_key (txt "m") 5900) in_palette ≡ (in_palette, [])
on_key-elsewhere_example = on_key-elsewhere same (plain_key (txt "m") 5900) in_palette refl refl
