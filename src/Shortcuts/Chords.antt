-- ===== src/Shortcuts/Chords.antt =====
-- When the shortcuts act.
use app_dockhand.Base.{
  Bool, Text, ◌||◌, true, any, ◌≡◌, false, text_eq, arith, [], txt, ◌<◌, ◌≢◌, ◌+◌, none, some, ◌∷◌,
}
use app_dockhand.Shortcuts.{
  Key, Act, Keyboard, push, single_key, on_key, is_typing, second_key, is_palette_key, is_after_g,
  dest, prevent_default,
}

abbrev pub is_push : Act → Bool
is_push (push path) = true
is_push _ = false

-- The keys of the page are not those of a shortcut: it is blocked, the palette is open, or the user
-- is typing.
abbrev pub is_elsewhere : Key → Keyboard → Bool
is_elsewhere e st = st.blocked || st.palette_open || is_typing e.target

module _ (to_lower : Text → Text) where
  single_key-quiet : (e : Key) (st : Keyboard) → any is_push (single_key to_lower e st).1 ≡ false
  unfolding single_key
  single_key-quiet e st = ground arith

  -- A key leaves the page only as the second of a chord: with no modifier but shift, not where the
  -- user types or a dialog is open, less than 1200 ms after a G; and the chord is over then.
  pub on_key-push :
      (e : Key) (st : Keyboard)
      → any is_push (on_key to_lower e st).1 ≡ true
      → (is_elsewhere e st ≡ false)
        × (st.keys_open ≡ false)
        × (is_after_g e.now st ≡ true)
        × (e.meta_key || e.ctrl_key || e.alt_key ≡ false)
        × (dest (to_lower e.key) ≢ none)
        × ((on_key to_lower e st).0.g_at ≡ 0)
  unfolding on_key second_key
  on_key-push e st h =
      ground (arith, single_key-quiet e st, single_key-quiet e (record st { g_at = 0 }))

  -- Where the user types, the palette is open or the shortcuts are blocked, a key changes nothing
  -- unless it is the one that toggles the palette.
  pub on_key-elsewhere :
      (e : Key) (st : Keyboard)
      → is_elsewhere e st ≡ true
      → is_palette_key to_lower e ≡ false
      → on_key to_lower e st ≡ (st, [])
  unfolding on_key
  on_key-elsewhere e st h k = ground arith

  -- A G and then, less than 1200 ms later, the key of a page go to that page, and the chord is over:
  -- with no modifier, where the user does not type, and with no dialog open.
  on_key-chord :
      (g e : Key) (st : Keyboard) (path : Text)
      → text_eq (to_lower g.key) (txt "g") ≡ true
      → text_eq g.key (txt "?") ≡ false
      → text_eq g.key (txt "/") ≡ false
      → is_after_g g.now st ≡ false
      → g.default_prevented || g.meta_key || g.ctrl_key || g.alt_key || g.shift_key ≡ false
      → e.default_prevented || e.meta_key || e.ctrl_key || e.alt_key ≡ false
      → is_elsewhere g st ≡ false
      → is_elsewhere e st ≡ false
      → st.keys_open ≡ false
      → 0 < g.now
      → e.now < g.now + 1200
      → dest (to_lower e.key) ≡ some path
      → on_key to_lower e (on_key to_lower g st).0
        ≡ (record st { g_at = 0 }, prevent_default ∷ push path ∷ [])
  unfolding on_key single_key second_key
  on_key-chord g e st path a q s n m1 m2 l1 l2 ko pos_now soon d = ground arith
