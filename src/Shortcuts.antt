-- ===== src/Shortcuts.antt =====
-- web/components/shell/Shortcuts.tsx: the keyboard shortcuts of the whole page. What the document
-- says of the element with the focus comes with the key, and the time of the clock too; `toLowerCase`
-- is a parameter.
pub mod Chords
mod Tests
use app_dockhand.Base.{
  refl, ℕ, Bool, Text, Option, not, false, if◌then◌else◌, ◌==◌, List, ◌||◌, some, text_eq, ◌&&◌, [],
  is_empty, txt, ltb, ◌∷◌, ◌-◌, true,
}
use mathlib.Core.Option.{none}

-- The element that has the focus.
pub record Focus : Type 0 where
  pub tag_name : Text
  pub is_content_editable : Bool
  pub in_xterm : Bool
  pub in_editable : Bool

unfoldable pub is_typing : Option Focus → Bool
is_typing none = false
is_typing (some el) =
    if is_empty el.tag_name
    then false
    else text_eq el.tag_name (txt "INPUT")
      || text_eq el.tag_name (txt "TEXTAREA")
      || text_eq el.tag_name (txt "SELECT")
      || el.is_content_editable
      || el.in_xterm
      || el.in_editable

abbrev pub is_in_xterm : Option Focus → Bool
is_in_xterm none = false
is_in_xterm (some el) = el.in_xterm

pub record Key : Type 0 where
  pub key : Text
  pub meta_key : Bool
  pub ctrl_key : Bool
  pub alt_key : Bool
  pub shift_key : Bool
  pub default_prevented : Bool
  pub target : Option Focus
  pub now : ℕ

pub record Keyboard : Type 0 where
  pub palette_open : Bool
  pub keys_open : Bool
  pub blocked : Bool
  pub g_at : ℕ

-- What a key does besides.
pub data Act : Type 0 where
  prevent_default open_notifications toggle_theme : Act
  push : Text → Act

abbrev pub dest : Text → Option Text
dest k =
    if text_eq k (txt "f")
    then some (txt "/")
    else if text_eq k (txt "r")
    then some (txt "/resources")
    else if text_eq k (txt "m")
    then some (txt "/machines")
    else if text_eq k (txt "d")
    then some (txt "/deploy")
    else if text_eq k (txt "u")
    then some (txt "/uptime")
    else if text_eq k (txt "a")
    then some (txt "/alerts")
    else if text_eq k (txt "s")
    then some (txt "/settings/hosts")
    else none

-- A `G` was pressed less than 1200 ms ago.
abbrev pub is_after_g : ℕ → Keyboard → Bool
is_after_g now st = not (st.g_at == 0) && ltb (now - st.g_at) 1200

module _ (to_lower : Text → Text) where
  -- The keys that stand for themselves.
  unfoldable pub single_key : Key → Keyboard → Keyboard × List Act
  single_key e st =
      let lower = to_lower e.key in
      if text_eq e.key (txt "?")
      then (record st { keys_open = true }, prevent_default ∷ [])
      else if text_eq e.key (txt "/")
      then (record st { palette_open = true }, prevent_default ∷ [])
      else if text_eq lower (txt "g") && not e.shift_key
      then (record st { g_at = e.now }, [])
      else if text_eq lower (txt "n") && not e.shift_key
      then (st, prevent_default ∷ open_notifications ∷ [])
      else if text_eq lower (txt "t") && not e.shift_key
      then (st, prevent_default ∷ toggle_theme ∷ [])
      else (st, [])

  unfoldable pub second_key : Option Text → Key → Keyboard → Keyboard × List Act
  second_key (some path) e st = (record st { g_at = 0 }, prevent_default ∷ push path ∷ [])
  second_key none e st = single_key e (record st { g_at = 0 })

  abbrev pub is_palette_key : Key → Bool
  is_palette_key e =
      (e.meta_key || e.ctrl_key)
      && not e.alt_key
      && not e.shift_key
      && text_eq (to_lower e.key) (txt "k")

  unfoldable pub on_key : Key → Keyboard → Keyboard × List Act
  on_key e st =
      if e.default_prevented
      then (st, [])
      else if is_palette_key e
      then (if st.blocked || is_in_xterm e.target
          then (st, [])
          else (record st { palette_open = not st.palette_open }, prevent_default ∷ []))
      else if e.meta_key || e.ctrl_key || e.alt_key
      then (st, [])
      else if st.blocked || st.palette_open || is_typing e.target
      then (st, [])
      else if st.keys_open
      then (if text_eq e.key (txt "?")
          then (record st { keys_open = false }, prevent_default ∷ [])
          else (st, []))
      else if is_after_g e.now st
      then second_key (dest (to_lower e.key)) e st
      else single_key e st
