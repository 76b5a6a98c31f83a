-- ===== src/Shell/Theme.antt =====
-- web/lib/theme.ts, and what web/components/shell/AppShell.tsx does with it. Nothing but `applyTheme`
-- writes the key, so what it holds is a theme; the media query is part of the state.
use app_dockhand.Base.{
  none, some, refl, Bool, Option, if◌then◌else◌, true, List, ◌≡◌, false, some, ◌∷◌, arith, ◌∙◌, ap,
  sym,
}
use app_dockhand.Types.Account.{Theme}
use mathlib.Core.List.{[], []}

-- The key in the storage, whether there is one, what the browser prefers, and the class of the page.
pub record Page : Type 0 where
  pub storage : Bool
  pub stored : Option Theme
  pub prefers_dark : Bool
  pub dark : Bool
  pub theme : Theme

unfoldable pub stored_theme : Page → Theme
stored_theme p =
    if p.storage then elim p.stored [ none ↦ Theme.system | some t ↦ t ] else Theme.system

unfoldable pub is_dark : Theme → Bool → Bool
is_dark Theme.dark prefers_dark = true
is_dark Theme.system prefers_dark = prefers_dark
is_dark Theme.light prefers_dark = false

unfoldable pub apply_theme : Theme → Page → Page
apply_theme t p = record p {
  stored = if p.storage then some t else p.stored;
  dark = is_dark t p.prefers_dark;
}

unfoldable pub set_theme : Theme → Page → Page
set_theme t p = apply_theme t (record p { theme = t })

unfoldable pub toggle_theme : Page → Page
toggle_theme p = set_theme (if is_dark p.theme p.prefers_dark then Theme.light else Theme.dark) p

abbrev pub if_system : Theme → Page → Page
if_system Theme.system p = apply_theme Theme.system p
if_system _ p = p

-- The media query's listener.
unfoldable pub media_change : Bool → Page → Page
media_change prefers_dark p =
    let q = record p { prefers_dark = prefers_dark } in if_system (stored_theme q) q

-- The first effect; the server's theme may be missing.
unfoldable pub start : Option Theme → Page → Page
start user_theme p = set_theme (elim user_theme [ none ↦ stored_theme p | some t ↦ t ]) p

pub data ThemeEvent : Type 0 where
  choose : Theme → ThemeEvent
  toggle : ThemeEvent
  change : Bool → ThemeEvent

unfoldable pub theme_step : ThemeEvent → Page → Page
theme_step (choose t) p = set_theme t p
theme_step toggle p = toggle_theme p
theme_step (change b) p = media_change b p

abbrev pub theme_run : Page → List ThemeEvent → Page
theme_run p [] = p
theme_run p (e ∷ es) = theme_run (theme_step e p) es

-- The page looks as the theme says, and the storage holds the theme.
pub record IsApplied (p : Page) : Type 0 where
  pub storage_eq : p.storage ≡ true
  pub stored_eq : p.stored ≡ some p.theme
  pub dark_eq : p.dark ≡ is_dark p.theme p.prefers_dark

set_theme-IsApplied : (t : Theme) (p : Page) → p.storage ≡ true → IsApplied (set_theme t p)
unfolding set_theme apply_theme
set_theme-IsApplied t p h = record { storage_eq = h; stored_eq = rw h refl; dark_eq = refl }

stored_theme-eq : (p : Page) → p.storage ≡ true → p.stored ≡ some p.theme → stored_theme p ≡ p.theme
unfolding stored_theme
stored_theme-eq p h k = ground arith

if_system-IsApplied :
    (t : Theme) (p : Page)
    → p.theme ≡ t
    → p.storage ≡ true
    → p.stored ≡ some t
    → (b : Bool) → p.dark ≡ is_dark t b
    → IsApplied (if_system t (record p { prefers_dark = p.prefers_dark }))
unfolding apply_theme is_dark
if_system-IsApplied Theme.system p e s k b d = record {
  storage_eq = s;
  stored_eq = rw (s, e) refl;
  dark_eq = rw e refl;
}
if_system-IsApplied Theme.light p e s k b d = record {
  storage_eq = s;
  stored_eq = k ∙ ap some (sym e);
  dark_eq = rw e d;
}
if_system-IsApplied Theme.dark p e s k b d = record {
  storage_eq = s;
  stored_eq = k ∙ ap some (sym e);
  dark_eq = rw e d;
}

media_change-IsApplied : (b : Bool) (p : Page) → IsApplied p → IsApplied (media_change b p)
unfolding media_change
media_change-IsApplied b p h =
    let q = record p { prefers_dark = b } in
    rw (stored_theme-eq q h.storage_eq h.stored_eq)
      (if_system-IsApplied p.theme q refl h.storage_eq h.stored_eq p.prefers_dark h.dark_eq)

step-IsApplied : (e : ThemeEvent) (p : Page) → IsApplied p → IsApplied (theme_step e p)
unfolding theme_step toggle_theme
step-IsApplied (choose t) p h = set_theme-IsApplied t p h.storage_eq
step-IsApplied toggle p h = set_theme-IsApplied _ p h.storage_eq
step-IsApplied (change b) p h = media_change-IsApplied b p h

run-IsApplied : (p : Page) (es : List ThemeEvent) → IsApplied p → IsApplied (theme_run p es)
run-IsApplied p [] h = h
run-IsApplied p (e ∷ es) h = run-IsApplied (theme_step e p) es (step-IsApplied e p h)

-- With storage available, after the start and whatever themes are chosen and the browser prefers, the
-- page is dark exactly as the theme asks for it, and the theme is the one that is stored.
pub theme_run-IsApplied :
    (user_theme : Option Theme) (p : Page) (es : List ThemeEvent)
    → p.storage ≡ true
    → IsApplied (theme_run (start user_theme p) es)
unfolding start
theme_run-IsApplied user_theme p es h = run-IsApplied _ es (set_theme-IsApplied _ p h)
