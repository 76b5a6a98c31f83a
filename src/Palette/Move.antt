-- ===== src/Palette/Move.antt =====
-- The keys of web/components/shell/CommandPalette.tsx. The entries may change while it is open; a new
-- query sets the first entry active. `to_lower` stands for `toLowerCase`.
use app_dockhand.Base.{
  none, some, refl, ℕ, Bool, Text, if◌then◌else◌, Option, List, ◌<◌, ◌==◌, true, length, ◌∷◌, [],
  ◌≡◌, suc, ◌+◌, get_elem?, false, ◌%◌, ◌-◌, text_eq, ltb, Bool-cases, arith, ◌∙◌, ap, inl, inr,
  sym,
}
use mathlib.Core.Path.{subst}
use native.Mathlib.Nat.{mod_self, mod-eq_of_lt, add-mod_right}
use app_dockhand.Palette.Items.{Item}
use app_dockhand.Palette.Results.{flat}
use Prim.Native.Nat.{zero}

pub record Palette : Type 0 where
  pub q : Text
  pub active : ℕ
  pub items : List Item
  pub closed : Bool
  pub ran : Option Item

pub data PaletteEvent : Type 0 where
  arrow_down arrow_up enter escape : PaletteEvent
  type_query : Text → PaletteEvent
  point click : ℕ → PaletteEvent
  reload : List Item → PaletteEvent

-- `(a + 1) % flat.length` and `(a - 1 + flat.length) % flat.length`, 0 of an empty list. The position
-- is below 2^53; one above it is never reached.
abbrev pub next : ℕ → ℕ → ℕ
next a n = if n == 0 then 0 else suc a % n

abbrev pub prev : ℕ → ℕ → ℕ
prev a n = if n == 0 then 0 else (a + n - 1) % n

abbrev pub run_item : Option Item → Palette → Palette
run_item none p = p
run_item (some it) p = record p { closed = true; ran = some it }

module _ (to_lower : Text → Text) where
  -- What an event does while the palette is open.
  abbrev pub open_step : PaletteEvent → Palette → Palette
  open_step arrow_down p = record p { active = next p.active (length (flat to_lower p.items p.q)) }
  open_step arrow_up p = record p { active = prev p.active (length (flat to_lower p.items p.q)) }
  open_step enter p = run_item (get_elem? (flat to_lower p.items p.q) p.active) p
  open_step escape p = record p { closed = true }
  open_step (type_query s) p = if text_eq s p.q then p else record p { q = s; active = 0 }
  open_step (point i) p =
      if ltb i (length (flat to_lower p.items p.q)) then record p { active = i } else p
  open_step (click i) p = run_item (get_elem? (flat to_lower p.items p.q) i) p
  open_step (reload items) p = record p { items = items }

  unfoldable pub palette_step : PaletteEvent → Palette → Palette
  palette_step e p = if p.closed then p else open_step e p

  abbrev pub palette_run : Palette → List PaletteEvent → Palette
  palette_run p [] = p
  palette_run p (e ∷ es) = palette_run (palette_step e p) es

abbrev pub open_palette : List Item → Palette
open_palette items = record { q = []; active = 0; items = items; closed = false; ran = none }

next-cases : (a n : ℕ) → a < n → next a n ≡ (if suc a == n then 0 else suc a)
next-cases a n h = elim (Bool-cases (suc a == n)) [
  | inl y ↦
      let e : suc a ≡ n = ground arith in
      let z : (n == 0) ≡ false = ground arith in rw (z, y) (ap (λ k. k % n) e ∙ mod_self n)
  | inr off ↦
      let z : (n == 0) ≡ false = ground arith in
      let l : suc a < n = ground arith in rw (z, off) (mod-eq_of_lt l)
]

prev-cases : (a n : ℕ) → a < n → prev a n ≡ (if a == 0 then n - 1 else a - 1)
prev-cases zero n h =
    let z : (n == 0) ≡ false = ground arith in
    let l : n - 1 < n = omega arith in
    let e : 0 + n - 1 ≡ n - 1 = omega arith in rw z (ap (λ k. k % n) e ∙ mod-eq_of_lt l)
prev-cases (suc a) n h =
    let z : (n == 0) ≡ false = ground arith in
    let e : suc a + n - 1 ≡ a + n = omega arith in
    let l : a < n = omega arith in
    let m : a ≡ (if suc a == 0 then n - 1 else suc a - 1) = ground arith in
    rw z (ap (λ k. k % n) e ∙ add-mod_right a n ∙ mod-eq_of_lt l ∙ m)

next-lt : (a n : ℕ) → a < n → next a n < n
next-lt a n h = rw (next-cases a n h) (ground arith)

prev-lt : (a n : ℕ) → a < n → prev a n < n
prev-lt a n h = rw (prev-cases a n h) (ground arith)

prev-next : (a n : ℕ) → a < n → prev (next a n) n ≡ a
prev-next a n h = prev-cases (next a n) n (next-lt a n h) ∙ rw (next-cases a n h) (ground arith)

next-prev : (a n : ℕ) → a < n → next (prev a n) n ≡ a
next-prev a n h = next-cases (prev a n) n (prev-lt a n h) ∙ rw (prev-cases a n h) (ground arith)

module _ (to_lower : Text → Text) (p : Palette) (e : p.closed ≡ false) where
  down :
      palette_step to_lower arrow_down p
      ≡ record p { active = next p.active (length (flat to_lower p.items p.q)) }
  unfolding palette_step
  down =
      ap
        (λ b.
          if b then p else record p { active = next p.active (length (flat to_lower p.items p.q)) })
        e

  up :
      palette_step to_lower arrow_up p
      ≡ record p { active = prev p.active (length (flat to_lower p.items p.q)) }
  unfolding palette_step
  up =
      ap
        (λ b.
          if b then p else record p { active = prev p.active (length (flat to_lower p.items p.q)) })
        e

-- While the active entry is one that is shown, the arrows stay among those and undo each other.
pub arrows-inverse :
    (to_lower : Text → Text) (p : Palette)
    → p.closed ≡ false
    → p.active < length (flat to_lower p.items p.q)
    → (palette_step to_lower arrow_up (palette_step to_lower arrow_down p) ≡ p)
      × (palette_step to_lower arrow_down (palette_step to_lower arrow_up p) ≡ p)
      × ((palette_step to_lower arrow_down p).active < length (flat to_lower p.items p.q))
      × ((palette_step to_lower arrow_up p).active < length (flat to_lower p.items p.q))
arrows-inverse to_lower p e h =
    let n = length (flat to_lower p.items p.q) in
    (
      ap (palette_step to_lower arrow_up) (down to_lower p e)
          ∙ up to_lower (record p { active = next p.active n }) e
          ∙ ap (λ a. record p { active = a }) (prev-next p.active n h),
      ap (palette_step to_lower arrow_down) (up to_lower p e)
          ∙ down to_lower (record p { active = prev p.active n }) e
          ∙ ap (λ a. record p { active = a }) (next-prev p.active n h),
      rw (down to_lower p e) (next-lt p.active n h),
      rw (up to_lower p e) (prev-lt p.active n h),
    )

-- It has run nothing, or has closed and run an entry that it showed.
abbrev pub HasRun : Bool → Option Item → List Item → Type 0
HasRun closed none shown = Unit
HasRun closed (some it) shown = (closed ≡ true) × (i : ℕ) × (get_elem? shown i ≡ some it)

module _ (to_lower : Text → Text) where
  abbrev pub IsIdle : Palette → Type 0
  IsIdle p = (p.closed ≡ false → p.ran ≡ none) × HasRun p.closed p.ran (flat to_lower p.items p.q)

  idle : (p : Palette) → p.ran ≡ none → IsIdle p
  idle p h = (λ e. h, rw h tt)

  run_item-IsIdle :
      (o : Option Item) (i : ℕ) (p : Palette)
      → get_elem? (flat to_lower p.items p.q) i ≡ o
      → p.ran ≡ none
      → IsIdle (run_item o p)
  run_item-IsIdle none i p e h = idle p h
  run_item-IsIdle (some it) i p e h = (λ q. cc, (refl, i, e))

  open_step-IsIdle :
      (e : PaletteEvent) (p : Palette) → p.ran ≡ none → IsIdle (open_step to_lower e p)
  open_step-IsIdle arrow_down p h = (λ e. h, rw h tt)
  open_step-IsIdle arrow_up p h = (λ e. h, rw h tt)
  open_step-IsIdle enter p h = run_item-IsIdle _ p.active p refl h
  open_step-IsIdle escape p h = (λ e. h, rw h tt)
  open_step-IsIdle (type_query s) p h = elim (Bool-cases (text_eq s p.q)) [
    | inl y ↦ rw y (idle p h)
    | inr off ↦ rw off ((λ e. h, rw h tt))
  ]
  open_step-IsIdle (point i) p h = elim (Bool-cases (ltb i (length (flat to_lower p.items p.q)))) [
    | inl y ↦ rw y ((λ e. h, rw h tt))
    | inr off ↦ rw off (idle p h)
  ]
  open_step-IsIdle (click i) p h = run_item-IsIdle _ i p refl h
  open_step-IsIdle (reload items) p h = (λ e. h, rw h tt)

  step-IsIdle : (e : PaletteEvent) (p : Palette) → IsIdle p → IsIdle (palette_step to_lower e p)
  unfolding palette_step
  step-IsIdle e p h = elim (Bool-cases p.closed) [
    | inl y ↦ subst (λ b. IsIdle (if b then p else open_step to_lower e p)) (sym y) h
    | inr off ↦
        subst (λ b. IsIdle (if b then p else open_step to_lower e p)) (sym off)
          (open_step-IsIdle e p (h.0 off))
  ]

  run-IsIdle :
      (p : Palette) (es : List PaletteEvent) → IsIdle p → IsIdle (palette_run to_lower p es)
  run-IsIdle p [] h = h
  run-IsIdle p (e ∷ es) h = run-IsIdle (palette_step to_lower e p) es (step-IsIdle e p h)

-- Whatever is typed, pressed, pointed at and loaded anew: the palette runs nothing while it stays
-- open, and what it has run when it is closed is one of the entries that it showed.
pub palette_run-HasRun :
    (to_lower : Text → Text) (items : List Item) (es : List PaletteEvent)
    → let p = palette_run to_lower (open_palette items) es in
      (p.closed ≡ false → p.ran ≡ none) × HasRun p.closed p.ran (flat to_lower p.items p.q)
palette_run-HasRun to_lower items es =
    run-IsIdle to_lower (open_palette items) es (idle to_lower (open_palette items) refl)
