-- ===== src/Palette/Score.antt =====
-- `score` of web/components/shell/CommandPalette.tsx, in tenths. The text is in lower case already.
use app_dockhand.Base.{
  none, some, ℕ, Bool, is_space, Option, Text, if◌then◌else◌, ◌||◌, true, starts_with, ◌∷◌, ◌+◌,
  ◌==◌, ◌*◌, length, is_empty, any, suc, ◌-◌, txt, min,
}
use app_dockhand.Base.Int.{ℤ, pos, negsuc, sub_ℕ}
use mathlib.Core.List.{[], [], []}

-- `[\s\-_/.:@]`
abbrev pub is_break : ℕ → Bool
is_break c = is_space c || any (λ d. c == d) (txt "-_/.:@")

-- A unit begins a word, after the unit before it.
abbrev pub begins_word : Option ℕ → Bool
begins_word none = true
begins_word (some c) = is_break c

abbrev pub one_later : Option (ℕ × Option ℕ) → Option (ℕ × Option ℕ)
one_later none = none
one_later (some (i, p)) = some (suc i, p)

abbrev pub one_further : Option (ℕ × Option ℕ × Text) → Option (ℕ × Option ℕ × Text)
one_further none = none
one_further (some (n, p, s)) = some (suc n, p, s)

-- `t.indexOf(q)`, with the unit before.
unfoldable pub index_of : Text → Option ℕ → Text → Option (ℕ × Option ℕ)
index_of q prev [] = if starts_with [] q then some (0, prev) else none
index_of q prev (c ∷ t) =
    let rest = index_of q (some c) t in
    if starts_with (c ∷ t) q then some (0, prev) else one_later rest

-- `t.indexOf(ch, ti)`: how far it is, the unit before, and the text after.
unfoldable pub find_unit : ℕ → Option ℕ → Text → Option (ℕ × Option ℕ × Text)
find_unit ch prev [] = none
find_unit ch prev (c ∷ t) =
    if c == ch then some (0, prev, t) else one_further (find_unit ch (some c) t)

-- `10 + run * 5 + (… ? 15 : 0) - Math.min(8, found - ti)`
abbrev pub unit_score : ℕ → ℕ → Option ℕ → ℕ
unit_score gap run prev = 10 + run * 5 + (if begins_word prev then 15 else 0) - min 8 gap

abbrev pub next_run : ℕ → ℕ → ℕ
next_run gap run = if gap == 0 then suc run else 0

abbrev pub add_score : ℕ → Option ℕ → Option ℕ
add_score n none = none
add_score n (some s) = some (n + s)

abbrev pub after_found :
    Option (ℕ × Option ℕ × Text) → ℕ → ℕ → (Option ℕ → Text → ℕ → Option ℕ) → Option ℕ
after_found none ch run continue = none
after_found (some (gap, prev, t)) ch run continue =
    add_score (unit_score gap (next_run gap run) prev) (continue (some ch) t (next_run gap run))

-- The loop, from the text at `ti` with the unit before it.
unfoldable pub score_units : Text → Option ℕ → Text → ℕ → Option ℕ
score_units [] prev t run = some 0
score_units (ch ∷ q) prev t run =
    let rest : Option ℕ → Text → ℕ → Option ℕ = λ p s r. score_units q p s r in
    if ch == 32 then rest prev t run else after_found (find_unit ch prev t) ch run rest

-- `1000 - idx * 2 - (t.length - q.length) * 0.1 + (… ? 200 : 0)`
abbrev pub whole_score : ℕ → Option ℕ → ℕ → ℕ → ℤ
whole_score idx prev t_length q_length =
    sub_ℕ (10000 + q_length + (if begins_word prev then 2000 else 0)) (20 * idx + t_length)

abbrev pub units_score : Option ℕ → ℤ
units_score none = negsuc 9
units_score (some s) = pos (10 * s)

abbrev pub score_found : Text → Text → Option (ℕ × Option ℕ) → ℤ
score_found q t (some (idx, prev)) = whole_score idx prev (length t) (length q)
score_found q t none = units_score (score_units q none t 0)

unfoldable pub score : Text → Text → ℤ
score q t = if is_empty q then pos 0 else score_found q t (index_of q none t)
