-- ===== src/Compose/Keys.antt =====
-- `onKeyDown`: the Tab key, with or without Shift.
-- `value.lastIndexOf("\n", s - 1) + 1`: the end of the last line end of the text, or 0. A position below 0
-- is searched as 0, so that the first unit is looked at also for `s` = 0.
use app_dockhand.Base.{refl, ap}
use Prim.Native.Nat.{ℕ, suc}
use app_dockhand.Base.{
  Text, ◌∷◌, take, if◌then◌else◌, Option, ◌≡◌, ◌++◌, drop, ◌==◌, leb, [], length, ◌+◌, none, ◌⊎◌,
  ◌∙◌, arith, inl, some, inr, length-append, ◌-◌,
}

unfoldable pub line_from : ℕ → ℕ → Text → ℕ
line_from i ls [] = ls
line_from i ls (c ∷ s) = line_from (suc i) (if c == 10 then suc i else ls) s

unfoldable pub line_start : Text → ℕ → ℕ
line_start value s = line_from 0 0 (take (if s == 0 then 1 else s) value)

-- `n`: how many blanks go away.
unfoldable pub blanks : Text → ℕ
blanks [] = 0
blanks (c ∷ []) = if c == b' ' then 1 else 0
blanks (c ∷ d ∷ s) = if c == b' ' then if d == b' ' then 2 else 1 else 0

abbrev pub larger : ℕ → ℕ → ℕ
larger a b = if leb a b then b else a

-- The text and the selection after the key, if it changes anything; `ls` is the start of the line.
abbrev pub outdent_at : ℕ → ℕ → Text → ℕ → ℕ → Option (Text × ℕ × ℕ)
outdent_at ls n value s en =
    if n == 0
    then none
    else some (take ls value ++ drop (ls + n) value, larger ls (s - n), larger ls (en - n))

abbrev pub outdent_line : ℕ → Text → ℕ → ℕ → Option (Text × ℕ × ℕ)
outdent_line ls value s en = outdent_at ls (blanks (drop ls value)) value s en

unfoldable pub outdent : Text → ℕ → ℕ → Option (Text × ℕ × ℕ)
outdent value s en = outdent_line (line_start value s) value s en

unfoldable pub indent : Text → ℕ → ℕ → Text × ℕ × ℕ
indent value s en = (take s value ++ b' ' ∷ b' ' ∷ drop en value, s + 2, s + 2)

-- A text that ends where a line does.
abbrev pub IsLines : Text → Type 0
IsLines a = (a ≡ []) ⊎ ((b : Text) × (a ≡ b ++ 10 ∷ []))

line_from-append :
    (a b : Text) (i ls : ℕ)
    → line_from i ls (a ++ b) ≡ line_from (i + length a) (line_from i ls a) b
unfolding line_from
line_from-append [] b i ls = ground arith
line_from-append (c ∷ a) b i ls =
    line_from-append a b (suc i) (if c == 10 then suc i else ls) ∙ ground arith

take-two :
    (a : Text) (c d : ℕ) (b : Text) → take (suc (suc (length a))) (a ++ c ∷ d ∷ b) ≡ a ++ c ∷ d ∷ []
take-two [] c d b = refl
take-two (x ∷ a) c d b = ap (λ t. x ∷ t) (take-two a c d b)

drop-two : (a : Text) (c d : ℕ) (b : Text) → drop (suc (suc (length a))) (a ++ c ∷ d ∷ b) ≡ b
drop-two [] c d b = refl
drop-two (x ∷ a) c d b = drop-two a c d b

take-length : (a b : Text) → take (length a) (a ++ b) ≡ a
take-length [] b = refl
take-length (c ∷ a) b = ap (λ t. c ∷ t) (take-length a b)

drop-length : (a b : Text) → drop (length a) (a ++ b) ≡ b
drop-length [] b = refl
drop-length (c ∷ a) b = drop-length a b

line_from-IsLines : (a : Text) → IsLines a → line_from 0 0 a ≡ length a
unfolding line_from
line_from-IsLines a (inl e) = rw e
line_from-IsLines a (inr (b, e)) =
    rw (e, line_from-append b (10 ∷ []) 0 0, length-append b (10 ∷ [])) (ground arith)

-- After two blanks are put in at the start of a line, that is still its start.
line_start-indented :
    (a b : Text) → IsLines a → line_start (a ++ b' ' ∷ b' ' ∷ b) (length a + 2) ≡ length a
unfolding line_start line_from
line_start-indented a b h =
    let e : (if length a + 2 == 0 then 1 else length a + 2) ≡ suc (suc (length a)) = ground arith in
    ap (λ n. line_from 0 0 (take n (a ++ b' ' ∷ b' ' ∷ b))) e
    ∙ ap (line_from 0 0) (take-two a b' ' b' ' b)
    ∙ line_from-append a (b' ' ∷ b' ' ∷ []) 0 0
    ∙ line_from-IsLines a h

indented :
    (a b : Text)
    → take (length a) (a ++ b) ++ b' ' ∷ b' ' ∷ drop (length a) (a ++ b) ≡ a ++ b' ' ∷ b' ' ∷ b
indented a b = rw (take-length a b, drop-length a b)

outdented :
    (a b : Text)
    → IsLines a
    → outdent (a ++ b' ' ∷ b' ' ∷ b) (length a + 2) (length a + 2)
      ≡ some (a ++ b, length a, length a)
unfolding outdent blanks
outdented a b h =
    let v = a ++ b' ' ∷ b' ' ∷ b in
    let s = length a + 2 in
    let e : length a + 2 ≡ suc (suc (length a)) = omega arith in
    let rest : drop (length a + 2) v ≡ b = ap (λ n. drop n v) e ∙ drop-two a b' ' b' ' b in
    let caret : larger (length a) (length a + 2 - 2) ≡ length a = ground arith in
    ap (λ ls. outdent_line ls v s s) (line_start-indented a b h)
    ∙ ap (λ w. outdent_at (length a) (blanks w) v s s) (drop-length a (b' ' ∷ b' ' ∷ b))
    ∙ rw (take-length a (b' ' ∷ b' ' ∷ b), rest, caret)

-- Shift and Tab after Tab, at the start of any line, give the text from before and the caret where it was.
pub outdent-indent :
    (a b : Text)
    → IsLines a
    → let (v, s, e) = indent (a ++ b) (length a) (length a) in
      outdent v s e ≡ some (a ++ b, length a, length a)
unfolding indent
outdent-indent a b h =
    ap (λ v. outdent v (length a + 2) (length a + 2)) (indented a b) ∙ outdented a b h
