-- ===== src/Image/Quote.antt =====
-- `shellQuote` of web/components/deploy/ImageFlow.tsx, and how a POSIX shell reads words, of which
-- the source knows nothing: quotes, escapes and blanks, and no word with an operator or an expansion.
use mathlib.Core.Path.{fun_ext}
use mathlib.Core.List.{append-nil, append_assoc}
use app_dockhand.Base.{
  refl, ℕ, Bool, is_letter, Text, ◌==◌, ◌||◌, Option, List, ◌≡◌, is_digit, ◌∷◌, if◌then◌else◌, any,
  some, ◌++◌, true, all, txt, ◌&&◌, [], not, inl, arith, is_empty, inr, sym, Bool-cases, both_of,
}
use mathlib.Core.List.{[], append_assoc, append-nil}
use mathlib.Core.Option.{none, none}

-- `[A-Za-z0-9_@%+=:,./-]`
abbrev pub is_safe : ℕ → Bool
is_safe c = is_letter c || is_digit c || any (λ d. c == d) (txt "_@%+=:,./-")

-- `s.replace(/'/g, "'\\''")`; 39 is the quote and 92 the backslash.
unfoldable pub escape : Text → Text
escape [] = []
escape (c ∷ s) = if c == 39 then 39 ∷ 92 ∷ 39 ∷ 39 ∷ escape s else c ∷ escape s

unfoldable pub shell_quote : Text → Text
shell_quote s = if all is_safe s && not (is_empty s) then s else 39 ∷ (escape s ++ 39 ∷ [])

-- What a shell does not take as it stands: |&;<>()$`\"'*?[]#~{}!^ and what ends a word.
abbrev pub is_blank : ℕ → Bool
is_blank c = c == 32 || c == 9 || c == 10

abbrev pub is_special : ℕ → Bool
is_special c = is_blank c || c == 39 || c == 92 || any (λ d. c == d) (txt "|&;<>()$`\"*?[]#~{}!^")

-- Between words, in a word, in a quoted part of one, after a backslash.
pub data Reader : Type 0 where
  gap gap_escape : Reader
  bare quoted bare_escape : Text → Reader

-- The reader after a unit, and the word that it ends.
unfoldable pub read_unit : Reader → ℕ → Option (Reader × List Text)
read_unit gap c =
    if is_blank c
    then some (gap, [])
    else if c == 39
    then some (quoted [], [])
    else if c == 92
    then some (gap_escape, [])
    else if is_special c
    then none
    else some (bare (c ∷ []), [])
read_unit gap_escape c = if c == 10 then some (gap, []) else some (bare (c ∷ []), [])
read_unit (bare w) c =
    if is_blank c
    then some (gap, w ∷ [])
    else if c == 39
    then some (quoted w, [])
    else if c == 92
    then some (bare_escape w, [])
    else if is_special c
    then none
    else some (bare (w ++ c ∷ []), [])
read_unit (quoted w) c = if c == 39 then some (bare w, []) else some (quoted (w ++ c ∷ []), [])
read_unit (bare_escape w) c = if c == 10 then some (bare w, []) else some (bare (w ++ c ∷ []), [])

abbrev pub put_before : List Text → Option (Reader × List Text) → Option (Reader × List Text)
put_before ws none = none
put_before ws (some (m, vs)) = some (m, ws ++ vs)

abbrev pub and_then :
    Option (Reader × List Text)
    → (Reader → Option (Reader × List Text))
    → Option (Reader × List Text)
and_then none k = none
and_then (some (m, ws)) k = put_before ws (k m)

unfoldable pub read_text : Reader → Text → Option (Reader × List Text)
read_text m [] = some (m, [])
read_text m (c ∷ s) = and_then (read_unit m c) (λ n. read_text n s)

abbrev pub last_word : Option (Reader × List Text) → Option (List Text)
last_word (some (gap, ws)) = some ws
last_word (some (bare w, ws)) = some (ws ++ w ∷ [])
last_word _ = none

-- The words of a line, if it has nothing else.
unfoldable pub shell_words : Text → Option (List Text)
shell_words s = last_word (read_text gap s)

put_before-nil : (o : Option (Reader × List Text)) → put_before [] o ≡ o
put_before-nil none = refl
put_before-nil (some (m, us)) = refl

put_before-append :
    (ws vs : List Text) (o : Option (Reader × List Text))
    → put_before ws (put_before vs o) ≡ put_before (ws ++ vs) o
put_before-append ws vs none = refl
put_before-append ws vs (some (m, us)) = rw (append_assoc ws vs us) refl

and_then_assoc :
    (o : Option (Reader × List Text)) (f g : Reader → Option (Reader × List Text))
    → and_then o (λ n. and_then (f n) g) ≡ and_then (and_then o f) g
and_then_assoc none f g = refl
and_then_assoc (some (m, ws)) f g = inner (f m)
  where
    inner :
        (o : Option (Reader × List Text))
        → put_before ws (and_then o g) ≡ and_then (put_before ws o) g
    inner none = refl
    inner (some (n, vs)) = put_before-append ws vs (g n)

pub read_text-append :
    (s t : Text) (m : Reader) → read_text m (s ++ t) ≡ and_then (read_text m s) (λ n. read_text n t)
unfolding read_text
read_text-append [] t m = sym (put_before-nil (read_text m t))
read_text-append (c ∷ s) t m =
    rw (fun_ext (λ n. read_text-append s t n))
      (and_then_assoc (read_unit m c) (λ n. read_text n s) (λ n. read_text n t))

read_unit_safe :
    (c : ℕ) (w : Text) → is_safe c ≡ true → read_unit (bare w) c ≡ some (bare (w ++ c ∷ []), [])
unfolding read_unit
read_unit_safe c w h = ground arith

read_unit_first : (c : ℕ) → is_safe c ≡ true → read_unit gap c ≡ some (bare (c ∷ []), [])
unfolding read_unit
read_unit_first c h = ground arith

-- A word of safe units is read on to its end.
read_text_safe :
    (s w : Text) → all is_safe s ≡ true → read_text (bare w) s ≡ some (bare (w ++ s), [])
unfolding read_text
read_text_safe [] w h = rw (append-nil w) refl
read_text_safe (c ∷ s) w h =
    let (first, more) = both_of (is_safe c) (all is_safe s) h in
    rw (read_unit_safe c w first, read_text_safe s (w ++ c ∷ []) more, append_assoc w (c ∷ []) s)
      refl

read_text-escape :
    (s w : Text) → read_text (quoted w) (escape s ++ 39 ∷ []) ≡ some (bare (w ++ s), [])
unfolding read_text escape read_unit
read_text-escape [] w = rw (append-nil w) refl
read_text-escape (c ∷ s) w = elim (Bool-cases (c == 39)) [
  | inl y ↦
      let e : c ≡ 39 = ground arith in
      rw (e, read_text-escape s (w ++ 39 ∷ []), append_assoc w (39 ∷ []) s) refl
  | inr off ↦
      rw off (rw off (rw (read_text-escape s (w ++ c ∷ []), append_assoc w (c ∷ []) s) refl))
]

-- A text of safe units is one word.
pub read_text_word :
    (s : Text) → (all is_safe s && not (is_empty s)) ≡ true → read_text gap s ≡ some (bare s, [])
unfolding read_text
read_text_word [] h = cc
read_text_word (c ∷ s) h =
    let (safe, some_unit) = both_of (all is_safe (c ∷ s)) true h in
    let (first, more) = both_of (is_safe c) (all is_safe s) safe in
    rw (read_unit_first c first, read_text_safe s (c ∷ []) more) refl

read_text_quoted : (s : Text) → read_text gap (39 ∷ (escape s ++ 39 ∷ [])) ≡ some (bare s, [])
unfolding read_text read_unit
read_text_quoted s = rw (read_text-escape s []) refl

-- A quoted text is read as the one word that it was, wherever a word may begin.
pub read_text-shell_quote : (s : Text) → read_text gap (shell_quote s) ≡ some (bare s, [])
unfolding shell_quote
read_text-shell_quote s = elim (Bool-cases (all is_safe s && not (is_empty s))) [
  | inl y ↦ rw y (read_text_word s y)
  | inr off ↦ rw off (read_text_quoted s)
]
