-- ===== src/Compose/Draws.antt =====
-- What the coloured lines show is the text that is edited.
use mathlib.Core.List.{append-nil, append_assoc}
use app_dockhand.Base.{
  refl, List, span, Text, Option, ℕ, ◌∷◌, Bool, ◌++◌, ◌≡◌, Bool-cases, some, inl, ◌==◌, inr, ap,
  is_space, split_first, ◌∙◌, arith, ◌&&◌, ◌||◌, ◌&&◌, split_first-join, not, sym, is_empty, map,
  ◌≢◌, true, starts_with, txt,
}
use mathlib.Core.List.{[]}
use mathlib.Core.Option.{none}
use app_dockhand.Compose.{
  split_from, Ink, Part, if_any, KeyMatch, after_key, starts_comment, next_quote, value_part,
  with_value, key_match, dash_part, key_parts, item_parts, quoted_key, is_one_line, is_key_unit,
  split_comment, or_item, body_parts, highlight_line, onto_first, lines_of, value_ink,
}

-- The text of parts before a text, and the text of the lines that are drawn.
abbrev pub shown_before : List Part → Text → Text
shown_before [] t = t
shown_before (p ∷ ps) t = p.text ++ shown_before ps t

abbrev pub shown_text : List Part → Text
shown_text ps = shown_before ps []

abbrev pub joined : List Text → Text
joined [] = []
joined (l ∷ []) = l
joined (l ∷ k ∷ ls) = l ++ 10 ∷ joined (k ∷ ls)

split_from-append :
    (q : Option ℕ) (f : Bool) (s : Text) → (split_from q f s).0 ++ (split_from q f s).1 ≡ s
unfolding split_from
split_from-append q f [] = refl
split_from-append q f (c ∷ s) = elim (Bool-cases (starts_comment q f c)) [
  | inl e ↦ rw e
  | inr e ↦ rw e (ap (λ t. c ∷ t) (split_from-append (next_quote q c) (is_space c) s))
]

span-append : (p : ℕ → Bool) (s : Text) → (span p s).0 ++ (span p s).1 ≡ s
unfolding span
span-append p [] = refl
span-append p (c ∷ s) = elim (Bool-cases (p c)) [
  | inl e ↦ rw e (ap (λ t. c ∷ t) (span-append p s))
  | inr e ↦ rw e
]

before-append :
    (ps qs : List Part) (t : Text) → shown_before (ps ++ qs) t ≡ shown_before ps (shown_before qs t)
before-append [] qs t = refl
before-append (p ∷ ps) qs t = ap (λ u. p.text ++ u) (before-append ps qs t)

before-if_any : (c : Ink) (s t : Text) → shown_before (if_any c s) t ≡ s ++ t
before-if_any c [] t = refl
before-if_any c (d ∷ s) t = refl

-- A key with what follows it is the text it was found in.
value_part-append : (s a b : Text) → value_part s ≡ some (a, b) → s ≡ a ++ b
value_part-append [] a b h = cc
value_part-append (w ∷ s) a b h = elim (Bool-cases (is_space w && is_one_line s)) [
  | inl e ↦ let y : some (w ∷ [], s) ≡ some (a, b) = rw e at h in cc
  | inr e ↦ let no : none ≡ some (a, b) = rw e at h in absurd (cc)
]

abbrev matched : KeyMatch → Text
matched m = m.key ++ b':' ∷ (m.sp ++ m.rest)

with_value-matched :
    (key s : Text) (o : Option (Text × Text)) (m : KeyMatch)
    → value_part s ≡ o
    → with_value key o ≡ some m
    → key ++ b':' ∷ s ≡ matched m
with_value-matched key s none m e h = absurd (cc)
with_value-matched key s (some (a, b)) m e h =
    let y : record { key = key; sp = a; rest = b } ≡ m = cc in
    ap (λ t. key ++ b':' ∷ t) (value_part-append s a b e) ∙ ap matched y

after_key-matched : (key s : Text) (m : KeyMatch) → after_key key s ≡ some m → key ++ s ≡ matched m
after_key-matched key [] m h = absurd (cc)
after_key-matched key (c ∷ s) m h = elim (Bool-cases (c == b':')) [
  | inl e ↦
      let y : with_value key (value_part s) ≡ some m = rw e at h in
      let z : c ≡ b':' = ground arith in
      ap (λ d. key ++ d ∷ s) z ∙ with_value-matched key s _ m refl y
  | inr e ↦ let no : none ≡ some m = rw e at h in absurd (cc)
]

quoted_key-matched :
    (q : ℕ) (s : Text) (o : Option (Text × Text)) (m : KeyMatch)
    → split_first q s ≡ o
    → quoted_key q o ≡ some m
    → q ∷ s ≡ matched m
quoted_key-matched q s none m e h = absurd (cc)
quoted_key-matched q s (some (a, b)) m e h =
    ap (λ t. q ∷ t) (split_first-join q s a b e)
    ∙ ap (λ t. q ∷ t) (sym (append_assoc a (q ∷ []) b))
    ∙ after_key-matched (q ∷ (a ++ q ∷ [])) b m h

key_match-matched : (s : Text) (m : KeyMatch) → key_match s ≡ some m → s ≡ matched m
unfolding key_match
key_match-matched [] m h = absurd (cc)
key_match-matched (c ∷ s) m h = elim (Bool-cases ((c == b'"') || (c == 39))) [
  | inl e ↦ quoted_key-matched c s _ m refl (rw e at h)
  | inr e ↦ elim (Bool-cases (is_space c || not (is_key_unit c))) [
    | inl f ↦ let no : none ≡ some m = rw (e, f) at h in absurd (cc)
    | inr f ↦
        ap (λ t. c ∷ t) (sym (span-append is_key_unit s))
        ∙ after_key-matched (c ∷ (span is_key_unit s).0) (span is_key_unit s).1 m (rw (e, f) at h)
  ]
]

dash_part-append : (s : Text) → (dash_part s).0 ++ (dash_part s).1 ≡ s
dash_part-append [] = refl
dash_part-append (c ∷ s) = elim (Bool-cases ((c == b'-') && not (is_empty (span is_space s).0))) [
  | inl e ↦ rw e (ap (λ t. c ∷ t) (span-append is_space s))
  | inr e ↦ rw e
]

-- A value with its comment.
value-shown :
    (c : Ink) (v : Text)
    → shown_text (if_any c (split_comment v).0 ++ if_any Ink.comments (split_comment v).1) ≡ v
value-shown c v =
    let (val, note) = split_comment v in
    before-append (if_any c val) (if_any Ink.comments note) []
    ∙ before-if_any c val _
    ∙ ap (λ t. val ++ t) (before-if_any Ink.comments note [] ∙ append-nil note)
    ∙ split_from-append none true v

item_value-shown :
    (v : Text) → (split_comment v).0 ++ shown_text (if_any Ink.comments (split_comment v).1) ≡ v
item_value-shown v =
    let (val, note) = split_comment v in
    ap (λ t. val ++ t) (before-if_any Ink.comments note [] ∙ append-nil note)
    ∙ split_from-append none true v

key_parts-shown :
    (ind dash : Text) (m : KeyMatch)
    → shown_text (key_parts ind dash m) ≡ ind ++ (dash ++ matched m)
key_parts-shown ind dash m =
    let val = (split_comment m.rest).0 in
    let note = (split_comment m.rest).1 in
    ap (λ t. ind ++ t)
      (before-append (if_any Ink.punctuation dash) _ []
        ∙ before-if_any Ink.punctuation dash _
        ∙ ap (λ t. dash ++ (m.key ++ b':' ∷ (m.sp ++ t))) (value-shown (value_ink val) m.rest))

item_parts-shown : (ind s : Text) → shown_text (item_parts ind s) ≡ ind ++ s
item_parts-shown ind [] = append-nil (ind ++ [])
item_parts-shown ind (c ∷ s) = elim (Bool-cases ((c == b'-') && is_one_line (span is_space s).1)) [
  | inl e ↦ rw e (
      ap (λ t. ind ++ c ∷ ((span is_space s).0 ++ t)) (item_value-shown (span is_space s).1)
      ∙ ap (λ t. ind ++ c ∷ t) (span-append is_space s))
  | inr e ↦ rw e (append-nil (ind ++ c ∷ s))
]

or_item-shown :
    (ind s : Text) (o : Option KeyMatch) → key_match s ≡ o → shown_text (or_item ind s o) ≡ ind ++ s
or_item-shown ind s none e = item_parts-shown ind s
or_item-shown ind s (some m) e =
    key_parts-shown ind [] m ∙ ap (λ t. ind ++ t) (sym (key_match-matched s m e))

body_parts-shown :
    (ind s : Text) (o : Option KeyMatch)
    → key_match (dash_part s).1 ≡ o
    → shown_text (body_parts ind s o) ≡ ind ++ s
body_parts-shown ind s none e = or_item-shown ind s _ refl
body_parts-shown ind s (some m) e =
    key_parts-shown ind (dash_part s).0 m
    ∙ ap (λ t. ind ++ ((dash_part s).0 ++ t)) (sym (key_match-matched (dash_part s).1 m e))
    ∙ ap (λ t. ind ++ t) (dash_part-append s)

-- The parts of a line show the line.
pub shown_text-highlight_line : (line : Text) → shown_text (highlight_line line) ≡ line
unfolding highlight_line
shown_text-highlight_line line = elim (Bool-cases (starts_with (span is_space line).1 (txt "#"))) [
  | inl e ↦ rw e (append-nil line)
  | inr e ↦ rw e (
      body_parts-shown (span is_space line).0 (span is_space line).1 _ refl
      ∙ span-append is_space line)
]

abbrev pub drawn : Text → Text
drawn value = joined (map (λ l. shown_text (highlight_line l)) (lines_of value))

joined-onto_first : (c : ℕ) (ls : List Text) → joined (onto_first c ls) ≡ c ∷ joined ls
joined-onto_first c [] = refl
joined-onto_first c (l ∷ []) = refl
joined-onto_first c (l ∷ k ∷ ls) = refl

joined-end : (ls : List Text) → ls ≢ [] → joined ([] ∷ ls) ≡ 10 ∷ joined ls
joined-end [] h = absurd (h refl)
joined-end (l ∷ ls) h = refl

lines_of-some : (s : Text) → lines_of s ≢ []
unfolding lines_of
lines_of-some [] = λ e. cc
lines_of-some (c ∷ s) = elim (Bool-cases (c == 10)) [
  | inl y ↦ rw y (λ e. cc)
  | inr y ↦ rw y (onto_first-some (lines_of s))
]
  where
    onto_first-some : (ls : List Text) → onto_first c ls ≢ []
    onto_first-some [] = λ e. cc
    onto_first-some (l ∷ ls) = λ e. cc

joined-lines_of : (s : Text) → joined (lines_of s) ≡ s
unfolding lines_of
joined-lines_of [] = refl
joined-lines_of (c ∷ s) = elim (Bool-cases (c == 10)) [
  | inl y ↦
      let z : 10 ≡ c = ground arith in
      rw y (
        joined-end (lines_of s) (lines_of-some s)
        ∙ ap (λ t. 10 ∷ t) (joined-lines_of s)
        ∙ ap (λ d. d ∷ s) z)
  | inr y ↦ rw y (joined-onto_first c (lines_of s) ∙ ap (λ t. c ∷ t) (joined-lines_of s))
]

map-same : (f : Text → Text) (ls : List Text) → ((l : Text) → f l ≡ l) → map f ls ≡ ls
map-same f [] h = refl
map-same f (l ∷ ls) h = rw (h l, map-same f ls h)

-- For every text: the lines that are drawn under the transparent text area, with their colours, show the
-- text that is edited in it.
pub drawn_lem : (value : Text) → drawn value ≡ value
drawn_lem value =
    ap joined
      (map-same (λ l. shown_text (highlight_line l)) (lines_of value) shown_text-highlight_line)
    ∙ joined-lines_of value
