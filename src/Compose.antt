-- ===== src/Compose.antt =====
-- web/components/dialogs/ComposeEditor.tsx: the colours of the lines of a compose file, and the Tab key in
-- its editor. A text is a list of UTF-16 units, and a position counts them. The zero-width unit that fills
-- an empty line is left out.
mod Tests
pub mod Draws
pub mod Keys
pub mod Validation
pub mod Current
use Prim.Native.Nat.{ℕ}
use app_dockhand.Base.{
  Option, Text, List, none, some, if◌then◌else◌, txt, ◌∷◌, Bool, trim, ◌++◌, span, is_empty, [],
  ◌==◌, not, true, is_digit, any, is_space, all, starts_with, trim_start, ◌&&◌, text_eq, ◌||◌, map,
  false, split_first,
}
use mathlib.Core.List.{[]}
use app_dockhand.Logs.Level.{fold_case}

-- The colours, by the names of the source: K, S, N, P, C, T.
pub data Ink : Type 0 where
  keys strings numbers punctuation comments plain : Ink

-- A part of a line, with no colour of its own where it stands bare in the line.
pub record Part : Type 0 where
  pub ink : Option Ink
  pub text : Text

abbrev pub bare : Text → Part
bare s = record { ink = none; text = s }

abbrev pub inked : Ink → Text → Part
inked c s = record { ink = some c; text = s }

-- `x && <span>x</span>`
abbrev pub if_any : Ink → Text → List Part
if_any c s = if is_empty s then [] else inked c s ∷ []

abbrev pub literal_words : List Text
literal_words =
    txt "true"
    ∷ txt "false"
    ∷ txt "yes"
    ∷ txt "no"
    ∷ txt "on"
    ∷ txt "off"
    ∷ txt "null"
    ∷ txt "~"
    ∷ []

-- `/^-?\d+(\.\d+)?$/`
abbrev pub drop_minus : Text → Text
drop_minus [] = []
drop_minus (c ∷ s) = if c == b'-' then s else c ∷ s

abbrev pub is_digits : Text → Bool
is_digits s = not (is_empty s) && all is_digit s

abbrev pub is_fraction : Text → Bool
is_fraction [] = true
is_fraction (c ∷ s) = (c == b'.') && is_digits s

unfoldable pub is_decimal : Text → Bool
is_decimal s =
    let (whole, rest) = span is_digit (drop_minus s) in not (is_empty whole) && is_fraction rest

unfoldable pub value_color : Text → Ink
value_color v =
    let s = trim v in
    if any (text_eq (map fold_case s)) literal_words || is_decimal s
    then Ink.numbers
    else Ink.strings

-- `q` after a unit.
abbrev pub next_quote : Option ℕ → ℕ → Option ℕ
next_quote none c = if (c == b'"') || (c == 39) then some c else none
next_quote (some q) c = if c == q then none else some q

abbrev pub starts_comment : Option ℕ → Bool → ℕ → Bool
starts_comment none fresh c = (c == b'#') && fresh
starts_comment (some q) fresh c = false

-- The loop of `splitComment`; `fresh` is whether the unit is the first or stands behind white space.
unfoldable pub split_from : Option ℕ → Bool → Text → Text × Text
split_from q fresh [] = ([], [])
split_from q fresh (c ∷ s) =
    let rest = split_from (next_quote q c) (is_space c) s in
    if starts_comment q fresh c then ([], c ∷ s) else (c ∷ rest.0, rest.1)

abbrev pub split_comment : Text → Text × Text
split_comment v = split_from none true v

-- What `.` does not match.
abbrev pub is_line_end : ℕ → Bool
is_line_end c = (c == 10) || (c == 13) || (c == 8232) || (c == 8233)

abbrev pub is_one_line : Text → Bool
is_one_line s = all (λ c. not (is_line_end c)) s

-- `(\s|$)(.*)$`
abbrev pub value_part : Text → Option (Text × Text)
value_part [] = some ([], [])
value_part (w ∷ rest) = if is_space w && is_one_line rest then some (w ∷ [], rest) else none

-- `(:)(\s|$)(.*)$` behind a key.
pub record KeyMatch : Type 0 where
  pub key : Text
  pub sp : Text
  pub rest : Text

abbrev pub with_value : Text → Option (Text × Text) → Option KeyMatch
with_value key none = none
with_value key (some (sp, rest)) = some (record { key = key; sp = sp; rest = rest })

abbrev pub after_key : Text → Text → Option KeyMatch
after_key key [] = none
after_key key (c ∷ s) = if c == b':' then with_value key (value_part s) else none

-- `"[^"]*"` and `'[^']*'` behind the first quote.
abbrev pub quoted_key : ℕ → Option (Text × Text) → Option KeyMatch
quoted_key q none = none
quoted_key q (some (inner, rest)) = after_key (q ∷ (inner ++ q ∷ [])) rest

abbrev pub is_key_unit : ℕ → Bool
is_key_unit c = not (c == b':') && not (c == b'#')

-- The key with what follows it; a key without quotes ends before the first colon.
unfoldable pub key_match : Text → Option KeyMatch
key_match [] = none
key_match (c ∷ s) =
    if (c == b'"') || (c == 39)
    then quoted_key c (split_first c s)
    else if is_space c || not (is_key_unit c)
    then none
    else after_key (c ∷ (span is_key_unit s).0) (span is_key_unit s).1

-- `(-\s+)?`: the dash with its white space, and what follows.
abbrev pub dash_part : Text → Text × Text
dash_part [] = ([], [])
dash_part (c ∷ s) =
    let (blank, rest) = span is_space s in
    if (c == b'-') && not (is_empty blank) then (c ∷ blank, rest) else ([], c ∷ s)

-- `/^\s*[|>]/`
abbrev pub is_block : Text → Bool
is_block v = starts_with v (txt "|") || starts_with v (txt ">")

abbrev pub value_ink : Text → Ink
value_ink val = if is_block (trim_start val) then Ink.punctuation else value_color val

abbrev pub key_parts : Text → Text → KeyMatch → List Part
key_parts ind dash m =
    let (val, note) = split_comment m.rest in
    bare ind
    ∷ (if_any Ink.punctuation dash
        ++ inked Ink.keys m.key
          ∷ inked Ink.punctuation (txt ":")
          ∷ bare m.sp
          ∷ (if_any (value_ink val) val ++ if_any Ink.comments note))

-- `/^(\s*)(-)(\s*)(.*)$/`, and else the plain line.
abbrev pub item_parts : Text → Text → List Part
item_parts ind [] = inked Ink.plain (ind ++ []) ∷ []
item_parts ind (c ∷ s) =
    let (blank, rest) = span is_space s in
    let (val, note) = split_comment rest in
    if (c == b'-') && is_one_line rest
    then bare ind
      ∷ inked Ink.punctuation (c ∷ [])
      ∷ bare blank
      ∷ inked (value_color val) val
      ∷ if_any Ink.comments note
    else inked Ink.plain (ind ++ c ∷ s) ∷ []

abbrev pub or_item : Text → Text → Option KeyMatch → List Part
or_item ind s none = item_parts ind s
or_item ind s (some m) = key_parts ind [] m

-- The line behind its white space: with the dash if the rest matches behind it, else without.
abbrev pub body_parts : Text → Text → Option KeyMatch → List Part
body_parts ind s none = or_item ind s (key_match s)
body_parts ind s (some m) = key_parts ind (dash_part s).0 m

unfoldable pub highlight_line : Text → List Part
highlight_line line =
    let (ind, s) = span is_space line in
    if starts_with s (txt "#")
    then inked Ink.comments line ∷ []
    else body_parts ind s (key_match (dash_part s).1)

-- `value.split("\n")`
abbrev pub onto_first : ℕ → List Text → List Text
onto_first c [] = (c ∷ []) ∷ []
onto_first c (l ∷ ls) = (c ∷ l) ∷ ls

unfoldable pub lines_of : Text → List Text
lines_of [] = [] ∷ []
lines_of (c ∷ s) = let rest = lines_of s in if c == 10 then [] ∷ rest else onto_first c rest
