-- ===== src/SshConfig/Lines.antt =====
-- web/components/settings/hosts-lib.ts: from the text of the file to the keys and values of its
-- lines. A line holds no end of a line other than those that `split` splits at.
use app_dockhand.Base.{
  if◌then◌else◌, ◌>>=◌, ℕ, Bool, Text, is_space, ◌∷◌, List, trim, Option, ◌||◌, [], span, none,
  ◌==◌, not, some, trim_start, is_empty, split_lines,
}
use app_dockhand.SshConfig.{entries, SshConfigEntry, first_wins}
use mathlib.Core.List.{[]}

-- `rawLine.replace(/#.*$/, "").trim()`
unfoldable pub content : Text → Text
content raw = trim (span (λ c. not (c == b'#')) raw).0

abbrev pub drop_equals : Text → Text
drop_equals [] = []
drop_equals (c ∷ s) = if c == b'=' then trim_start s else c ∷ s

-- The `=`, white space or both that end a key.
abbrev pub is_separator : ℕ → Bool
is_separator c = is_space c || c == b'='

-- `val.replace(/^"(.*)"$/, "$1")`
abbrev pub drop_quote : Text → Option Text
drop_quote [] = none
drop_quote (c ∷ []) = if c == b'"' then some [] else none
drop_quote (c ∷ d ∷ s) = elim (drop_quote (d ∷ s)) [ none ↦ none | some t ↦ some (c ∷ t) ]

unfoldable pub unquote : Text → Text
unquote [] = []
unquote (c ∷ s) = if c == b'"' then elim (drop_quote s) [ none ↦ c ∷ s | some t ↦ t ] else c ∷ s

abbrev pub after_equals : Text → Text → Text
after_equals r [] = r
after_equals r (c ∷ s) = c ∷ s

-- What follows the key: `\s*(?:=\s*|\s+)(.+)$` gives the value. With white space and a `=` and
-- nothing else, the `=` is the value.
abbrev pub value_after : Text → Option Text
value_after [] = none
value_after (c ∷ s) =
    if c == b'='
    then (let v = trim_start s in if is_empty v then none else some v)
    else (let r = trim_start s in some (after_equals r (drop_equals r)))

-- `line.match(/^(\S+?)\s*(?:=\s*|\s+)(.+)$/)` of a trimmed line: the key is at least one unit and
-- goes on to the next separator.
unfoldable pub split_line : Text → Option (Text × Text)
split_line [] = none
split_line (c ∷ s) = do
  let (a, rest) = span (λ d. not (is_separator d)) s
  v ← value_after rest
  some (c ∷ a, v)

module _ (to_lower : Text → Text) where
  -- The key and the value of a line, or nothing if it is skipped.
  unfoldable pub key_value : Text → Option (Text × Text)
  key_value raw = do (k, v) ← split_line (content raw); some (to_lower k, unquote (trim v))

  unfoldable pub key_values : List Text → List (Text × Text)
  key_values [] = []
  key_values (raw ∷ raws) = elim (key_value raw) [
    | none ↦ key_values raws
    | some kv ↦ kv ∷ key_values raws
  ]

  unfoldable pub parse_ssh_config : Text → List SshConfigEntry
  parse_ssh_config text = first_wins [] (entries (key_values (split_lines [] text)) none)
