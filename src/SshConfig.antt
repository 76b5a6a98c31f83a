-- ===== src/SshConfig.antt =====
-- web/components/settings/hosts-lib.ts: the steps of a connection test, and the import of hosts from
-- an SSH configuration file. `toLowerCase` and `toFixed` are parameters.
pub mod Lines
pub mod Steps
pub mod Unique
mod Tests
use app_dockhand.Base.{
  refl, ℕ, Bool, suc, zero, Text, List, Option, any, some, txt, [], ◌∷◌, if◌then◌else◌, ◌==◌,
  is_empty, map, number, text_eq, ◌++◌, ◌||◌, filter, span, is_space, not, is_digit, trim_start,
}
use app_dockhand.Base.Int.{ℤ, pos, negsuc, ◌-ℤ◌}
use mathlib.Core.Option.{none}

pub record SshConfigEntry : Type 0 where
  pub name : Text
  pub address : Text
  pub port : ℤ
  pub user : Text

-- `cur`, a block of the file: the names of its hosts and what has been read for them.
pub record Block : Type 0 where
  pub names : List Text
  pub host_name : Option Text
  pub port : Option ℤ
  pub user : Option Text

-- `/[*?!]/.test(n)`
abbrev pub is_pattern : Text → Bool
is_pattern n = any (λ c. c == b'*' || c == b'?' || c == b'!') n

-- `o || d` of a text, which is falsy if empty
abbrev pub text_or : Option Text → Text → Text
text_or none d = d
text_or (some s) d = if is_empty s then d else s

-- `o || d` of a number, which is falsy if 0
abbrev pub port_or : Option ℤ → ℤ → ℤ
port_or none d = d
port_or (some (pos zero)) d = d
port_or (some (pos (suc n))) d = pos (suc n)
port_or (some (negsuc n)) d = negsuc n

abbrev pub entry_of : Block → Text → SshConfigEntry
entry_of cur n = record {
  name = n;
  address = text_or cur.host_name n;
  port = port_or cur.port (pos 22);
  user = text_or cur.user (txt "root");
}

-- What `flush` pushes.
unfoldable pub flushed : Option Block → List SshConfigEntry
flushed none = []
flushed (some cur) = map (entry_of cur) (filter (λ n. not (is_pattern n)) cur.names)

-- `parseInt(val, 10)`, with 0 where it is not a number, which is as falsy.
unfoldable pub parse_int : Text → ℤ
parse_int val = signed (trim_start val)
  where
    signed : Text → ℤ
    signed [] = pos 0
    signed (c ∷ s) =
        let n = number (span is_digit s).0 in
        if c == b'-'
        then pos 0 -ℤ pos n
        else if c == b'+'
        then pos n
        else pos (number (span is_digit (c ∷ s)).0)

unfoldable pub set_option : Text → Text → Block → Block
set_option key val cur =
    if text_eq key (txt "hostname")
    then record cur { host_name = some val }
    else if text_eq key (txt "port")
    then record cur { port = some (port_or (some (parse_int val)) (pos 22)) }
    else if text_eq key (txt "user")
    then record cur { user = some val }
    else cur

-- The non-empty words of `s.split(/\s+/)`; the first argument is the word under way.
unfoldable pub words_from : Text → Text → List Text
words_from word [] = if is_empty word then [] else word ∷ []
words_from word (c ∷ s) =
    let rest = words_from [] s in
    let more = words_from (word ++ c ∷ []) s in
    if is_space c then (if is_empty word then rest else word ∷ rest) else more

-- The body of the loop for a line that is split: what is pushed, and `cur` after it.
unfoldable pub take_line : Text → Text → Option Block → List SshConfigEntry × Option Block
take_line key val cur =
    if text_eq key (txt "host")
    then (
      flushed cur,
      some (record { names = words_from [] val; host_name = none; port = none; user = none }),
    )
    else if text_eq key (txt "match")
    then (flushed cur, none)
    else ([], elim cur [ none ↦ none | some b ↦ some (set_option key val b) ])

-- The loop, over the lines that have a key and a value, and the last `flush`.
unfoldable pub entries : List (Text × Text) → Option Block → List SshConfigEntry
entries [] cur = flushed cur
entries ((key, val) ∷ lines) cur =
    (take_line key val cur).0 ++ entries lines (take_line key val cur).1

-- `seen` and `filter` at the end.
unfoldable pub first_wins : List Text → List SshConfigEntry → List SshConfigEntry
first_wins seen [] = []
first_wins seen (e ∷ es) =
    let rest = first_wins seen es in
    let more = first_wins (e.name ∷ seen) es in if any (text_eq e.name) seen then rest else e ∷ more
