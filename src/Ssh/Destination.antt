-- ===== src/Ssh/Destination.antt =====
-- `parseDest` of web/lib/customSsh.ts: the regular expressions as functions over the text.
use app_dockhand.Base.{
  ℕ, Bool, not, ◌&&◌, Option, none, some, [], ◌∷◌, ◌++◌, Text, txt, all, number, trim, trim_start,
  span, is_space, is_digit, is_empty, starts_with, drop, ◌==◌, if◌then◌else◌, starts_with_space,
  split_last, split_first,
}

-- `Partial<…>`: the address is always set, the others where the text has them.
pub record Destination : Type 0 where
  pub address : Text
  pub port : Option ℕ
  pub user : Option Text

-- `replace(/^ssh\s+/, "")`
unfoldable pub strip_ssh : Text → Text
strip_ssh s =
    if starts_with s (txt "ssh") && starts_with_space (drop 3 s) then trim_start (drop 3 s) else s

-- `-p\s*(\d+)` at the front of the text: the digits and what follows them.
unfoldable pub port_here : Text → Option (Text × Text)
port_here s =
    let (digits, rest) = span is_digit (trim_start (drop 2 s)) in
    if starts_with s (txt "-p") && not (is_empty digits) then some (digits, rest) else none

abbrev pub prepend : ℕ → Option (Text × Text × Text) → Option (Text × Text × Text)
prepend c none = none
prepend c (some (before, digits, rest)) = some (c ∷ before, digits, rest)

abbrev pub port_after :
    ℕ → Option (Text × Text) → Option (Text × Text × Text) → Option (Text × Text × Text)
port_after c none later = prepend c later
port_after c (some (digits, rest)) later =
    if is_space c then some ([], digits, rest) else prepend c later

-- `match(/\s-p\s*(\d+)/)`, the first match: what stands before it, the digits, what follows.
unfoldable pub find_port : Text → Option (Text × Text × Text)
find_port [] = none
find_port (c ∷ s) = port_after c (port_here s) (find_port s)

-- `\d+` and nothing else
abbrev pub all_digits : Text → Bool
all_digits s = not (is_empty s) && all is_digit s

-- The text without a `]` at its end, if there is one.
unfoldable pub drop_bracket : Text → Option Text
drop_bracket [] = none
drop_bracket (c ∷ []) = if c == b']' then some [] else none
drop_bracket (c ∷ d ∷ s) = elim (drop_bracket (d ∷ s)) [ none ↦ none | some t ↦ some (c ∷ t) ]

-- The units that `.` matches: all but the ends of lines.
abbrev pub is_dot : ℕ → Bool
is_dot c = not (c == 10) && not (c == 13) && not (c == 0x2028) && not (c == 0x2029)

abbrev pub inside_brackets : Text → Option Text → Option (Text × Text)
inside_brackets digits none = none
inside_brackets digits (some address) =
    if not (is_empty address) && all is_dot address && all_digits digits
    then some (address, digits)
    else none

abbrev pub bracketed_parts : Option (Text × Text) → Option (Text × Text)
bracketed_parts none = none
bracketed_parts (some (before, digits)) = inside_brackets digits (drop_bracket before)

-- `match(/^\[(.+)\]:(\d+)$/)`
unfoldable pub bracketed : Text → Option (Text × Text)
bracketed [] = none
bracketed (c ∷ s) = if c == b'[' then bracketed_parts (split_last b':' s) else none

abbrev pub plain_parts : Option (Text × Text) → Option (Text × Text)
plain_parts none = none
plain_parts (some (address, digits)) =
    if not (is_empty address) && all_digits digits then some (address, digits) else none

-- `match(/^([^:]+):(\d+)$/)`
unfoldable pub plain : Text → Option (Text × Text)
plain s = plain_parts (split_first b':' s)

abbrev pub or_plain : Option (Text × Text) → Option (Text × Text) → Option (Text × Text)
or_plain none later = later
or_plain (some m) later = some m

abbrev pub strip_first : Text → Text
strip_first [] = []
strip_first (c ∷ s) = if c == b'[' then s else c ∷ s

-- `replace(/^\[|\]$/g, "")`
unfoldable pub strip_brackets : Text → Text
strip_brackets s = elim (drop_bracket (strip_first s)) [ none ↦ strip_first s | some t ↦ t ]

abbrev pub with_address : Text → Option ℕ → Option Text → Option (Text × Text) → Destination
with_address v port user none = record { address = strip_brackets v; port = port; user = user }
with_address v port user (some (address, digits)) = record {
  address = address;
  port = some (number digits);
  user = user;
}

-- The host and its port, after the user is taken off.
unfoldable pub parse_host : Text → Option ℕ → Option Text → Destination
parse_host v port user = with_address v port user (or_plain (bracketed v) (plain v))

abbrev pub with_user : Text → Option ℕ → Option (Text × Text) → Destination
with_user v port none = parse_host v port none
with_user v port (some (user, rest)) =
    if is_empty user then parse_host v port none else parse_host rest port (some user)

-- The user, the host and its port, after `-p` is taken out.
unfoldable pub parse_user : Text → Option ℕ → Destination
parse_user v port = with_user v port (split_last b'@' v)

abbrev pub with_port : Text → Option (Text × Text × Text) → Destination
with_port v none = parse_user v none
with_port v (some (before, digits, rest)) =
    parse_user (trim (before ++ rest)) (some (number digits))

unfoldable pub parse_dest : Text → Destination
parse_dest s = let v = strip_ssh (trim s) in with_port v (find_port v)
