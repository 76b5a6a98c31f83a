-- ===== src/Updates/Stages.antt =====
-- The stages of an update in web/components/settings/UpdatesTab.tsx, how far its log shows that it has
-- come, and how versions read.
use app_dockhand.Base.{
  none, some, ℕ, Bool, is_digit, Text, Option, List, ◌||◌, txt, if◌then◌else◌, false, leb, ◌∷◌,
  is_empty, any, reverse, split_last, ltb, ◌*◌, find, [], not, ◌&&◌, ◌++◌, ◌==◌, all, starts_with,
  span, split_first, ◌/◌, take, length, number,
}

-- `/^[0-9a-f]{7,40}$/`
abbrev pub is_hex : ℕ → Bool
is_hex c = is_digit c || (leb b'a' c && leb c b'f')

abbrev pub drop_v : Text → Text
drop_v [] = []
drop_v (c ∷ s) = if c == b'v' then s else c ∷ s

unfoldable pub v : Text → Text
v s =
    if is_empty s
    then []
    else if all is_hex s && leb 7 (length s) && leb (length s) 40
    then take 7 s
    else b'v' ∷ drop_v s

pub data StageKey : Type 0 where
  prepare fetch build restart finish : StageKey

abbrev pub from_of : StageKey → ℕ
from_of prepare = 20
from_of fetch = 26
from_of build = 34
from_of restart = 84
from_of finish = 100

abbrev pub to_of : StageKey → ℕ
to_of prepare = 26
to_of fetch = 34
to_of build = 84
to_of restart = 97
to_of finish = 100

abbrev pub label_of : StageKey → Text
label_of prepare = txt "Starting the updater"
label_of fetch = txt "Fetching the new code"
label_of build = txt "Rebuilding Dockhand"
label_of restart = txt "Restarting on the new version"
label_of finish = txt "Done"

-- `HANDOFF_PCT`
abbrev pub handoff : ℕ
handoff = 20000

abbrev pub has : Text → List Text → Bool
has m log = any (λ l. starts_with l (txt "==> " ++ m)) log

-- The digits at the end of a text.
abbrev pub last_digits : Text → Text
last_digits s = reverse (span is_digit (reverse s)).0

-- `(\d+)\/(\d+)` at the end of what stands in brackets.
abbrev pub counts : Option (Text × Text) → Option (ℕ × ℕ)
counts none = none
counts (some (a, b)) =
    if is_empty (last_digits a) || is_empty b || not (all is_digit b)
    then none
    else some (number (last_digits a), number b)

abbrev pub in_brackets : Option (Text × Text) → Option (ℕ × ℕ)
in_brackets none = none
in_brackets (some (inside, rest)) = counts (split_last b'/' inside)

abbrev pub or_later : Option (ℕ × ℕ) → Option (ℕ × ℕ) → Option (ℕ × ℕ)
or_later none o = o
or_later (some x) o = some x

-- `/\[[^\]]*?(\d+)\/(\d+)\]/`
unfoldable pub step_counter : Text → Option (ℕ × ℕ)
step_counter [] = none
step_counter (c ∷ s) =
    let later = step_counter s in
    if c == b'[' then or_later (in_brackets (split_first b']' s)) later else later

abbrev pub is_counter : Option (ℕ × ℕ) → Bool
is_counter none = false
is_counter (some (m, n)) = ltb 0 n

-- The fraction of the last counter, 950 times it.
abbrev pub counter_part : Option (ℕ × ℕ) → ℕ
counter_part none = 0
counter_part (some (m, n)) = 950 * m / n

unfoldable pub build_part : List Text → ℕ
build_part log = elim (find (λ l. is_counter (step_counter l)) (reverse log)) [
  | none ↦ 0
  | some l ↦ counter_part (step_counter l)
]
