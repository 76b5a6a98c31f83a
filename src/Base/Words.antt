-- ===== src/Base/Words.antt =====
-- Letters, the lines of a text, and its parts before and after a unit.
use Prim.Native.Nat.{ℕ}
use mathlib.Core.Bool.{Bool, false, ◌&&◌, ◌||◌, false}
use mathlib.Core.List.{List, [], ◌∷◌, ◌++◌}
use mathlib.Core.Option.{Option, none, some}
use app_dockhand.Base.Tests.{if◌then◌else◌, ◌==◌, leb}
use app_dockhand.Base.Strings.{Text, is_space}

abbrev pub is_letter : ℕ → Bool
is_letter c = (leb b'a' c && leb c b'z') || (leb b'A' c && leb c b'Z')

-- The text without a carriage return at its end.
abbrev pub drop_return : Text → Text
drop_return [] = []
drop_return (c ∷ []) = if c == 13 then [] else c ∷ []
drop_return (c ∷ d ∷ s) = c ∷ drop_return (d ∷ s)

-- `text.split(/\r?\n/)`; the first argument is the line under way.
unfoldable pub split_lines : Text → Text → List Text
split_lines line [] = line ∷ []
split_lines line (c ∷ s) =
    let rest = split_lines [] s in
    let more = split_lines (line ++ c ∷ []) s in if c == 10 then drop_return line ∷ rest else more

abbrev pub starts_with_space : Text → Bool
starts_with_space [] = false
starts_with_space (c ∷ s) = is_space c

abbrev pub at_last : ℕ → ℕ → Text → Option (Text × Text) → Option (Text × Text)
at_last sep c s none = if c == sep then some ([], s) else none
at_last sep c s (some (before, after)) = some (c ∷ before, after)

-- The parts before and after the last `sep`.
unfoldable pub split_last : ℕ → Text → Option (Text × Text)
split_last sep [] = none
split_last sep (c ∷ s) = at_last sep c s (split_last sep s)

abbrev pub at_first : ℕ → Option (Text × Text) → Option (Text × Text)
at_first c none = none
at_first c (some (before, after)) = some (c ∷ before, after)

-- The parts before and after the first `sep`.
unfoldable pub split_first : ℕ → Text → Option (Text × Text)
split_first sep [] = none
split_first sep (c ∷ s) = if c == sep then some ([], s) else at_first c (split_first sep s)
