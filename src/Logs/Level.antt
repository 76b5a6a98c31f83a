-- ===== src/Logs/Level.antt =====
-- web/components/host/logStream.tsx: what makes of a raw line its text and its level.
use app_dockhand.Base.{
  ℕ, Bool, suc, leb, Text, List, is_digit, if◌then◌else◌, ◌||◌, ◌&&◌, ◌==◌, true, false, txt, map,
  ◌∷◌, ◌++◌, not, starts_with, [], take, length, span, ◌+◌, ◌-◌, any, trim_start, drop, is_letter,
  drop_return,
}
use app_dockhand.Logs.{LogLevel, level_error, level_warn, level_debug, level_info}
use mathlib.Core.List.{[]}
use Prim.Native.Nat.{zero, zero}

-- The units of `\w`.
abbrev pub is_word : ℕ → Bool
is_word c = is_letter c || is_digit c || c == b'_'

-- What the flag `i` compares: the letters without their case.
abbrev pub fold_case : ℕ → ℕ
fold_case c = if leb b'A' c && leb c b'Z' then c + 32 else c

abbrev pub starts_with_word : ℕ → Text → Bool
starts_with_word zero [] = true
starts_with_word zero (c ∷ s) = not (is_word c)
starts_with_word (suc n) [] = false
starts_with_word (suc n) (c ∷ s) = starts_with_word n s

-- `\b(w₁|w₂|...)\b`, for words that begin and end with a unit of `\w`; `before` is whether such a unit
-- stands in front of the text.
unfoldable pub has_word : List Text → Bool → Text → Bool
has_word words before [] = false
has_word words before (c ∷ s) =
    (not before && any (λ w. starts_with (c ∷ s) w && starts_with_word (length w) (c ∷ s)) words)
    || has_word words (is_word c) s

-- `"level":\s*"(w₁|w₂|...)"`
unfoldable pub has_level_field : List Text → Text → Bool
has_level_field words [] = false
has_level_field words (c ∷ s) =
    (starts_with (c ∷ s) (txt "\"level\":")
      && any (λ w. starts_with (trim_start (drop 8 (c ∷ s))) (b'"' ∷ (w ++ b'"' ∷ []))) words)
    || has_level_field words s

-- The words of a level, and those that it has as a value of `level`.
unfoldable pub is_level : List Text → List Text → Text → Bool
is_level words values s =
    has_word (words ++ map (λ v. txt "level=" ++ v) values) false s || has_level_field values s

abbrev pub error_words : List Text
error_words =
    txt "error"
    ∷ txt "err"
    ∷ txt "fatal"
    ∷ txt "crit"
    ∷ txt "critical"
    ∷ txt "panic"
    ∷ txt "emerg"
    ∷ txt "alert"
    ∷ []

unfoldable pub detect_level : Text → LogLevel
detect_level line =
    let head = map fold_case (take 160 line) in
    if is_level error_words (txt "error" ∷ txt "fatal" ∷ txt "panic" ∷ []) head
    then level_error
    else if is_level (txt "warn" ∷ txt "warning" ∷ []) (txt "warn" ∷ txt "warning" ∷ []) head
    then level_warn
    else if is_level (txt "debug" ∷ txt "trace" ∷ txt "dbg" ∷ []) (txt "debug" ∷ txt "trace" ∷ [])
        head
    then level_debug
    else level_info

abbrev pub is_parameter : ℕ → Bool
is_parameter c = is_digit c || c == b';' || c == b'?'

abbrev pub ends_in_letter : Text × Text → ℕ
ends_in_letter (parameters, []) = 0
ends_in_letter (parameters, c ∷ s) = if is_letter c then length parameters + 3 else 0

-- The length of the sequence `\x1b\[[0-9;?]*[A-Za-z]` that the text begins with, 0 if with none.
abbrev pub ansi_length : Text → ℕ
ansi_length (c ∷ d ∷ s) = if c == 27 && d == b'[' then ends_in_letter (span is_parameter s) else 0
ansi_length _ = 0

-- `replace(ANSI, "")`; the number says how many units are still to be skipped.
unfoldable pub strip_ansi : ℕ → Text → Text
strip_ansi n [] = []
strip_ansi (suc n) (c ∷ s) = strip_ansi n s
strip_ansi zero (c ∷ s) =
    let n = ansi_length (c ∷ s) in
    let kept = strip_ansi 0 s in
    let skipped = strip_ansi (n - 1) s in if n == 0 then c ∷ kept else skipped

-- `replace(ANSI, "").replace(/\r$/, "")`
unfoldable pub clean_line : Text → Text
clean_line s = drop_return (strip_ansi 0 s)
