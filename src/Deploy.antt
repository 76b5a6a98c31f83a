-- ===== src/Deploy.antt =====
-- web/components/deploy/shared.tsx: what the deploy forms share. Reading a `.env` file, merging
-- variables into the rows of a form, the pre-flight check, and the texts about its issues.
pub mod Merge
pub mod Check
mod Tests
use app_dockhand.Base.{
  refl, ℕ, Bool, suc, leb, ◌||◌, Text, List, Option, ◌&&◌, ◌==◌, is_digit, none, false,
  if◌then◌else◌, some, ◌∷◌, take, trim, [], show, trim_start, span, is_space, starts_with, length,
  is_empty, ◌++◌, ◌*◌, txt, not, drop, ◌-◌, ◌+◌, get_elem?, ◌%◌, ◌^◌, is_letter, split_lines,
  starts_with_space,
}
use app_dockhand.Types.Containers.{Kv}

-- `[A-Za-z_]` and `[A-Za-z0-9_.-]`
abbrev pub is_name_start : ℕ → Bool
is_name_start c = is_letter c || c == b'_'

abbrev pub is_name_char : ℕ → Bool
is_name_char c = is_name_start c || is_digit c || c == b'.' || c == b'-'

abbrev pub value_of : Text → Text → Option (Text × Text)
value_of name [] = none
value_of name (c ∷ s) = if c == b'=' then some (name, trim_start s) else none

-- `([A-Za-z_][A-Za-z0-9_.-]*)\s*=\s*(.*)$`
unfoldable pub assignment : Text → Option (Text × Text)
assignment [] = none
assignment (c ∷ s) =
    if is_name_start c
    then (let (name, rest) = span is_name_char s in value_of (c ∷ name) (trim_start rest))
    else none

-- `export\s+` in front of an assignment.
unfoldable pub exported : Text → Option (Text × Text)
exported line =
    if starts_with line (txt "export") && starts_with_space (drop 6 line)
    then assignment (trim_start (drop 6 line))
    else none

abbrev pub or_assignment : Text → Option (Text × Text) → Option (Text × Text)
or_assignment line none = assignment line
or_assignment line (some m) = some m

abbrev pub ends_with : ℕ → Text → Bool
ends_with q [] = false
ends_with q (c ∷ []) = c == q
ends_with q (c ∷ d ∷ s) = ends_with q (d ∷ s)

abbrev pub is_quoted : ℕ → Text → Bool
is_quoted q [] = false
is_quoted q (c ∷ s) = c == q && ends_with q s

abbrev pub is_comment : Text → Bool
is_comment [] = false
is_comment (c ∷ s) = c == b'#'

-- `v.replace(/\s+#.*$/, "")`
unfoldable pub drop_comment : Text → Text
drop_comment [] = []
drop_comment (c ∷ s) =
    let rest = drop_comment s in if is_space c && is_comment (trim_start s) then [] else c ∷ rest

-- `v.slice(1, -1)` of a text with at least two units.
abbrev pub inner : Text → Text
inner v = take (length v - 2) (drop 1 v)

-- 39 is the single quote.
unfoldable pub env_value : Text → Text
env_value v = if is_quoted b'"' v || is_quoted 39 v then inner v else drop_comment v

-- The variable of a line, if it has one.
unfoldable pub env_line : Text → Option Kv
env_line raw =
    let line = trim raw in
    if is_empty line || is_comment line then none else elim (or_assignment line (exported line)) [
      | none ↦ none
      | some (k, v) ↦ some (record { k = k; v = env_value v })
    ]

abbrev pub env_lines : List Text → List Kv
env_lines [] = []
env_lines (raw ∷ raws) = elim (env_line raw) [
  | none ↦ env_lines raws
  | some kv ↦ kv ∷ env_lines raws
]

unfoldable pub parse_dotenv : Text → List Kv
parse_dotenv text = env_lines (split_lines [] text)

-- `(h * 31 + c) >>> 0` over the units
unfoldable pub hash_from : ℕ → Text → ℕ
hash_from h [] = h
hash_from h (c ∷ s) = hash_from ((h * 31 + c) % 2 ^ 32) s

-- An empty palette gives `undefined`.
unfoldable pub hash_color : Text → List Text → Option Text
hash_color s palette =
    if is_empty palette then none else get_elem? palette (hash_from 0 s % length palette)

abbrev pub plural_s : ℕ → Text
plural_s n = if n == 1 then [] else txt "s"

unfoldable pub issue_title : ℕ → ℕ → Text
issue_title crit warn =
    let warnings = show warn ++ (txt " warning" ++ plural_s warn) in
    if crit == 0
    then warnings
    else show crit
      ++ (txt " thing"
          ++ (plural_s crit
              ++ (txt " to fix before deploying"
                  ++ (if warn == 0 then [] else txt " · " ++ warnings))))

unfoldable pub deploy_btn_label : ℕ → ℕ → Option Text → Text
deploy_btn_label crit warn host_name =
    if not (crit == 0)
    then txt "Fix " ++ (show crit ++ (txt " issue" ++ (plural_s crit ++ txt " to deploy")))
    else if not (warn == 0)
    then txt "Deploy anyway"
    else txt "Deploy to " ++ elim host_name [ none ↦ txt "…" | some n ↦ n ]
