-- ===== src/Git.antt =====
-- `GitConfigure` of web/components/deploy/GitFlow.tsx: the form that deploys a repository.
mod Tests
pub mod Path
pub mod Seed
use app_dockhand.Base.{
  Text, List, Option, Bool, find, map, filter, ◌∷◌, if◌then◌else◌, split_last, trim, txt, text_eq,
  reverse, ◌++◌, ◌&&◌, not, is_empty, [], any, ◌==◌, some,
}
use app_dockhand.Types.Containers.{Kv}
use app_dockhand.Format.{join_comma}
use mathlib.Core.Option.{none}

pub record EnvRow : Type 0 where
  pub k : Text
  pub v : Text
  pub required : Bool
  pub comment : Text

abbrev pub has_key : Text → EnvRow → Bool
has_key k e = text_eq e.k k

-- `new Map(cur.map((e) => [e.k, e.v])).get(k) ?? v`; of two rows with one key the later one counts.
abbrev pub typed_value : List EnvRow → Text → Text → Text
typed_value cur k v = elim (find (has_key k) (reverse cur)) [ none ↦ v | some e ↦ e.v ]

-- The update of the rows from `inspect.data.env`.
unfoldable pub seed_env : List EnvRow → List EnvRow → List EnvRow
seed_env env cur =
    map (λ (e : EnvRow). record e { v = typed_value cur e.k e.v }) env
    ++ filter (λ (e : EnvRow). not (any (has_key e.k) env)) cur

-- `missing`
unfoldable pub missing : List EnvRow → List EnvRow
missing env = filter (λ (e : EnvRow). e.required && is_empty (trim e.v)) env

-- `cleanEnv`; a key is tested without its blanks and kept with them.
unfoldable pub clean_env : List EnvRow → List Kv
clean_env env =
    map (λ (e : EnvRow). record { k = e.k; v = e.v })
      (filter (λ (e : EnvRow). not (is_empty (trim e.k))) env)

-- `replace(/\/+$/, "")`
unfoldable pub drop_slashes : Text → Text
drop_slashes [] = []
drop_slashes (c ∷ s) =
    let rest = drop_slashes s in if is_empty rest && (c == b'/') then [] else c ∷ rest

-- `a || b` on texts
abbrev pub or_text : Text → Text → Text
or_text a b = if is_empty a then b else a

-- `split("/").pop()` and `split("/").slice(0, -1).join("/")`
abbrev pub last_segment : Text → Text
last_segment s = elim (split_last b'/' s) [ none ↦ s | some (before, after) ↦ after ]

abbrev pub all_but_last : Text → Text
all_but_last s = elim (split_last b'/' s) [ none ↦ [] | some (before, after) ↦ before ]

-- `stackName`
unfoldable pub stack_name : Text → Text → Text
stack_name path repo = or_text (last_segment (drop_slashes (trim path))) repo

-- `applyFix` with a name.
unfoldable pub rename_path : Text → Text → Text
rename_path path name =
    or_text (all_but_last (drop_slashes (trim path))) (txt "/opt/dockhand/stacks") ++ b'/' ∷ name

pub data GitEffect : Type 0 where
  warn : Text → Text → GitEffect
  post : Text → Text → Text → List Kv → GitEffect

-- `deploy` up to its request, whose body is the host, the file, the path and the variables, beside the
-- repository, its branch and a flag; an absent host has no id.
unfoldable pub deploy : Option Text → Text → Text → List EnvRow → GitEffect
deploy none file path env = warn (txt "Pick a host to deploy to") []
deploy (some host) file path env =
    if is_empty file
    then warn (txt "This repo has no compose file selected") []
    else if is_empty (missing env)
    then post host file (trim path) (clean_env env)
    else warn (txt "Fill in the required variables")
        (join_comma (map (λ (e : EnvRow). e.k) (missing env)))
