-- ===== src/Deploy/Tests.antt =====
-- Inputs of the deploy forms, and the theorems applied to them.
use app_dockhand.Base.{
  refl, Text, Option, List, show, txt, if◌then◌else◌, ◌≡◌, text_eq, ◌∷◌, [], none, some, true,
  is_empty, span, trim, trim_start, trim_end, is_space, starts_with, split_lines,
}
use app_dockhand.Types.Containers.{Kv}
use app_dockhand.Types.Deploy.{DeployCheckResult}
use app_dockhand.Deploy.{
  parse_dotenv, hash_color, issue_title, hash_from, env_line, exported, assignment, env_value,
  drop_comment,
}
use app_dockhand.Deploy.Check.{
  check_step, CheckEvent, change_input, input, send_check, fire, check_run, settle, start_check,
  result-check_run,
}

abbrev kv : Text → Text → Kv
kv k v = record { k = k; v = v }

read_env :
    parse_dotenv (txt "# db\nexport A=1 # one\n B = \"x # y\"\nexport=2\n1C=3\nD='q\n")
    ≡ kv (txt "A") (txt "1")
      ∷ kv (txt "B") (txt "x # y")
      ∷ kv (txt "export") (txt "2")
      ∷ kv (txt "D") (txt "'q")
      ∷ []
unfolding parse_dotenv split_lines env_line exported assignment env_value drop_comment span trim
    trim_start trim_end is_space starts_with
read_env = refl

hashed : hash_color (txt "web") (txt "a" ∷ txt "b" ∷ txt "c" ∷ []) ≡ some (txt "a")
unfolding hash_color hash_from
hashed = refl

titled : issue_title 2 1 ≡ txt "2 things to fix before deploying · 1 warning"
unfolding issue_title show
titled = refl

abbrev set_kv : Option Kv → Kv → Kv
set_kv row v = v

abbrev rows : List Kv
rows = kv (txt "A") (txt "0") ∷ kv (txt "B") (txt "0") ∷ []

abbrev vars : List Kv
vars = kv (txt "B") (txt "1") ∷ kv (txt "C") (txt "2") ∷ kv (txt "B") (txt "3") ∷ []

abbrev a_server : Text → Option DeployCheckResult
a_server key = if text_eq key (txt "bad") then none else some (record { ok = true; issues = [] })

abbrev typed : List CheckEvent
typed = input (txt "a") ∷ fire ∷ input (txt "ab") ∷ fire ∷ settle 0 ∷ settle 0 ∷ []

result-check_run_example : (check_run a_server start_check typed).result ≡ (
    if is_empty (check_run a_server start_check typed).key
    then none
    else a_server (check_run a_server start_check typed).key)
unfolding check_step change_input send_check text_eq
result-check_run_example = result-check_run a_server typed refl
