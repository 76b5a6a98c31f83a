-- ===== src/Git/Tests.antt =====
-- Paths and variables to try the form for a repository on, and the theorems applied to them.
use app_dockhand.Base.{refl, some}
use app_dockhand.Git.Path.{stack_name-rename_path}
use app_dockhand.Git.Seed.{row-seed_env, row, or_row, some_seeded}
use app_dockhand.Base.{
  Text, List, txt, Bool, text_eq, ◌≡◌, [], false, trim, is_space, trim_start, ◌∷◌, true, trim_end,
  split_last,
}
use app_dockhand.Git.{
  seed_env, deploy, stack_name, rename_path, EnvRow, missing, drop_slashes, warn,
}

abbrev variable : Text → Text → Bool → EnvRow
variable k v required = record { k = k; v = v; required = required; comment = [] }

abbrev example_file : List EnvRow
example_file = variable (txt "PORT") (txt "80") false ∷ variable (txt "KEY") [] true ∷ []

abbrev before_seeding : List EnvRow
before_seeding =
    variable (txt "KEY") (txt "secret") false ∷ variable (txt "MINE") (txt "1") false ∷ []

seeded :
    seed_env example_file before_seeding
    ≡ variable (txt "PORT") (txt "80") false
      ∷ variable (txt "KEY") (txt "secret") true
      ∷ variable (txt "MINE") (txt "1") false
      ∷ []
unfolding seed_env text_eq
seeded = refl

needs_key :
    deploy (some (txt "h1")) (txt "compose.yml") (txt "/srv/app") example_file
    ≡ warn (txt "Fill in the required variables") (txt "KEY")
unfolding deploy missing trim trim_start trim_end is_space
needs_key = refl

named_by_path : stack_name (txt " /srv/stacks/app// ") (txt "repo") ≡ txt "app"
unfolding stack_name drop_slashes trim trim_start trim_end is_space split_last
named_by_path = refl

named_by_repo : stack_name (txt "/") (txt "repo") ≡ txt "repo"
unfolding stack_name drop_slashes trim trim_start trim_end is_space split_last
named_by_repo = refl

renamed : rename_path (txt "/srv/stacks/app/") (txt "app2") ≡ txt "/srv/stacks/app2"
unfolding rename_path drop_slashes trim trim_start trim_end is_space split_last
renamed = refl

stack_name-rename_path_example :
    stack_name (rename_path (txt "/srv/stacks/app/") (txt "app2")) (txt "repo") ≡ txt "app2"
unfolding is_space
stack_name-rename_path_example =
    stack_name-rename_path (txt "/srv/stacks/app/") (txt "app2") (txt "repo") refl refl (λ e. cc)

row-seed_env_example :
    row (txt "KEY") (seed_env example_file before_seeding)
    ≡ or_row
        (some_seeded before_seeding (row (txt "KEY") example_file))
        (row (txt "KEY") before_seeding)
row-seed_env_example = row-seed_env (txt "KEY") example_file before_seeding
