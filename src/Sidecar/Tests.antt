-- ===== src/Sidecar/Tests.antt =====
-- Rows to try the form of the environment on, and the theorem applied to them.
use app_dockhand.Base.Sets.{has}
use app_dockhand.Base.{refl}
use app_dockhand.Sidecar.Sent.{save_env-bodies, bodies}
use app_dockhand.Base.{
  Text, List, trim, text_eq, some, false, true, txt, trim_start, [], trim_end, ◌≡◌, ◌∷◌, is_space,
  All, is_empty,
}
use app_dockhand.Sidecar.{
  clean_rows, save_env, tab_named, primary, EnvForm, env_step, Kv, repeated, update_at, open_at,
  ContainerState, remove_at, ContainerDetailRestartPolicy, drop_row, ContainerAction, set_key, has,
  add, keys_of, body_of, toast,
}
use app_dockhand.Base.Sets.{IsDistinct}

abbrev kv : Text → Text → Kv
kv k v = record { k = k; v = v }

abbrev two_rows : List Kv
two_rows = kv (txt " A ") (txt "1") ∷ kv (txt " ") (txt "2") ∷ kv (txt "B") [] ∷ []

cleaned : clean_rows two_rows ≡ kv (txt "A") (txt "1") ∷ kv (txt "B") [] ∷ []
unfolding clean_rows trim trim_start trim_end is_space
cleaned = refl

refused_twice :
    save_env true
      (txt "web")
      ContainerDetailRestartPolicy.always
      ContainerDetailRestartPolicy.always
      (kv (txt "A") [] ∷ kv (txt "A ") [] ∷ [])
    ≡ toast (txt "Duplicate variable") (txt "A is set more than once.") ∷ []
unfolding save_env clean_rows repeated trim trim_start trim_end is_space has text_eq
refused_twice = refl

opens_at_env : (open_at (txt "env")).editing ≡ true
unfolding tab_named text_eq
opens_at_env = refl

resumes :
    primary (some ContainerState.paused)
    ≡ some (record { label = txt "Resume"; action = ContainerAction.unpause })
unfolding primary
resumes = refl

abbrev empty_form : EnvForm
empty_form = record {
  editing = false;
  rows = [];
  policy = ContainerDetailRestartPolicy.never;
  saving = false;
}

edited :
    env_step
      (drop_row 0)
      (env_step (set_key 1 (txt "K")) (env_step add (record empty_form { rows = two_rows })))
    ≡ record empty_form { rows = kv (txt "K") (txt "2") ∷ kv (txt "B") [] ∷ kv [] [] ∷ [] }
unfolding env_step update_at remove_at
edited = refl

save_env-bodies_example :
    let sent = bodies (
      save_env true
        (txt "web")
        ContainerDetailRestartPolicy.always
        ContainerDetailRestartPolicy.never
        two_rows) in
    All (λ b. IsDistinct (keys_of b.env) × All (λ k. is_empty k ≡ false) (keys_of b.env)) sent
    × (true ≡ false → sent ≡ [])
    × (¬ IsDistinct (keys_of (clean_rows two_rows)) → sent ≡ [])
    × (true ≡ true
        → IsDistinct (keys_of (clean_rows two_rows))
        → sent
          ≡ body_of ContainerDetailRestartPolicy.always ContainerDetailRestartPolicy.never
              (clean_rows two_rows)
            ∷ [])
save_env-bodies_example =
    save_env-bodies true (txt "web") ContainerDetailRestartPolicy.always
      ContainerDetailRestartPolicy.never two_rows
