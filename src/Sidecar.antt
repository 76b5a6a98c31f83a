-- ===== src/Sidecar.antt =====
-- web/components/sidecar/ContainerSidecar.tsx: the tabs of a container, the editing of its environment,
-- its ports and the colours of its events. `trim`med keys and lower case are those of JavaScript; lower
-- case is a parameter.
mod Tests
pub mod Sent
use Prim.Native.Nat.{ℕ, suc, zero, zero}
use app_dockhand.Base.{
  Text, Bool, Option, List, if◌then◌else◌, text_eq, trim, map, none, some, [], ◌∷◌, true, txt,
  filter, false, ◌&&◌, not, ◌++◌, is_empty,
}
use app_dockhand.Types.Containers.{
  Kv, ContainerDetailRestartPolicy, ContainerAction, ContainerState, EnvVar,
}
use app_dockhand.Base.Sets.{has}

pub data SideTab : Type 0 where
  overview env mounts logs events : SideTab

-- `TABS.some((t) => t.value === initialTab) ? initialTab : "overview"`; an absent tab is an empty text,
-- which names none either.
unfoldable pub tab_named : Text → SideTab
tab_named t =
    if text_eq t (txt "env")
    then SideTab.env
    else if text_eq t (txt "mounts")
    then SideTab.mounts
    else if text_eq t (txt "logs")
    then SideTab.logs
    else if text_eq t (txt "events")
    then SideTab.events
    else SideTab.overview

-- `tab` and `editing`, as they are set at first and when the container or its tab changes.
pub record SidecarView : Type 0 where
  pub tab : SideTab
  pub editing : Bool

abbrev pub open_at : Text → SidecarView
open_at initial = record { tab = tab_named initial; editing = text_eq initial (txt "env") }

-- The button that stands first.
pub record Primary : Type 0 where
  pub label : Text
  pub action : ContainerAction

unfoldable pub primary : Option ContainerState → Option Primary
primary none = none
primary (some ContainerState.running) =
    some (record { label = txt "Stop"; action = ContainerAction.stop })
primary (some ContainerState.restarting) =
    some (record { label = txt "Stop"; action = ContainerAction.stop })
primary (some ContainerState.paused) =
    some (record { label = txt "Resume"; action = ContainerAction.unpause })
primary (some _) = some (record { label = txt "Start"; action = ContainerAction.start })

-- `rows.filter((r) => r.k.trim()).map((r) => ({ k: r.k.trim(), v: r.v }))`
abbrev pub clean_row : Kv → Kv
clean_row r = record { k = trim r.k; v = r.v }

unfoldable pub clean_rows : List Kv → List Kv
clean_rows rows = map clean_row (filter (λ (r : Kv). not (is_empty (trim r.k))) rows)

abbrev pub keys_of : List Kv → List Text
keys_of rows = map (λ (r : Kv). r.k) rows

-- `keys.find((k, i) => keys.indexOf(k) !== i)`: the first key that stands in front of itself already.
unfoldable pub repeated : List Text → List Text → Option Text
repeated seen [] = none
repeated seen (k ∷ ks) = let rest = repeated (k ∷ seen) ks in if has k seen then some k else rest

abbrev pub policy_is : ContainerDetailRestartPolicy → ContainerDetailRestartPolicy → Bool
policy_is ContainerDetailRestartPolicy.never ContainerDetailRestartPolicy.never = true
policy_is ContainerDetailRestartPolicy.always ContainerDetailRestartPolicy.always = true
policy_is ContainerDetailRestartPolicy.unless_stopped ContainerDetailRestartPolicy.unless_stopped =
    true
policy_is ContainerDetailRestartPolicy.on_failure ContainerDetailRestartPolicy.on_failure = true
policy_is _ _ = false

-- The body of the PATCH.
pub record EnvBody : Type 0 where
  pub env : List Kv
  pub restart_policy : Option ContainerDetailRestartPolicy

pub data EnvEffect : Type 0 where
  toast : Text → Text → EnvEffect
  ask : Text → EnvEffect
  patch : EnvBody → EnvEffect

abbrev pub body_of : ContainerDetailRestartPolicy → ContainerDetailRestartPolicy → List Kv → EnvBody
body_of policy old rows = record {
  env = rows;
  restart_policy = if policy_is policy old then none else some policy;
}

abbrev pub save_clean :
    Bool
    → Text
    → ContainerDetailRestartPolicy
    → ContainerDetailRestartPolicy
    → List Kv
    → Option Text
    → List EnvEffect
save_clean consent name policy old rows (some dup) =
    toast (txt "Duplicate variable") (dup ++ txt " is set more than once.") ∷ []
save_clean consent name policy old rows none =
    ask (txt "Recreate " ++ (name ++ txt "?"))
    ∷ (if consent then patch (body_of policy old rows) ∷ [] else [])

-- `save`, with whether the user consents.
unfoldable pub save_env :
    Bool
    → Text
    → ContainerDetailRestartPolicy
    → ContainerDetailRestartPolicy
    → List Kv
    → List EnvEffect
save_env consent name policy old rows =
    save_clean consent name policy old (clean_rows rows) (repeated [] (keys_of (clean_rows rows)))

-- The form: `setEditing(true)` takes a snapshot, and a job that ends ends the editing if it succeeds.
pub record EnvForm : Type 0 where
  pub editing : Bool
  pub rows : List Kv
  pub policy : ContainerDetailRestartPolicy
  pub saving : Bool

pub data EnvEvent : Type 0 where
  edit : List EnvVar → ContainerDetailRestartPolicy → EnvEvent
  cancel add : EnvEvent
  set_key set_value : ℕ → Text → EnvEvent
  drop_row : ℕ → EnvEvent
  choose : ContainerDetailRestartPolicy → EnvEvent
  sent : EnvEvent
  finished : Bool → EnvEvent

-- `rows.map((x, j) => (j === i ? f(x) : x))` and `rows.filter((_, j) => j !== i)`
unfoldable pub update_at : ℕ → (Kv → Kv) → List Kv → List Kv
update_at i f [] = []
update_at zero f (r ∷ rs) = f r ∷ rs
update_at (suc i) f (r ∷ rs) = r ∷ update_at i f rs

unfoldable pub remove_at : ℕ → List Kv → List Kv
remove_at i [] = []
remove_at zero (r ∷ rs) = rs
remove_at (suc i) (r ∷ rs) = r ∷ remove_at i rs

unfoldable pub env_step : EnvEvent → EnvForm → EnvForm
env_step (edit vars policy) f = if f.editing then f else record f {
  editing = true;
  rows = map (λ (e : EnvVar). record { k = e.k; v = e.v }) vars;
  policy = policy;
}
env_step cancel f = if f.saving then f else record f { editing = false }
env_step add f = record f { rows = f.rows ++ record { k = []; v = [] } ∷ [] }
env_step (set_key i k) f = record f { rows = update_at i (λ (r : Kv). record r { k = k }) f.rows }
env_step (set_value i v) f = record f { rows = update_at i (λ (r : Kv). record r { v = v }) f.rows }
env_step (drop_row i) f = record f { rows = remove_at i f.rows }
env_step (choose p) f = record f { policy = p }
env_step sent f = record f { saving = true }
env_step (finished ok) f = record f { saving = false; editing = if ok then false else f.editing }

-- What the tab shows of a variable.
unfoldable pub shown_value : Bool → EnvVar → Text
shown_value show e =
    if e.secret && not show then txt "••••••••" else if is_empty e.v then b'"' ∷ b'"' ∷ [] else e.v
