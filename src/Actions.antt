-- ===== src/Actions.antt =====
-- `useContainerActions` of web/components/host/ContainersTab.tsx, with `act` of
-- web/components/host/jobs.ts: the actions on one container, with the few texts of the tab that do not
-- depend on the time. Lower case is a parameter.
pub mod Requests
mod Tests
use app_dockhand.Jobs.Track.{Effect, Started, TrackOptions, ToastKind, track_job}
use app_dockhand.Base.{
  Text, Bool, List, [], true, txt, ◌++◌, is_empty, if◌then◌else◌, false, ◌∷◌, map, some, Option,
  ◌||◌, ◌==◌, includes, none,
}
use app_dockhand.Types.Containers.{ContainerAction, Container, ContainerState}
use app_dockhand.Jobs.{Answer}
use app_dockhand.Types.Jobs.{Job}
use app_dockhand.Format.{container_state_label}

-- What the code does to the page and to the API, in order.
pub data ActionEffect : Type 0 where
  ask : Text → List (Text × Text) → ActionEffect
  request : Text → ActionEffect
  delete : Text → ActionEffect
  page : Effect → ActionEffect

-- The answer to a request, or the message of its error.
pub data Reply : Type 0 where
  accepted : Reply
  refused : Text → Reply

-- `act`: its toast, with the title for either end.
unfoldable pub act : Text → Text → Reply → ActionEffect
act title err_title accepted = page (Effect.toast ToastKind.ok title [])
act title err_title (refused message) = page (Effect.toast ToastKind.error err_title message)

abbrev pub is_accepted : Reply → Bool
is_accepted accepted = true
is_accepted (refused message) = false

-- `label[action]`, the action in the path, and in the text of an error. The actions that `run` takes are
-- those other than "update", which has no label.
abbrev pub past : ContainerAction → Text
past ContainerAction.start = txt "Started"
past ContainerAction.stop = txt "Stopped"
past ContainerAction.restart = txt "Restarted"
past ContainerAction.pause = txt "Paused"
past ContainerAction.unpause = txt "Resumed"
past ContainerAction.kill = txt "Killed"
past ContainerAction.update = txt "undefined"

abbrev pub action_name : ContainerAction → Text
action_name ContainerAction.start = txt "start"
action_name ContainerAction.stop = txt "stop"
action_name ContainerAction.restart = txt "restart"
action_name ContainerAction.pause = txt "pause"
action_name ContainerAction.unpause = txt "unpause"
action_name ContainerAction.kill = txt "kill"
action_name ContainerAction.update = txt "update"

abbrev pub to_action : ContainerAction → Text
to_action ContainerAction.unpause = txt "resume"
to_action a = action_name a

abbrev pub host_path : Text → Text
host_path host = txt "/api/hosts/" ++ host

abbrev pub container_path : Text → Container → Text
container_path host c = host_path host ++ (txt "/containers/" ++ c.id)

abbrev pub caches : Text → List Text
caches host = host_path host ∷ txt "/api/containers" ∷ txt "/api/overview" ∷ []

unfoldable pub refresh : Text → List ActionEffect
refresh host = map (λ p. page (Effect.invalidate p)) (caches host)

-- `run`
unfoldable pub run_action : Text → Container → ContainerAction → Reply → List ActionEffect
run_action host c action reply =
    request (container_path host c ++ b'/' ∷ action_name action)
    ∷ act (past action ++ b' ' ∷ c.name) (txt "Couldn't " ++ (to_action action ++ b' ' ∷ c.name))
        reply
    ∷ refresh host

-- `update`: with whether the user consents, how the job starts, and the answers to its polls.
abbrev pub version_rows : Text → List (Text × Text)
version_rows tag = if is_empty tag then [] else (txt "New version", tag) ∷ []

abbrev pub update_options : Text → Container → TrackOptions
update_options host c = record {
  title = txt "Updating " ++ c.name;
  done = some (c.name ++ txt " updated");
  prefixes = some (caches host);
  quiet = false;
  has_on_done = false;
}

abbrev pub update_question : Container → ActionEffect
update_question c =
    ask (txt "Update " ++ (c.name ++ txt "?")) ((txt "Image", c.image) ∷ version_rows c.update.tag)

abbrev pub tracked :
    Text → List Effect × Option (Option Job) → List ActionEffect × Option (Option Job)
tracked path (es, r) = (request path ∷ map page es, r)

-- The effects, and the result of the job once there is one; none without consent.
unfoldable pub update_container :
    Text → Container → Bool → Bool → Started → List Answer → List ActionEffect × Option (Option Job)
update_container host c asks consent started answers =
    let (es, r) =
      tracked (container_path host c ++ txt "/update")
        (track_job started (update_options host c) answers) in
    if asks
    then if consent then (update_question c ∷ es, r) else (update_question c ∷ [], none)
    else (es, r)

-- `remove`: the effects, and whether it is removed.
unfoldable pub remove_container : Text → Container → Bool → Reply → List ActionEffect × Bool
remove_container host c consent reply =
    let question = ask (txt "Remove " ++ (c.name ++ txt "?")) ((txt "Image", c.image) ∷ []) in
    if consent
    then (
      question
          ∷ delete (container_path host c ++ txt "?force=1&volumes=0")
          ∷ act (txt "Removed " ++ c.name) (txt "Couldn't remove " ++ c.name) reply
          ∷ refresh host,
      is_accepted reply,
    )
    else (question ∷ [], false)

module _ (to_lower : Text → Text) where
  -- `matchContainer`
  unfoldable pub match_container : Container → Text → Bool
  match_container c q =
      is_empty q
      || includes (to_lower c.name) (to_lower q)
      || includes (to_lower c.image) (to_lower q)
      || includes (to_lower c.stack) (to_lower q)

-- `stateShort`
abbrev pub is_exited : ContainerState → Bool
is_exited ContainerState.exited = true
is_exited _ = false

unfoldable pub state_short : Container → Text
state_short c =
    if is_exited c.state
    then if c.exit_code == 0 then txt "Stopped" else txt "Crashed"
    else container_state_label c.state c.health
