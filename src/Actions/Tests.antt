-- ===== src/Actions/Tests.antt =====
-- A container to try the actions on, and the theorem applied to it.
use app_dockhand.Jobs.Track.Outcome.{misses_in, first_finished}
use app_dockhand.Actions.Requests.{polls_of}
use app_dockhand.Base.{includes, ℕ, ◌≤◌, length}
use app_dockhand.Base.{refl, txt, ◌++◌, ◌∷◌, [], some, List, ◌≡◌, starts_with, ◌&&◌, not}
use app_dockhand.Jobs.{Answer, answered, missed}
use app_dockhand.Jobs.Track.{job_id, toast, ToastKind}
use app_dockhand.Actions.Requests.{update_container_lem, requests}
use app_dockhand.Types.Jobs.{Job, JobStatus, JobKind}
use app_dockhand.Types.Containers.{Container, Health}
use app_dockhand.Actions.{
  state_short, run_action, match_container, ContainerState, none, act, includes, true,
  ContainerAction, refused, request, false, page, container_path, refresh, run_action,
  update_container, Text,
}

abbrev web : Container
web = record {
  id = txt "c1";
  short_id = [];
  host_id = txt "h1";
  name = txt "web";
  image = txt "nginx";
  image_id = [];
  state = ContainerState.exited;
  status = [];
  health = Health.healthy;
  exit_code = 1;
  stack = [];
  service = [];
  cpu = 0;
  mem_used = 0;
  mem_limit = 0;
  ports = [];
  created_at = [];
  started_at = none;
  finished_at = none;
  update = record { available = true; tag = txt "2.0"; checked_at = none };
}

abbrev update_job : JobStatus → Job
update_job status = record {
  id = txt "j1";
  kind = JobKind.update;
  title = txt "Update web";
  host_id = some (txt "h1");
  status = status;
  actor = [];
  steps = [];
  log = [];
  result = [];
  started_at = [];
  finished_at = none;
}

abbrev polls : List Answer
polls =
    answered (update_job JobStatus.running) ∷ missed ∷ answered (update_job JobStatus.success) ∷ []

crashed : state_short web ≡ txt "Crashed"
unfolding state_short
crashed = refl

resumed :
    run_action (txt "h1") web ContainerAction.unpause (refused (txt "no"))
    ≡ request (txt "/api/hosts/h1/containers/c1/unpause")
      ∷ page (toast ToastKind.error (txt "Couldn't resume web") (txt "no"))
      ∷ refresh (txt "h1")
unfolding run_action act
resumed = refl

found : match_container (λ s. s) web (txt "ngin") ≡ true
unfolding match_container includes starts_with
found = refl

update_container_lem_example :
    let (es, r) = update_container (txt "h1") web true true (job_id (txt "j1")) polls in
    ((true && not true) ≡ true → (requests es ≡ []) × (r ≡ none))
    × ((true && not true) ≡ false
        → (k : ℕ) × (k ≤ length polls)
          × (requests es
              ≡ (container_path (txt "h1") web ++ txt "/update") ∷ polls_of (job_id (txt "j1")) k))
    × ((true && not true) ≡ false
        → (id : Text) (j : Job) → job_id (txt "j1") ≡ job_id id
        → misses_in polls ≤ 20
        → first_finished polls ≡ some j
        → r ≡ some (some j))
update_container_lem_example =
    update_container_lem (txt "h1") web true true (job_id (txt "j1")) polls
