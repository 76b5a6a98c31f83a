-- ===== src/Jobs/Poll.antt =====
-- `useJob` of web/lib/api.ts: the effect that polls one job until it finishes. Between two events
-- the hook either waits for an answer, or for its timer, or does nothing more.
pub mod Trace
use app_dockhand.Base.{ℕ, Bool, true, false, Option, none, some, List, [], ◌∷◌, if◌then◌else◌}
use app_dockhand.Types.Jobs.{Job, JobStatus}
use app_dockhand.Jobs.{Answer, answered, missed, job_is}

pub record JobHook : Type 0 where
  pub job : Option Job
  pub alive : Bool
  pub asking : Bool  -- a request is under way
  pub timer : Option ℕ  -- the delay of the timer that is set

-- `respond`: the request under way is answered; `fire`: the timer runs out; `cleanup`: the job's id
-- changes or the component goes.
pub data Event : Type 0 where
  respond : Answer → Event
  fire cleanup : Event

-- `useEffect` with a job id: `setJob(null)`, then the first `tick()`.
pub start : JobHook
start = record { job = none; alive = true; asking = true; timer = none }

-- What `tick` does when its request is answered.
unfoldable pub receive : JobHook → Answer → JobHook
receive s (answered j) =
    if s.alive
    then record s {
      job = some j;
      asking = false;
      timer = if job_is j.status JobStatus.running then some 700 else none;
    }
    else record s { asking = false }
receive s missed =
    if s.alive then record s { asking = false; timer = some 1500 } else record s { asking = false }

abbrev pub fire_timer : JobHook → Option ℕ → JobHook
fire_timer s none = s
fire_timer s (some delay) = record s { asking = true; timer = none }

-- An event that cannot happen, an answer to no request or a timer that is not set, changes nothing.
unfoldable pub step : JobHook → Event → JobHook
unfolding receive
step s (respond a) = if s.asking then receive s a else s
step s fire = fire_timer s s.timer
step s cleanup = record s { alive = false; timer = none }

unfoldable pub run : JobHook → List Event → JobHook
run s [] = s
run s (e ∷ es) = run (step s e) es
