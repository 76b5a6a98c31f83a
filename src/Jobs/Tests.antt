-- ===== src/Jobs/Tests.antt =====
-- Jobs to try the progress functions on, and the theorems applied to them.
use app_dockhand.Base.{
  ◌≡◌, refl, ◌≤◌, ◌<◌, true, false, none, some, List, [], ◌∷◌, ◌++◌, Text, txt, arith, replicate,
  filter, all, length, text_eq, show, span,
}
use app_dockhand.Types.Jobs.{Job, JobStatus, JobKind, JobStep, StepStatus}
use app_dockhand.Jobs.{answered, missed, job_is}
use app_dockhand.Jobs.Track.{TrackOptions, job_id, track_job, announce, toast, error, failure_text}
use app_dockhand.Jobs.Track.Outcome.{is_toast, track_job-first_finished, track_job-lost_running}
use app_dockhand.Jobs.Poll.{Event, respond, fire, start, run}
use app_dockhand.Jobs.Poll.Trace.{IsSound, run-start-IsSound}
use app_dockhand.Jobs.Progress.{is_over, job_percent, short_label, elapsed}
use app_dockhand.Jobs.Progress.Percent.{job_percent_bounds}

abbrev a_step : Text → StepStatus → JobStep
a_step label status = record { label = label; sub = []; status = status; t = [] }

abbrev a_job : JobStatus → Job
a_job status = record {
  id = txt "j1";
  kind = JobKind.pull;
  title = txt "Pull nginx";
  host_id = none;
  status = status;
  actor = [];
  steps = a_step (txt "Fetching") StepStatus.done ∷ a_step (txt "Starting") StepStatus.running ∷ [];
  log = [];
  result = [];
  started_at = txt "1234";
  finished_at = none;
}

abbrev options : TrackOptions
options = record {
  title = txt "Pull";
  done = none;
  prefixes = none;
  quiet = false;
  has_on_done = true;
}

percent : job_percent (a_job JobStatus.running) ≡ 75
unfolding job_percent
percent = refl

shortened : short_label (txt "Pulling image") ≡ txt "Pulling"
unfolding short_label text_eq span
shortened = refl

clocked : elapsed length (a_job JobStatus.running) 65004 ≡ txt "1:05"
unfolding elapsed show
clocked = refl

track_job-first_finished_example :
    (track_job
      (job_id (txt "j1"))
      options
      (answered (a_job JobStatus.running) ∷ missed ∷ answered (a_job JobStatus.success) ∷ [])).1
    ≡ some (some (a_job JobStatus.success))
track_job-first_finished_example =
    track_job-first_finished (txt "j1") options
      (answered (a_job JobStatus.running) ∷ missed ∷ answered (a_job JobStatus.success) ∷ [])
      (a_job JobStatus.success) (omega arith) refl

track_job-lost_running_example :
    filter is_toast
      (track_job
        (job_id (txt "j1"))
        options
        (answered (a_job JobStatus.running) ∷ replicate 21 missed ++ [])).0
    ≡ announce options
      ++ toast error (txt "Pull" ++ txt " failed") (failure_text (a_job JobStatus.running)) ∷ []
track_job-lost_running_example =
    track_job-lost_running (txt "j1") options (a_job JobStatus.running) [] refl

abbrev events : List Event
events = respond (answered (a_job JobStatus.running)) ∷ fire ∷ []

run-start-IsSound_example : IsSound (run start events)
run-start-IsSound_example = run-start-IsSound events

job_percent_bounds_example :
    (job_percent (a_job JobStatus.running) ≤ 100)
    × ((a_job JobStatus.running).status ≡ JobStatus.success
        → job_percent (a_job JobStatus.running) ≡ 100)
    × (job_is JobStatus.running JobStatus.success ≡ false
        → all is_over (a_job JobStatus.running).steps ≡ false
        → length (a_job JobStatus.running).steps < 100
        → job_percent (a_job JobStatus.running) < 100)
job_percent_bounds_example = job_percent_bounds (a_job JobStatus.running)
