-- ===== src/Jobs/Progress.antt =====
-- web/components/jobs/JobProgress.tsx: the numbers and labels of a job's progress. `Math.round` of
-- a quotient is taken exactly. A date is read by the parameter `epoch`, in milliseconds.
pub mod Percent
use app_dockhand.Base.{
  ℕ, ◌+◌, ◌-◌, ◌*◌, ◌/◌, ◌%◌, max, Bool, true, false, ◌||◌, not, Option, none, some, List, [], ◌∷◌,
  ◌++◌, Text, txt, text_eq, find, any, filter, length, if◌then◌else◌, ltb, show, span, ◌==◌,
}
use app_dockhand.Types.Jobs.{Job, JobStatus, JobStep, StepStatus}
use app_dockhand.Jobs.{job_is, step_is}

-- `UpdateStagesDatum["status"]` of web/components/charts/UpdateStages.types.ts
pub data StageStatus : Type 0 where
  done active pending skipped failed : StageStatus

-- `STEP_STATUS`
unfoldable pub stage_status : StepStatus → StageStatus
stage_status StepStatus.done = StageStatus.done
stage_status StepStatus.running = StageStatus.active
stage_status StepStatus.pending = StageStatus.pending
stage_status StepStatus.skipped = StageStatus.skipped
stage_status StepStatus.failed = StageStatus.failed

abbrev pub labels : List (Text × Text)
labels =
    (txt "Fetching repository", txt "Fetch")
    ∷ (txt "Fetching", txt "Fetch")
    ∷ (txt "Uploading to host", txt "Upload")
    ∷ (txt "Updating checkout", txt "Checkout")
    ∷ (txt "Writing .env", txt ".env")
    ∷ (txt "Building & starting", txt "Build & start")
    ∷ (txt "Building", txt "Build")
    ∷ (txt "Starting", txt "Start")
    ∷ (txt "Saving stack", txt "Save")
    ∷ []

-- `map[label] ?? label.split(" ")[0]`
unfoldable pub short_label_from : List (Text × Text) → Text → Text
short_label_from [] label = (span (λ c. not (c == 32)) label).0
short_label_from ((k, v) ∷ rest) label = if text_eq k label then v else short_label_from rest label

unfoldable pub short_label : Text → Text
unfolding short_label_from
short_label label = short_label_from labels label

abbrev pub is_over : JobStep → Bool
is_over s = step_is s.status StepStatus.done || step_is s.status StepStatus.skipped

abbrev pub is_running : JobStep → Bool
is_running s = step_is s.status StepStatus.running

-- `Math.round(a / b)` for a positive `b`
abbrev pub round_div : ℕ → ℕ → ℕ
round_div a b = (2 * a + b) / (2 * b)

-- The share of the steps that are over, a running one counted as half: with halves doubled,
-- `(2 * done + running) / (2 * total) * 100`.
unfoldable pub steps_percent : List JobStep → ℕ
steps_percent steps =
    let total = max 1 (length steps) in
    let half : ℕ = if any is_running steps then 1 else 0 in
    round_div ((2 * length (filter is_over steps) + half) * 100) (2 * total)

unfoldable pub job_percent : Job → ℕ
unfolding steps_percent
job_percent job = if job_is job.status JobStatus.success then 100 else steps_percent job.steps

unfoldable pub current_step : Job → Option JobStep
current_step job = elim (find is_running job.steps) [
  | some s ↦ some s
  | none ↦ find (λ (s : JobStep). step_is s.status StepStatus.failed) job.steps
]

-- Seconds since the start, never below 0.
unfoldable pub elapsed_seconds : (Text → ℕ) → Job → ℕ → ℕ
elapsed_seconds epoch job now =
    let finished : ℕ = elim job.finished_at [ none ↦ now | some t ↦ epoch t ] in
    round_div (finished - epoch job.started_at) 1000

-- `String(n).padStart(2, "0")` of a number below 100
unfoldable pub two_digits : ℕ → Text
two_digits n = if ltb n 10 then b'0' ∷ show n else show n

unfoldable pub elapsed : (Text → ℕ) → Job → ℕ → Text
unfolding elapsed_seconds two_digits
elapsed epoch job now =
    let s = elapsed_seconds epoch job now in show (s / 60) ++ b':' ∷ two_digits (s % 60)
