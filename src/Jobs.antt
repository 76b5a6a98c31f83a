-- ===== src/Jobs.antt =====
-- The progress of a background job: web/components/host/jobs.ts (`trackJob`), web/lib/api.ts
-- (`useJob`) and web/components/jobs/JobProgress.tsx. The server's answers are the input: each poll
-- is answered with a job or fails.
pub mod Track
pub mod Poll
pub mod Progress
mod Tests
use app_dockhand.Base.{Bool, true, false}
use app_dockhand.Types.Jobs.{Job, JobStatus, StepStatus, JobStep}

-- How one `get<Job>` turns out.
pub data Answer : Type 0 where
  answered : Job → Answer
  missed : Answer

-- `job.status === s`
abbrev pub job_is : JobStatus → JobStatus → Bool
job_is JobStatus.running JobStatus.running = true
job_is JobStatus.success JobStatus.success = true
job_is JobStatus.failed JobStatus.failed = true
job_is _ _ = false

-- `step.status === s`
abbrev pub step_is : StepStatus → StepStatus → Bool
step_is StepStatus.pending StepStatus.pending = true
step_is StepStatus.running StepStatus.running = true
step_is StepStatus.done StepStatus.done = true
step_is StepStatus.failed StepStatus.failed = true
step_is StepStatus.skipped StepStatus.skipped = true
step_is _ _ = false
