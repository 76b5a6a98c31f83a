-- ===== src/Types/Jobs.antt =====
-- web/lib/types.ts, lines 290 to 323: background jobs, as the API serialises them.
use app_dockhand.Base.{Text, List, Option}

pub data StepStatus : Type 0 where
  pending running done failed skipped : StepStatus

pub record JobStep : Type 0 where
  pub label : Text
  pub sub : Text
  pub status : StepStatus
  pub t : Text

pub data JobLogLineLevel : Type 0 where
  info ok warn error cmd muted : JobLogLineLevel

pub record JobLogLine : Type 0 where
  pub text : Text
  pub level : JobLogLineLevel

pub data JobKind : Type 0 where
  git image compose pull update backup stack self_update prune : JobKind

pub data JobStatus : Type 0 where
  running success failed : JobStatus

pub record Job : Type 0 where
  pub id : Text
  pub kind : JobKind
  pub title : Text
  pub host_id : Option Text
  pub status : JobStatus
  pub actor : Text
  pub steps : List JobStep
  pub log : List JobLogLine
  pub result : List (Text × Text)
  pub started_at : Text
  pub finished_at : Option Text

pub record JobRef : Type 0 where
  pub job_id : Text
