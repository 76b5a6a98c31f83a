-- ===== src/Jobs/Track.antt =====
-- `trackJob` of web/components/host/jobs.ts. What it does to the page is the list of its effects, in
-- order; what it returns stands beside them.
pub mod Outcome
use app_dockhand.Base.{
  ℕ, suc, Bool, true, false, not, Option, none, some, List, [], ◌∷◌, ◌++◌, map, reverse, Text, txt,
  find, is_empty, if◌then◌else◌, ltb,
}
use app_dockhand.Types.Jobs.{Job, JobStatus, JobStep, StepStatus, JobLogLine, JobLogLineLevel}
use app_dockhand.Jobs.{Answer, answered, missed, job_is, step_is}

pub data ToastKind : Type 0 where
  info ok warn error : ToastKind

pub data Effect : Type 0 where
  toast : ToastKind → Text → Text → Effect
  sleep : ℕ → Effect
  fetch : Text → Effect
  invalidate : Text → Effect
  on_done : Job → Effect

-- `opts`; an absent `quiet` is false.
pub record TrackOptions : Type 0 where
  pub title : Text
  pub done : Option Text
  pub prefixes : Option (List Text)
  pub quiet : Bool
  pub has_on_done : Bool

-- `await ref`: the job's id, or the message of the error that it was rejected with.
pub data Started : Type 0 where
  job_id : Text → Started
  rejected : Text → Started

-- The pause before a poll: shorter until the first answer.
abbrev pub pause : Option Job → ℕ
pause none = 500
pause (some j) = 900

-- What the `for (;;)` loop does over the answers: its effects, and the job with which it breaks.
-- `none` in the second place means that it is still polling when the answers run out.
unfoldable pub poll_loop : Text → Option Job → ℕ → List Answer → List Effect × Option (Option Job)
poll_loop path job misses [] = ([], none)
poll_loop path job misses (answered j ∷ rest) =
    let (effects, result) = poll_loop path (some j) 0 rest in
    let here : List Effect = sleep (pause job) ∷ fetch path ∷ [] in
    if not (job_is j.status JobStatus.running)
    then (here, some (some j))
    else (here ++ effects, result)
poll_loop path job misses (missed ∷ rest) =
    let (effects, result) = poll_loop path job (suc misses) rest in
    let here : List Effect = sleep (pause job) ∷ fetch path ∷ [] in
    if ltb 20 (suc misses) then (here, some job) else (here ++ effects, result)

-- `a || b` on texts
abbrev pub or_else : Text → Text → Text
or_else a b = if is_empty a then b else a

abbrev pub sub_of : Option JobStep → Text
sub_of none = []
sub_of (some s) = s.sub

abbrev pub label_of : Option JobStep → Text
label_of none = []
label_of (some s) = s.label

abbrev pub text_of : Option JobLogLine → Text
text_of none = []
text_of (some l) = l.text

abbrev pub is_error : JobLogLineLevel → Bool
is_error JobLogLineLevel.error = true
is_error _ = false

-- `failed?.sub || lastErr?.text || failed?.label || job.title`
unfoldable pub failure_text : Job → Text
failure_text job =
    let failed = find (λ (s : JobStep). step_is s.status StepStatus.failed) job.steps in
    let last_err = find (λ (l : JobLogLine). is_error l.level) (reverse job.log) in
    or_else (sub_of failed) (or_else (text_of last_err) (or_else (label_of failed) job.title))

abbrev pub done_title : TrackOptions → Text
done_title opts = elim opts.done [ none ↦ opts.title ++ txt " — done" | some t ↦ t ]

-- `opts.invalidate ?? ["/api/hosts"]`
abbrev pub prefixes_of : TrackOptions → List Text
prefixes_of opts = elim opts.prefixes [ none ↦ txt "/api/hosts" ∷ [] | some ps ↦ ps ]

-- The toast about a job that the loop broke with.
unfoldable pub verdict : TrackOptions → Job → Effect
unfolding failure_text
verdict opts job =
    if job_is job.status JobStatus.success
    then toast ok (done_title opts) job.title
    else toast error (opts.title ++ txt " failed") (failure_text job)

-- What follows the loop.
unfoldable pub settle : TrackOptions → Option Job → List Effect
unfolding verdict
settle opts none =
    map invalidate (prefixes_of opts)
    ++ toast warn opts.title (txt "Lost track of the job — check the host for its result.") ∷ []
settle opts (some job) =
    map invalidate (prefixes_of opts)
    ++ verdict opts job ∷ (if opts.has_on_done then on_done job ∷ [] else [])

abbrev pub finish :
    TrackOptions → List Effect → Option (Option Job) → List Effect × Option (Option Job)
finish opts effects none = (effects, none)
finish opts effects (some job) = (effects ++ settle opts job, some job)

abbrev pub announce : TrackOptions → List Effect
announce opts =
    if opts.quiet
    then []
    else toast info (opts.title ++ txt "…")
        (txt "Running in the background — you'll get a toast when it's done.")
      ∷ []

-- The effects, and the result once there is one: the job, or null.
unfoldable pub track_job : Started → TrackOptions → List Answer → List Effect × Option (Option Job)
unfolding poll_loop settle
track_job (rejected message) opts answers =
    (toast error (opts.title ++ txt " failed") message ∷ [], some none)
track_job (job_id id) opts answers =
    let (effects, result) = poll_loop (txt "/api/jobs/" ++ id) none 0 answers in
    finish opts (announce opts ++ effects) result
