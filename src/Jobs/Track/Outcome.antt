-- ===== src/Jobs/Track/Outcome.antt =====
-- What `trackJob` ends with.
use app_dockhand.Base.{
  ℕ, zero, suc, ◌+◌, ◌≤◌, ◌≡◌, Bool, true, false, Option, none, some, List, [], ◌∷◌, ◌++◌, map,
  Text, txt, arith, replicate, if◌then◌else◌, filter, filter-append,
}
use mathlib.Core.List.{append-nil}
use app_dockhand.Types.Jobs.{Job, JobStatus}
use app_dockhand.Jobs.{Answer, answered, missed, job_is}
use app_dockhand.Jobs.Track.{
  Effect, toast, invalidate, on_done, warn, error, TrackOptions, job_id, poll_loop, failure_text,
  prefixes_of, verdict, settle, finish, announce, track_job,
}

-- How many polls failed.
abbrev pub misses_in : List Answer → ℕ
misses_in [] = 0
misses_in (answered j ∷ rest) = misses_in rest
misses_in (missed ∷ rest) = suc (misses_in rest)

-- The first answer with a job that no longer runs.
abbrev pub first_finished : List Answer → Option Job
first_finished [] = none
first_finished (answered j ∷ rest) =
    if job_is j.status JobStatus.running then first_finished rest else some j
first_finished (missed ∷ rest) = first_finished rest

poll_loop-first_finished :
    (path : Text) (job : Option Job) (misses : ℕ) (answers : List Answer) (j : Job)
    → misses + misses_in answers ≤ 20
    → first_finished answers ≡ some j
    → (poll_loop path job misses answers).1 ≡ some (some j)
unfolding poll_loop
poll_loop-first_finished path job misses [] j h e = cc
poll_loop-first_finished path job misses (answered k ∷ rest) j h e =
    ground (arith, poll_loop-first_finished path (some k) 0 rest j)
poll_loop-first_finished path job misses (missed ∷ rest) j h e =
    ground (arith, poll_loop-first_finished path job (suc misses) rest j)

-- If at most 20 polls fail and some poll is answered with a job that no longer runs, `trackJob`
-- ends, and returns the first such job.
pub track_job-first_finished :
    (id : Text) (opts : TrackOptions) (answers : List Answer) (j : Job)
    → misses_in answers ≤ 20
    → first_finished answers ≡ some j
    → (track_job (job_id id) opts answers).1 ≡ some (some j)
unfolding track_job
track_job-first_finished id opts answers j h e =
    ground (arith, poll_loop-first_finished (txt "/api/jobs/" ++ id) none 0 answers j)

poll_loop-missed :
    (path : Text) (job : Option Job) (n misses : ℕ) (answers : List Answer)
    → n + misses ≡ 20
    → (poll_loop path job misses (replicate (suc n) missed ++ answers)).1 ≡ some job
unfolding poll_loop
poll_loop-missed path job zero misses answers h = ground arith
poll_loop-missed path job (suc n) misses answers h =
    ground (arith, poll_loop-missed path job n (suc misses) answers)

abbrev pub is_toast : Effect → Bool
is_toast (toast kind title text) = true
is_toast _ = false

-- The toast after the loop.
abbrev pub last_toast : TrackOptions → Option Job → Effect
last_toast opts none =
    toast warn opts.title (txt "Lost track of the job — check the host for its result.")
last_toast opts (some job) = verdict opts job

quiet-poll_loop :
    (path : Text) (job : Option Job) (misses : ℕ) (answers : List Answer)
    → filter is_toast (poll_loop path job misses answers).0 ≡ []
unfolding poll_loop
quiet-poll_loop path job misses [] = ground arith
quiet-poll_loop path job misses (answered k ∷ rest) =
    ground (arith, quiet-poll_loop path (some k) 0 rest)
quiet-poll_loop path job misses (missed ∷ rest) =
    ground (arith, quiet-poll_loop path job (suc misses) rest)

quiet-invalidate : (ps : List Text) → filter is_toast (map invalidate ps) ≡ []
quiet-invalidate [] = ground arith
quiet-invalidate (p ∷ ps) = quiet-invalidate ps

toasts-settle :
    (opts : TrackOptions) (job : Option Job)
    → filter is_toast (settle opts job) ≡ last_toast opts job ∷ []
unfolding settle
toasts-settle opts none = ground (
  arith,
  filter-append is_toast (map invalidate (prefixes_of opts)) (last_toast opts none ∷ []),
  quiet-invalidate (prefixes_of opts),
)
toasts-settle opts (some job) = ground (
  arith,
  filter-append is_toast (map invalidate (prefixes_of opts))
      (verdict opts job ∷ (if opts.has_on_done then on_done job ∷ [] else [])),
  quiet-invalidate (prefixes_of opts),
)

toasts-announce : (opts : TrackOptions) → filter is_toast (announce opts) ≡ announce opts
toasts-announce opts = ground arith

finish-toasts :
    (opts : TrackOptions) (effects : List Effect) (result : Option (Option Job)) (r : Option Job)
    → filter is_toast effects ≡ []
    → (finish opts (announce opts ++ effects) result).1 ≡ some r
    → filter is_toast (finish opts (announce opts ++ effects) result).0
      ≡ announce opts ++ last_toast opts r ∷ []
finish-toasts opts effects none r quiet e = cc
finish-toasts opts effects (some job) r quiet e =
    simp (filter-append, toasts-announce, quiet, toasts-settle, append-nil) (ground arith)

-- Once the job was started and `trackJob` has ended, it has shown the toast "…" unless it is quiet,
-- then one toast for the job that it returns or for its loss, and no other.
pub toasts-track_job :
    (id : Text) (opts : TrackOptions) (answers : List Answer) (r : Option Job)
    → (track_job (job_id id) opts answers).1 ≡ some r
    → filter is_toast (track_job (job_id id) opts answers).0
      ≡ announce opts ++ last_toast opts r ∷ []
unfolding track_job
toasts-track_job id opts answers r e =
    finish-toasts opts (poll_loop (txt "/api/jobs/" ++ id) none 0 answers).0
      (poll_loop (txt "/api/jobs/" ++ id) none 0 answers).1 r
      (quiet-poll_loop (txt "/api/jobs/" ++ id) none 0 answers) e

-- A job that was never seen is reported as lost after 21 failed polls: null is returned.
pub track_job-never_seen :
    (id : Text) (opts : TrackOptions) (answers : List Answer)
    → (track_job (job_id id) opts (replicate 21 missed ++ answers)).1 ≡ some none
unfolding track_job
track_job-never_seen id opts answers =
    ground (arith, poll_loop-missed (txt "/api/jobs/" ++ id) none 20 0 answers)

track_job-lost :
    (id : Text) (opts : TrackOptions) (j : Job) (answers : List Answer)
    → j.status ≡ JobStatus.running
    → (track_job (job_id id) opts (answered j ∷ replicate 21 missed ++ answers)).1 ≡ some (some j)
unfolding track_job poll_loop
track_job-lost id opts j answers h =
    ground (arith, poll_loop-missed (txt "/api/jobs/" ++ id) (some j) 20 0 answers)

verdict-running :
    (opts : TrackOptions) (j : Job)
    → j.status ≡ JobStatus.running
    → verdict opts j ≡ toast error (opts.title ++ txt " failed") (failure_text j)
unfolding verdict
verdict-running opts j h = ground arith

-- A job that was seen running and then could not be read 21 times in a row is reported as failed,
-- although it may still be running; the toast for a lost job is not shown.
pub track_job-lost_running :
    (id : Text) (opts : TrackOptions) (j : Job) (answers : List Answer)
    → j.status ≡ JobStatus.running
    → filter is_toast (track_job (job_id id) opts (answered j ∷ replicate 21 missed ++ answers)).0
      ≡ announce opts ++ toast error (opts.title ++ txt " failed") (failure_text j) ∷ []
track_job-lost_running id opts j answers h = rw (
  toasts-track_job id opts (answered j ∷ replicate 21 missed ++ answers) (some j)
      (track_job-lost id opts j answers h),
  verdict-running opts j h,
)
