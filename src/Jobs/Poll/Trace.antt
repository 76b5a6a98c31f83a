-- ===== src/Jobs/Poll/Trace.antt =====
-- What holds of the hook after any events.
use app_dockhand.Base.{◌≡◌, Bool, true, false, not, Option, none, some, List, [], ◌∷◌, arith}
use app_dockhand.Types.Jobs.{Job, JobStatus}
use app_dockhand.Jobs.{job_is}
use app_dockhand.Jobs.Poll.{JobHook, Event, cleanup, start, step, run}

abbrev pub finished : Option Job → Bool
finished none = false
finished (some j) = not (job_is j.status JobStatus.running)

-- The hook never waits for an answer and a timer at once; a hook that is still mounted and waits
-- for neither has a job that no longer runs; an unmounted one has no timer.
pub record IsSound (s : JobHook) : Type 0 where
  pub single : s.asking ≡ true → s.timer ≡ none
  pub stopped : s.alive ≡ true → s.asking ≡ false → s.timer ≡ none → finished s.job ≡ true
  pub polling : s.alive ≡ true → finished s.job ≡ true → (s.asking ≡ false) × (s.timer ≡ none)
  pub unmounted : s.alive ≡ false → s.timer ≡ none

start-IsSound : IsSound start
unfolding start
start-IsSound = ground arith

step-IsSound : (s : JobHook) (e : Event) → IsSound s → IsSound (step s e)
unfolding step
step-IsSound s e h = ground arith

run-IsSound : (s : JobHook) (es : List Event) → IsSound s → IsSound (run s es)
unfolding run
run-IsSound s [] h = h
run-IsSound s (e ∷ es) h = run-IsSound (step s e) es (step-IsSound s e h)

-- After any events, the hook waits for an answer or for its timer, never for both; while it is
-- mounted it waits for one of them exactly as long as its job is not known to have finished; once
-- unmounted it has no timer.
pub run-start-IsSound : (es : List Event) → IsSound (run start es)
run-start-IsSound es = run-IsSound start es start-IsSound

step_unmounted :
    (s : JobHook) (e : Event)
    → s.alive ≡ false
    → s.timer ≡ none
    → ((step s e).alive ≡ false) × ((step s e).timer ≡ none) × ((step s e).job ≡ s.job)
unfolding step
step_unmounted s e dead idle = ground arith

run_unmounted :
    (s : JobHook) (es : List Event)
    → s.alive ≡ false
    → s.timer ≡ none
    → ((run s es).timer ≡ none) × ((run s es).job ≡ s.job)
unfolding run
run_unmounted s [] dead idle = ground arith
run_unmounted s (e ∷ es) dead idle =
    ground (arith, step_unmounted s e dead idle, run_unmounted (step s e) es)

step-cleanup :
    (s : JobHook)
    → ((step s cleanup).alive ≡ false)
      × ((step s cleanup).timer ≡ none)
      × ((step s cleanup).job ≡ s.job)
unfolding step
step-cleanup s = ground arith

-- After the cleanup, no event sets the job or a timer again, an answer that was under way included.
pub run-cleanup :
    (before after : List Event)
    → let s = run start before in
      ((run (step s cleanup) after).job ≡ s.job) × ((run (step s cleanup) after).timer ≡ none)
run-cleanup before after =
    ground (
      arith,
      step-cleanup (run start before),
      run_unmounted (step (run start before) cleanup) after,
    )
