-- ===== src/Jobs/Progress/Percent.antt =====
-- The bounds of a job's percentage, and the step that is shown beside it.
use native.Mathlib.Nat.{div-lt_iff_lt-mul}
use app_dockhand.Base.{
  ℕ, ◌+◌, ◌*◌, ◌≤◌, ◌<◌, ◌≡◌, ◌↔◌, max, Bool, true, false, none, List, [], ◌∷◌, arith, any, all,
  filter, length, if◌then◌else◌, not, ◌||◌, ◌&&◌, find,
}
use app_dockhand.Types.Jobs.{Job, JobStatus, JobStep, StepStatus}
use app_dockhand.Jobs.{job_is, step_is}
use app_dockhand.Jobs.Progress.{
  is_over, is_running, round_div, steps_percent, job_percent, current_step,
}

percent-le : (d h t : ℕ) → 2 * d + h ≤ 2 * t → 0 < t → round_div ((2 * d + h) * 100) (2 * t) ≤ 100
percent-le d h t room pos =
    let below =
      (div-lt_iff_lt-mul {k = 2 * (2 * t)} {x = 2 * ((2 * d + h) * 100) + 2 * t} {y = 101}
          (omega arith)).1
        (omega arith) in
    omega arith

percent-lt : (d h t : ℕ) → 2 * d + h < 2 * t → t < 100 → round_div ((2 * d + h) * 100) (2 * t) < 100
percent-lt d h t room few =
    (div-lt_iff_lt-mul {k = 2 * (2 * t)} {x = 2 * ((2 * d + h) * 100) + 2 * t} {y = 100}
        (omega arith)).1
      (omega arith)

-- 1 if the test is passed
abbrev one_if : Bool → ℕ
one_if b = if b then 1 else 0

-- A running step is not over, so it leaves room among the steps that are.
over_and_running :
    (steps : List JobStep)
    → length (filter is_over steps) + one_if (any is_running steps) ≤ length steps
over_and_running [] = omega arith
over_and_running (s ∷ steps) = ground (arith, over_and_running steps)

over_unless_all :
    (steps : List JobStep)
    → all is_over steps ≡ false
    → length (filter is_over steps) < length steps
over_unless_all [] h = cc
over_unless_all (s ∷ steps) h = ground (arith, over_unless_all steps, over_and_running steps)

one_if-le : (b : Bool) → one_if b ≤ 1
one_if-le b = ground arith

steps_percent-le : (steps : List JobStep) → steps_percent steps ≤ 100
unfolding steps_percent
steps_percent-le steps =
    percent-le (length (filter is_over steps)) (one_if (any is_running steps))
      (max 1 (length steps)) (omega (arith, over_and_running steps)) (omega arith)

steps_percent-lt :
    (steps : List JobStep)
    → all is_over steps ≡ false
    → length steps < 100
    → steps_percent steps < 100
unfolding steps_percent
steps_percent-lt steps left few =
    percent-lt (length (filter is_over steps)) (one_if (any is_running steps))
      (max 1 (length steps))
      (omega (
        arith,
        over_and_running steps,
        over_unless_all steps left,
        one_if-le (any is_running steps),
      ))
      (omega arith)

-- The percentage of a job is at most 100; it is 100 if the job has succeeded, and below 100 if it
-- has not, has fewer than 100 steps and one of them is neither done nor skipped.
pub job_percent_bounds :
    (job : Job)
    → (job_percent job ≤ 100)
      × (job.status ≡ JobStatus.success → job_percent job ≡ 100)
      × (job_is job.status JobStatus.success ≡ false
          → all is_over job.steps ≡ false
          → length job.steps < 100
          → job_percent job < 100)
unfolding job_percent
job_percent_bounds job = (
  ground (arith, steps_percent-le job.steps),
  λ h. ground arith,
  λ h left few. ground (arith, steps_percent-lt job.steps left few),
)

module _ {A : Type 0} (p q : A → Bool) where
  find-none_iff : (xs : List A) → (find p xs ≡ none) ↔ (all (λ x. not (p x)) xs ≡ true)
  find-none_iff [] = ground arith
  find-none_iff (x ∷ xs) = ground (arith, find-none_iff xs)

  all-neither :
      (xs : List A)
      → all (λ x. not (p x || q x)) xs ≡ (all (λ x. not (p x)) xs && all (λ x. not (q x)) xs)
  all-neither [] = ground arith
  all-neither (x ∷ xs) = ground (arith, all-neither xs)

abbrev pub has_failed : JobStep → Bool
has_failed s = step_is s.status StepStatus.failed

-- No step is shown exactly if none of the job's steps is running or has failed.
current_step-none_iff :
    (job : Job)
    → (current_step job ≡ none) ↔ (all (λ s. not (is_running s || has_failed s)) job.steps ≡ true)
unfolding current_step
current_step-none_iff job = ground (
  arith,
  find-none_iff is_running is_running job.steps,
  find-none_iff has_failed has_failed job.steps,
  all-neither is_running has_failed job.steps,
)
