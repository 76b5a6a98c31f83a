-- ===== src/Updates/Watch.antt =====
-- What the bar of an update shows, whatever the updater and the network do.
use app_dockhand.Base.{
  ◌∷◌, refl, ℕ, Bool, Text, ◌*◌, ◌≡◌, ◌≤◌, ◌+◌, false, true, ◌-◌, min, arith, Bool-cases, List,
  if◌then◌else◌, ◌||◌, inl, ◌⊎◌, inr, ◌∙◌, txt, is_empty, ap, max,
}
use app_dockhand.Updates.{
  UpdaterWatch, raw, pct, is_done, effects, taken, watch_step, watch_run, open_watch, stage_key,
  stage_from, within, WatchEvent, lift_peak, has_failed, is_restarting, status, commit, log_of,
  tick, lost, within_of,
}
use app_dockhand.Updates.Stages.{StageKey, from_of, to_of, restart, build, fetch, prepare, has}
use mathlib.Core.List.{[]}

abbrev IsWorking : StageKey → Type 0
IsWorking StageKey.finish = ⊥
IsWorking _ = Unit

pick-IsWorking :
    (p q r : Bool)
    → IsWorking (if p then restart else if q then build else if r then fetch else prepare)
pick-IsWorking true q r = tt
pick-IsWorking false true r = tt
pick-IsWorking false false true = tt
pick-IsWorking false false false = tt

stage_from-IsWorking : (w : UpdaterWatch) → IsWorking (stage_from w)
stage_from-IsWorking w =
    pick-IsWorking (is_restarting w) (has (txt "rebuilding") (log_of w.st))
      (has (txt "fetching") (log_of w.st) || has (txt "now at") (log_of w.st))

-- While a stage lasts the bar is inside it.
stage_bound :
    (k : StageKey) (x : ℕ)
    → IsWorking k
    → from_of k * 1000 + (to_of k - from_of k) * min 1000 x ≤ 97000
stage_bound StageKey.prepare x h = omega arith
stage_bound StageKey.fetch x h = omega arith
stage_bound StageKey.build x h = omega arith
stage_bound StageKey.restart x h = omega arith
stage_bound StageKey.finish x h = absurd h

module _ (target : Text) (time_part : ℕ → ℕ → ℕ) where
  pub record IsHonest (w : UpdaterWatch) : Type 0 where
    pub working : is_done target w.live ≡ false → w.peak ≤ 97000
    pub finished : is_done target w.live ≡ true → w.peak ≡ 100000
    pub settled : raw target time_part w ≤ w.peak

  raw-working : (w : UpdaterWatch) → is_done target w.live ≡ false → raw target time_part w ≤ 97000
  unfolding raw stage_key within
  raw-working w h = rw h (stage_bound (stage_from w) _ (stage_from-IsWorking w))

  raw-finished : (w : UpdaterWatch) → is_done target w.live ≡ true → raw target time_part w ≡ 100000
  unfolding raw
  raw-finished w h = rw h refl

  -- The place on the bar does not depend on the peak.
  within_of-peak :
      (k : StageKey) (n : ℕ) (w : UpdaterWatch)
      → within_of target time_part k (record w { peak = n }) ≡ within_of target time_part k w
  within_of-peak StageKey.prepare n w = refl
  within_of-peak StageKey.fetch n w = refl
  within_of-peak StageKey.build n w = refl
  within_of-peak StageKey.restart n w = refl
  within_of-peak StageKey.finish n w = refl

  lift_peak-IsHonest : (w : UpdaterWatch) → w.peak ≤ 97000 → IsHonest (lift_peak target time_part w)
  unfolding raw stage_key within
  lift_peak-IsHonest w h =
      let k = stage_key target time_part w in
      let same : raw target time_part (lift_peak target time_part w) ≡ raw target time_part w =
        ap
          (λ x.
            if is_done target w.live
            then 100000
            else from_of k * 1000 + (to_of k - from_of k) * min 1000 x)
          (within_of-peak k (max w.peak (raw target time_part w)) w) in
      record {
        working = λ e. omega (arith, raw-working w e);
        finished = λ e. omega (arith, raw-finished w e);
        settled = omega (arith, same);
      }

  peak-taken : (t : ℕ) (e : WatchEvent) (w : UpdaterWatch) → (taken t e w).peak ≡ w.peak
  peak-taken t tick w = refl
  peak-taken t lost w = refl
  peak-taken t (status s) w = refl
  peak-taken t (commit c) w = elim (Bool-cases (is_empty c)) [
    | inl y ↦ rw y refl
    | inr off ↦ rw off refl
  ]

  -- A step does nothing, or takes its event and then does what the effects do.
  step-cases :
      (t : ℕ) (e : WatchEvent) (w : UpdaterWatch)
      → (watch_step target time_part t e w ≡ w)
        ⊎ ((is_done target w.live ≡ false)
            × (watch_step target time_part t e w ≡ effects target time_part t (taken t e w)))
  unfolding watch_step
  step-cases t e w = elim (Bool-cases (is_done target w.live || has_failed w.st)) [
    | inl y ↦ inl (rw y refl)
    | inr off ↦ inr (ground arith, rw off refl)
  ]

  step-IsHonest :
      (t : ℕ) (e : WatchEvent) (w : UpdaterWatch)
      → IsHonest w
      → IsHonest (watch_step target time_part t e w)
  step-IsHonest t e w h = elim (step-cases t e w) [
    | inl same ↦ rw same h
    | inr (busy, moved) ↦
        rw moved (lift_peak-IsHonest _ (omega (arith, peak-taken t e w, h.working busy)))
  ]

  run-IsHonest :
      (w : UpdaterWatch) (es : List (ℕ × WatchEvent))
      → IsHonest w
      → IsHonest (watch_run target time_part w es)
  run-IsHonest w [] h = h
  run-IsHonest w ((t, e) ∷ es) h =
      run-IsHonest (watch_step target time_part t e w) es (step-IsHonest t e w h)

  pct-peak : (w : UpdaterWatch) → IsHonest w → pct target time_part w ≡ w.peak
  unfolding pct
  pct-peak w h = elim (Bool-cases (has_failed w.st)) [
    | inl y ↦ rw y refl
    | inr off ↦ rw off (omega (arith, h.settled))
  ]

  peak-step :
      (t : ℕ) (e : WatchEvent) (w : UpdaterWatch)
      → w.peak ≤ (watch_step target time_part t e w).peak
  peak-step t e w = elim (step-cases t e w) [
    | inl same ↦ rw same (omega arith)
    | inr (busy, moved) ↦ rw moved (omega (arith, peak-taken t e w))
  ]

  open-IsHonest : (started now : ℕ) → IsHonest (open_watch target time_part started now)
  open-IsHonest started now = lift_peak-IsHonest _ (omega arith)

  -- Whatever the updater, the network and the clock do: the bar of an update never moves back, is full
  -- once Dockhand runs the target's version, and is at most at 97 % before that.
  pub watch_run-IsHonest :
      (started now : ℕ) (es : List (ℕ × WatchEvent)) (t : ℕ) (e : WatchEvent)
      → let w = watch_run target time_part (open_watch target time_part started now) es in
        (is_done target w.live ≡ true → pct target time_part w ≡ 100000)
        × (is_done target w.live ≡ false → pct target time_part w ≤ 97000)
        × (pct target time_part w ≤ pct target time_part (watch_step target time_part t e w))
  watch_run-IsHonest started now es t e =
      let w = watch_run target time_part (open_watch target time_part started now) es in
      let h =
        run-IsHonest (open_watch target time_part started now) es (open-IsHonest started now) in
      (
        λ y. pct-peak w h ∙ h.finished y,
        λ y. rw (pct-peak w h) (h.working y),
        rw (pct-peak w h, pct-peak (watch_step target time_part t e w) (step-IsHonest t e w h))
            (peak-step t e w),
      )
