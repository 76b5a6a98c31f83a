-- ===== src/Updates.antt =====
-- web/components/settings/UpdatesTab.tsx: the update of Dockhand itself. Fractions are thousandths, and
-- places on the bar thousandths of a percent, rounded down; `1 - Math.exp(-ms / scale)` is a parameter,
-- which counts a time before its start as none.
pub mod Stages
pub mod Watch
mod Tests
use app_dockhand.Base.{
  none, some, refl, ℕ, Bool, is_digit, Text, Option, List, ◌||◌, txt, if◌then◌else◌, false, leb,
  ◌∷◌, is_empty, any, reverse, split_last, ltb, ◌*◌, find, [], true, not, ◌&&◌, ◌-◌, max, ◌++◌,
  ◌==◌, all, starts_with, span, split_first, ◌/◌, ◌+◌, take, length, number, min,
}
use app_dockhand.Types.System.{UpdaterStatus, UpdaterStatusState}
use app_dockhand.Jobs.Progress.{StageStatus}
use app_dockhand.Updates.Stages.{
  has, StageKey, from_of, handoff, restart, finish, build_part, to_of, label_of, prepare, build,
  build, fetch,
}

-- The state of `UpdaterWatch`; `live` is empty until a commit is known.
pub record UpdaterWatch : Type 0 where
  pub st : Option UpdaterStatus
  pub down : Bool
  pub live : Text
  pub started : ℕ
  pub now : ℕ
  pub rebuild_at : Option ℕ
  pub restart_at : Option ℕ
  pub peak : ℕ

abbrev pub log_of : Option UpdaterStatus → List Text
log_of none = []
log_of (some s) = s.log

abbrev pub has_failed : Option UpdaterStatus → Bool
has_failed none = false
has_failed (some s) = elim s.state [ UpdaterStatusState.failed ↦ true | _ ↦ false ]

abbrev pub has_succeeded : Option UpdaterStatus → Bool
has_succeeded none = false
has_succeeded (some s) = elim s.state [ UpdaterStatusState.succeeded ↦ true | _ ↦ false ]

-- `done`
abbrev pub is_done : Text → Text → Bool
is_done target live =
    not (is_empty live) && not (is_empty target) && starts_with live (take 7 target)

-- `down || st?.state === "succeeded" || has("done")`
abbrev pub is_restarting : UpdaterWatch → Bool
is_restarting w = w.down || has_succeeded w.st || has (txt "done") (log_of w.st)

abbrev pub is_rebuilding : UpdaterWatch → Bool
is_rebuilding w = has (txt "rebuilding") (log_of w.st) && not (has (txt "done") (log_of w.st))

abbrev pub stage_from : UpdaterWatch → StageKey
stage_from w =
    if is_restarting w
    then restart
    else if has (txt "rebuilding") (log_of w.st)
    then build
    else if has (txt "fetching") (log_of w.st) || has (txt "now at") (log_of w.st)
    then fetch
    else prepare

pub data WatchEvent : Type 0 where
  tick lost : WatchEvent
  status : UpdaterStatus → WatchEvent
  commit : Text → WatchEvent

abbrev pub taken : ℕ → WatchEvent → UpdaterWatch → UpdaterWatch
taken t tick w = record w { now = t }
taken t lost w = record w { down = true }
taken t (status s) w = record w { st = some s; down = false }
taken t (commit c) w = if is_empty c then w else record w { live = c }

-- `if (… && at == null) setAt(Date.now())`
abbrev pub set_once : Bool → ℕ → Option ℕ → Option ℕ
set_once b t (some s) = some s
set_once b t none = if b then some t else none

module _ (target : Text) (time_part : ℕ → ℕ → ℕ) where
  unfoldable pub stage_key : UpdaterWatch → StageKey
  stage_key w = if is_done target w.live then finish else stage_from w

  abbrev pub since : Option ℕ → ℕ → ℕ → ℕ
  since none now scale = 0
  since (some t) now scale = time_part (now - t) scale

  abbrev pub within_of : StageKey → UpdaterWatch → ℕ
  within_of build w = max (build_part (log_of w.st)) (900 * since w.rebuild_at w.now 70000 / 1000)
  within_of restart w = since w.restart_at w.now 25000
  within_of _ w = 500

  unfoldable pub within : UpdaterWatch → ℕ
  within w = within_of (stage_key w) w

  unfoldable pub raw : UpdaterWatch → ℕ
  raw w =
      if is_done target w.live
      then 100000
      else from_of (stage_key w) * 1000
        + (to_of (stage_key w) - from_of (stage_key w)) * min 1000 (within w)

  unfoldable pub pct : UpdaterWatch → ℕ
  pct w = if has_failed w.st then w.peak else max w.peak (raw w)

  abbrev pub is_slow : UpdaterWatch → Bool
  is_slow w = not (is_done target w.live) && not (has_failed w.st) && ltb 360000 (w.now - w.started)

  -- What the effects do after a render, at a time.
  abbrev pub timed : ℕ → UpdaterWatch → UpdaterWatch
  timed t w = record w {
    rebuild_at = set_once (is_rebuilding w) t w.rebuild_at;
    restart_at = set_once (not (is_done target w.live) && is_restarting w) t w.restart_at;
  }

  abbrev pub lift_peak : UpdaterWatch → UpdaterWatch
  lift_peak w = record w { peak = max w.peak (raw w) }

  abbrev pub effects : ℕ → UpdaterWatch → UpdaterWatch
  effects t w = lift_peak (timed t w)

  -- Nothing is taken any more once it is done or has failed.
  unfoldable pub watch_step : ℕ → WatchEvent → UpdaterWatch → UpdaterWatch
  watch_step t e w = if is_done target w.live || has_failed w.st then w else effects t (taken t e w)

  abbrev pub watch_run : UpdaterWatch → List (ℕ × WatchEvent) → UpdaterWatch
  watch_run w [] = w
  watch_run w ((t, e) ∷ es) = watch_run (watch_step t e w) es

  unfoldable pub title : UpdaterWatch → Text
  title w =
      if is_done target w.live
      then txt "Updated to " ++ take 7 target
      else if has_failed w.st
      then txt "The update failed"
      else if is_slow w
      then txt "This is taking longer than expected"
      else label_of (stage_key w)

  abbrev pub strip_at : StageKey → ℕ
  strip_at prepare = 1
  strip_at fetch = 2
  strip_at build = 3
  strip_at restart = 4
  strip_at finish = 5

  unfoldable pub strip_status : Bool → UpdaterWatch → ℕ → StageStatus
  strip_status backup_skipped w i =
      if i == 0
      then if backup_skipped then StageStatus.skipped else StageStatus.done
      else if is_done target w.live || ltb i (strip_at (stage_key w))
      then StageStatus.done
      else if i == strip_at (stage_key w)
      then if has_failed w.st then StageStatus.failed else StageStatus.active
      else StageStatus.pending

  abbrev pub open_watch : ℕ → ℕ → UpdaterWatch
  open_watch started now = effects now (record {
    st = none;
    down = false;
    live = [];
    started = started;
    now = now;
    rebuild_at = none;
    restart_at = none;
    peak = handoff;
  })
