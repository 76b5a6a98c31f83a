-- ===== src/Updates/Tests.antt =====
-- An update to follow, and the theorem applied to it.
use app_dockhand.Base.{
  none, some, refl, ℕ, Text, txt, List, [], ◌∷◌, ◌≡◌, ◌≤◌, true, false, split_first, split_last,
  span, number, number_from,
}
use app_dockhand.Types.System.{UpdaterStatus, UpdaterStatusState}
use app_dockhand.Updates.{
  watch_run, open_watch, watch_step, pct, is_done, tick, lost, status, commit, WatchEvent,
}
use app_dockhand.Updates.Stages.{step_counter, v}
use app_dockhand.Updates.Watch.{watch_run-IsHonest}

abbrev nothing_yet : ℕ → ℕ → ℕ
nothing_yet ms scale = 0

abbrev building : UpdaterStatus
building = record {
  state = UpdaterStatusState.running;
  id = none;
  exit_code = none;
  started_at = none;
  finished_at = none;
  log = txt "==> fetching" ∷ txt "==> rebuilding" ∷ txt "#7 [web 3/10] RUN" ∷ [];
}

abbrev seen : List (ℕ × WatchEvent)
seen = (1, tick) ∷ (2, status building) ∷ (3, lost) ∷ (4, commit (txt "abcdef0123")) ∷ []

abbrev target : Text
target = txt "abcdef0999"

watch_run-IsHonest_example :
    let w = watch_run target nothing_yet (open_watch target nothing_yet 0 0) seen in
    (is_done target w.live ≡ true → pct target nothing_yet w ≡ 100000)
    × (is_done target w.live ≡ false → pct target nothing_yet w ≤ 97000)
    × (pct target nothing_yet w ≤ pct target nothing_yet (watch_step target nothing_yet 9 tick w))
watch_run-IsHonest_example = watch_run-IsHonest target nothing_yet 0 0 seen 9 tick

counted : step_counter (txt "#7 [web 3/10] RUN") ≡ some (3, 10)
unfolding step_counter split_first split_last span number number_from
counted = refl

short : v (txt "0123456789ab") ≡ txt "0123456"
unfolding v
short = refl
