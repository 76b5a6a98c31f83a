-- ===== src/PublicStatus/Tests.antt =====
-- A page with a monitor that is down and two that are up.
use app_dockhand.Base.{refl, txt, ◌≡◌, ℕ, List, ◌∷◌, [], Text, true, false}
use app_dockhand.Types.Github.{UpStatus}
use app_dockhand.PublicStatus.{
  PublicMonitor, PublicStatus, number, text, overall_of, crit_verdict, is_down,
}

abbrev monitor : Text → UpStatus → PublicMonitor ℕ
monitor n s = record { name = n; status = s; pct = 100; bars = [] }

abbrev one_down : PublicStatus ℕ
one_down = record {
  title = txt "Home";
  overall = number 99;
  monitors =
      monitor (txt "web") UpStatus.up
      ∷ monitor (txt "db") UpStatus.down
      ∷ monitor (txt "dns") UpStatus.up
      ∷ [];
}

abbrev said_down : PublicStatus ℕ
said_down = record { title = txt "Home"; overall = text (txt "down"); monitors = [] }

partial_outage : overall_of one_down ≡ crit_verdict false
unfolding overall_of is_down app_dockhand.Base.text_eq
partial_outage = refl

-- What the server says of all monitors counts without a monitor.
outage_without_monitor : overall_of said_down ≡ crit_verdict false
unfolding overall_of app_dockhand.Base.text_eq
outage_without_monitor = refl
