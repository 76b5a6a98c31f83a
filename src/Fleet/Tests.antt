-- ===== src/Fleet/Tests.antt =====
-- Hosts to try the fleet's page on, and the theorems applied to them.
use app_dockhand.Base.{
  none, some, refl, ℕ, txt, Text, List, [], ◌∷◌, ◌≡◌, ◌++◌, true, false, any, ◌⊎◌, length, All,
}
use app_dockhand.Types.Hosts.{Host, HostStatus, HostMethod}
use app_dockhand.Fleet.Pulse.{busiest, live, Metric}
use app_dockhand.Fleet.Next.{has_id, is_due}
use app_dockhand.Fleet.Listed.{listed-offline, IsUrgent}
use app_dockhand.Fleet.Suggestions.{shown, all_suggestions, listed}
use app_dockhand.Fleet.Offers.{Suggestion, offline_suggestion}
use app_dockhand.Base.Sort.{sort, insert}
use app_dockhand.Base.Sort.{insert}

abbrev load : Text → HostStatus → ℕ → Host
load id status cpu = record {
  id = id;
  name = id;
  address = txt "10.0.0.1";
  port = 22;
  user = txt "root";
  method = HostMethod.key;
  color = txt "#000";
  status = status;
  os = [];
  kernel = [];
  docker_version = [];
  cpu_cores = 4;
  uptime_sec = 10;
  cpu = cpu;
  mem = 10;
  disk = 10;
  mem_used = 1;
  mem_total = 10;
  disk_used = 1;
  disk_total = 10;
  running = 1;
  total = 1;
  updates = 0;
  spark = [];
  last_seen_at = none;
  last_error = [];
  fail_count = 0;
  monitored = true;
  mcp_exposed = false;
  created_at = [];
}

abbrev fleet : List Host
fleet = load (txt "a") HostStatus.online 20 ∷ load (txt "b") HostStatus.online 75 ∷ []

found : busiest Metric.cpu fleet ≡ some (load (txt "b") HostStatus.online 75)
unfolding busiest live sort insert
found = refl

abbrev no_digits : ℕ → ℕ → ℕ → Text
no_digits a b c = []

abbrev lost : Host
lost = load (txt "c") HostStatus.offline 0

listed-offline_example :
    let list = shown [] (all_suggestions no_digits (fleet ++ lost ∷ []) [] [] []) in
    let named = has_id (txt "offline:" ++ lost.id) in
    (any named (listed true list) ≡ is_due [] [] lost)
    × (is_due [] [] lost ≡ false → any named (listed false list) ≡ false)
    × (is_due [] [] lost ≡ true
        → (any named (listed false list) ≡ true)
          ⊎ ((length (listed false list) ≡ 4) × All IsUrgent (listed false list)))
listed-offline_example = listed-offline no_digits fleet [] lost [] [] [] [] refl refl

abbrev one_thing : List Suggestion
one_thing = offline_suggestion lost ∷ []
