-- ===== src/Fleet/Suggestions.antt =====
-- `useSuggestions` of web/components/fleet/FleetPulse.tsx: which suggestions are left out, in which order
-- they come, and what `NextActions` shows of them.
use app_dockhand.Base.{
  none, some, ℕ, Bool, Text, List, txt, Option, any, not, false, filter, ◌++◌, ◌∷◌, if◌then◌else◌,
  [], text_eq, split_first, length, is_empty, ◌&&◌, ◌-◌, take,
}
use app_dockhand.Base.Sort.{sort, by_key}
use app_dockhand.Types.Hosts.{Host}
use app_dockhand.Types.Containers.{Container}
use app_dockhand.Types.Machines.{Machine}
use app_dockhand.Types.Alerts.{Alert}
use app_dockhand.Fleet.Offers.{Suggestion, Urgency, flat_map, crit, of_host, warn, of_machine, info}

-- `s.id.split(":")[0]` and `s.id.split(":")[1] ?? ""`
abbrev pub kind_part : Option (Text × Text) → Text → Text
kind_part none s = s
kind_part (some (a, b)) s = a

abbrev pub host_part : Option (Text × Text) → Text
host_part none = []
host_part (some (a, b)) = kind_part (split_first b':' b) b

abbrev pub alert_kind : Text → Option Text
alert_kind k =
    if text_eq k (txt "offline")
    then some (txt "host_down")
    else if text_eq k (txt "crashed")
    then some (txt "container_crash")
    else if text_eq k (txt "unhealthy")
    then some (txt "unhealthy")
    else if text_eq k (txt "disk")
    then some (txt "disk_space")
    else none

abbrev pub alert_host : Alert → Text
alert_host a = elim a.host_id [ none ↦ [] | some h ↦ h ]

abbrev pub ticking : List Alert → Text → Bool
ticking alerts s = any (λ (a : Alert). text_eq (a.kind ++ (b':' ∷ alert_host a)) s) alerts

abbrev pub covered_by : List Alert → Option Text → Text → Bool
covered_by alerts none host = false
covered_by alerts (some kind) host = ticking alerts (kind ++ (b':' ∷ host))

unfoldable pub covered : List Alert → Suggestion → Bool
covered alerts s =
    let parts = split_first b':' s.id in
    covered_by alerts (alert_kind (kind_part parts s.id)) (host_part parts)

abbrev pub rank : Urgency → ℕ
rank crit = 0
rank warn = 1
rank info = 2

module _ (to_fixed : ℕ → ℕ → ℕ → Text) where
  -- `all`
  unfoldable pub all_suggestions :
      List Host → List Container → List Machine → List Alert → List Suggestion
  all_suggestions hs cs ms alerts = sort (by_key (λ (s : Suggestion). rank s.severity)) (
      filter (λ s. not (covered alerts s))
        (flat_map (of_host to_fixed cs) hs ++ flat_map of_machine ms))

-- The map of what is snoozed, until when.
abbrev pub Snoozed : Type 0
Snoozed = List (Text × Text)

abbrev pub is_snoozed : Snoozed → Suggestion → Bool
is_snoozed m s = any (λ (p : Text × Text). text_eq p.0 s.id && not (is_empty p.1)) m

unfoldable pub shown : Snoozed → List Suggestion → List Suggestion
shown m all = filter (λ s. not (is_snoozed m s)) all

unfoldable pub snoozed_count : Snoozed → List Suggestion → ℕ
snoozed_count m all = length all - length (shown m all)

-- The optimistic map of `write`; without an id every snooze goes.
unfoldable pub written : Text → Text → Snoozed → Snoozed
written id until m =
    if is_empty id then [] else (id, until) ∷ filter (λ (p : Text × Text). not (text_eq p.0 id)) m

-- The first four, unless all are asked for.
unfoldable pub listed : Bool → List Suggestion → List Suggestion
listed all list = if all then list else take 4 list
