-- ===== src/Fleet/Offers.antt =====
-- The suggestions of `useSuggestions` of web/components/fleet/FleetPulse.tsx for a host and for a machine.
-- `to_fixed` is the parameter of `bytes`.
use app_dockhand.Base.{
  none, some, ℕ, Bool, Text, true, ◌==◌, List, txt, Option, not, false, filter, ◌++◌, ◌∷◌,
  if◌then◌else◌, [], text_eq, length, ◌||◌, is_empty, ltb, leb, show,
}
use app_dockhand.Base.Int.{sub_ℕ}
use app_dockhand.Types.Hosts.{Host}
use app_dockhand.Types.Containers.{Container, ContainerState, Health}
use app_dockhand.Types.Machines.{Machine, MachineCheck, CheckStatus}
use app_dockhand.Format.{plural, bytes}
use app_dockhand.Fleet.Pulse.{online, hot_from}

pub data Urgency : Type 0 where
  crit warn info : Urgency

pub record Suggestion : Type 0 where
  pub id : Text
  pub severity : Urgency
  pub title : Text
  pub gain : Option Text
  pub href : Text

abbrev pub is_crashed : Container → Bool
is_crashed c = elim c.state [
  | ContainerState.dead ↦ true
  | ContainerState.exited ↦ not (c.exit_code == 0)
  | _ ↦ false
]

abbrev pub is_unhealthy : Container → Bool
is_unhealthy c = is_sick c.health || is_restarting c.state
  where
    is_sick : Health → Bool
    is_sick Health.unhealthy = true
    is_sick _ = false

    is_restarting : ContainerState → Bool
    is_restarting ContainerState.restarting = true
    is_restarting _ = false

abbrev pub is_stopped : Container → Bool
is_stopped c = elim c.state [ ContainerState.exited ↦ c.exit_code == 0 | _ ↦ false ]

abbrev pub on_host : Host → List Container → List Container
on_host h cs = filter (λ (c : Container). text_eq c.host_id h.id) cs

-- `${plural(list.length, "container")} … on ${h.name}`
abbrev pub count_title : ℕ → Text → Text → Text → Text
count_title n one what name = plural n one none ++ (what ++ (txt " on " ++ name))

abbrev pub page_of : Host → Text → Text
page_of h query = txt "/hosts/" ++ (h.id ++ query)

-- A suggestion about a host, named by its kind and the host.
abbrev pub about : Text → Text → Urgency → Text → Option Text → Text → Suggestion
about kind host severity title gain href = record {
  id = kind ++ (b':' ∷ host);
  severity = severity;
  title = title;
  gain = gain;
  href = href;
}

abbrev pub offline_suggestion : Host → Suggestion
offline_suggestion h =
    about (txt "offline") h.id crit (h.name ++ txt " is unreachable")
      (if is_empty h.last_error then none else some (txt "see why")) (page_of h [])

abbrev pub crashed_part : Host → List Container → List Suggestion
crashed_part h [] = []
crashed_part h (c ∷ cs) =
    about (txt "crashed") h.id crit
      (count_title (length (c ∷ cs)) (txt "container") (txt " crashed") h.name) (some c.name)
      (page_of h (txt "?status=crashed"))
    ∷ []

abbrev pub unhealthy_part : Host → List Container → List Suggestion
unhealthy_part h [] = []
unhealthy_part h (c ∷ cs) =
    about (txt "unhealthy") h.id warn
      (count_title (length (c ∷ cs)) (txt "container") (txt " unhealthy") h.name) (some c.name)
      (page_of h (txt "?status=unhealthy"))
    ∷ []

abbrev pub updates_part : Host → List Suggestion
updates_part h =
    if ltb 0 h.updates
    then about (txt "updates") h.id info
        (txt "Update " ++ count_title h.updates (txt "container") [] h.name) none
        (page_of h (txt "?status=updates"))
      ∷ []
    else []

abbrev pub stopped_part : Host → List Container → List Suggestion
stopped_part h cs =
    if leb 5 (length cs)
    then about (txt "stopped") h.id info
        (count_title (length cs) (txt "container") (txt " stopped") h.name) (some (txt "clean up"))
        (page_of h (txt "?status=stopped"))
      ∷ []
    else []

module _ (to_fixed : ℕ → ℕ → ℕ → Text) where
  abbrev pub load_part : Host → List Suggestion
  load_part h =
      if leb hot_from h.disk
      then about (txt "disk") h.id (if leb 92 h.disk then crit else warn)
          (txt "Disk " ++ (show h.disk ++ (txt "% on " ++ h.name)))
          (if h.disk_total == 0
            then none
            else some (bytes to_fixed (sub_ℕ h.disk_total h.disk_used) 1 ++ txt " free"))
          (page_of h (txt "?tab=storage"))
        ∷ []
      else if leb hot_from h.mem
      then about (txt "mem") h.id warn (txt "Memory " ++ (show h.mem ++ (txt "% on " ++ h.name)))
          none (page_of h [])
        ∷ []
      else []

  unfoldable pub of_host : List Container → Host → List Suggestion
  of_host cs h =
      if online h
      then crashed_part h (filter is_crashed (on_host h cs))
        ++ (unhealthy_part h (filter is_unhealthy (on_host h cs))
            ++ (load_part h
                ++ (updates_part h ++ stopped_part h (filter is_stopped (on_host h cs)))))
      else offline_suggestion h ∷ []

abbrev pub is_bad : MachineCheck → Bool
is_bad c = elim c.status [ CheckStatus.bad ↦ true | _ ↦ false ]

abbrev pub machine_page : Machine → Text → Text
machine_page m query = txt "/machines?host=" ++ (m.host_id ++ query)

abbrev pub patches_part : Machine → List Suggestion
patches_part m =
    if ltb 0 m.security
    then about (txt "sec") m.host_id crit
        (plural m.security (txt "security patch") (some (txt "security patches"))
          ++ (txt " on " ++ m.name))
        none (machine_page m [])
      ∷ []
    else if is_empty m.packages
    then []
    else about (txt "pkgs") m.host_id info
        (count_title (length m.packages) (txt "OS update") [] m.name) none (machine_page m [])
      ∷ []

abbrev pub reboot_part : Machine → List Suggestion
reboot_part m =
    if m.reboot
    then about (txt "reboot") m.host_id warn (m.name ++ txt " needs a reboot")
        (some (txt "after updates")) (machine_page m [])
      ∷ []
    else []

abbrev pub hardening_part : Machine → ℕ → List Suggestion
hardening_part m bad =
    if ltb 0 bad
    then about (txt "hard") m.host_id warn
        (count_title bad (txt "hardening check") (txt " failing") m.name) none
        (machine_page m (txt "&tab=security"))
      ∷ []
    else []

unfoldable pub of_machine : Machine → List Suggestion
of_machine m =
    patches_part m ++ (reboot_part m ++ hardening_part m (length (filter is_bad m.checks)))

abbrev pub flat_map : {A B : Type 0} → (A → List B) → List A → List B
flat_map f [] = []
flat_map f (x ∷ xs) = f x ++ flat_map f xs
