-- ===== src/Palette/Items.antt =====
-- The entries of web/components/shell/CommandPalette.tsx, without their icons, avatars, dots and key
-- hints. What an entry runs is named, and the entry for signing out does two things in turn.
use app_dockhand.Base.{
  none, some, Bool, Text, List, txt, Option, false, ◌++◌, find, ◌∷◌, true, if◌then◌else◌, text_eq,
  [], is_empty, reverse, map,
}
use app_dockhand.Types.Hosts.{Host, HostStatus}
use app_dockhand.Types.Containers.{Container, ContainerState}
use app_dockhand.Terminal.Tabs.{TerminalTarget, logs, exec, shell}
use app_dockhand.Shell.Dialog.{DialogState, custom_ssh, host, pull, compose, monitor}
use mathlib.Core.List.{[]}

pub data Group : Type 0 where
  navigation hosts containers actions : Group

pub data Action : Type 0 where
  go : Text → Action
  open_dialog : DialogState → Action
  open_terminal : TerminalTarget → Action
  open_container : Text → Text → Action
  toggle_theme open_shortcuts open_notifications sign_out : Action

pub record Item : Type 0 where
  pub id : Text
  pub group : Group
  pub label : Text
  pub sub : Option Text
  pub keywords : Option Text
  pub run : Action
  pub search_only : Bool

abbrev pub page : Text → Text → Option Text → Option Text → Text → Bool → Item
page id label sub keywords href search_only = record {
  id = id;
  group = navigation;
  label = label;
  sub = sub;
  keywords = keywords;
  run = go href;
  search_only = search_only;
}

abbrev pub pages : List Item
pages =
    page (txt "nav-fleet") (txt "Fleet") (some (txt "All hosts at a glance")) none (txt "/") false
    ∷ page (txt "nav-deploy") (txt "Deploy") (some (txt "From GitHub or an image")) none
        (txt "/deploy") false
    ∷ page (txt "nav-resources") (txt "All resources")
        (some (txt "Containers, stacks, images, volumes and networks on every host"))
        (some (txt "fleet everything containers images volumes networks stacks")) (txt "/resources")
        false
    ∷ page (txt "nav-machines") (txt "Machines") (some (txt "OS updates, hardening, services"))
        (some (txt "os apt packages patch security ssh firewall systemd baseline"))
        (txt "/machines") false
    ∷ page (txt "nav-uptime") (txt "Uptime") (some (txt "Monitors and incidents")) none
        (txt "/uptime") false
    ∷ page (txt "nav-alerts") (txt "Alerts") none none (txt "/alerts") false
    ∷ page (txt "nav-settings") (txt "Settings") (some (txt "Hosts")) none (txt "/settings/hosts")
        false
    ∷ page (txt "nav-github") (txt "Settings · GitHub") none (some (txt "git accounts repos"))
        (txt "/settings/github") true
    ∷ page (txt "nav-mcp") (txt "Settings · MCP") none (some (txt "api keys claude ai"))
        (txt "/settings/mcp") true
    ∷ page (txt "nav-notif") (txt "Settings · Notifications") none
        (some (txt "channels email slack ntfy webhook")) (txt "/settings/notifications") true
    ∷ page (txt "nav-registries") (txt "Settings · Registries") none
        (some (txt "registry images push pull docker login credentials ghcr token"))
        (txt "/settings/registries") true
    ∷ page (txt "nav-activity") (txt "Activity")
        (some (txt "What Dockhand has done, and who asked"))
        (some (txt "jobs history log deploys audit who")) (txt "/alerts?view=activity") true
    ∷ page (txt "nav-updates") (txt "Settings · Updates") none (some (txt "self update version"))
        (txt "/settings/updates") true
    ∷ page (txt "nav-account") (txt "Settings · Account") none
        (some (txt "password profile sessions")) (txt "/settings/account") true
    ∷ []

abbrev pub status_text : HostStatus → Text
status_text HostStatus.pending = txt "pending"
status_text HostStatus.online = txt "online"
status_text HostStatus.degraded = txt "degraded"
status_text HostStatus.offline = txt "offline"

abbrev pub host_items : Host → List Item
host_items h =
    record {
      id = txt "host-" ++ h.id;
      group = hosts;
      label = h.name;
      sub = some (h.address ++ (if is_empty h.os then [] else txt " · " ++ h.os));
      keywords = some (status_text h.status);
      run = go (txt "/hosts/" ++ h.id);
      search_only = false;
    }
    ∷ record {
      id = txt "os-" ++ h.id;
      group = hosts;
      label = txt "OS & security on " ++ h.name;
      sub = some (txt "updates, hardening, services");
      keywords = some (txt "apt patch machine kernel firewall");
      run = go (txt "/hosts/" ++ (h.id ++ txt "?tab=os"));
      search_only = true;
    }
    ∷ record {
      id = txt "ssh-" ++ h.id;
      group = hosts;
      label = txt "Open SSH on " ++ h.name;
      sub = some (h.user ++ (b'@' ∷ h.address));
      keywords = some (txt "shell terminal ssh console");
      run = open_terminal (shell h.id);
      search_only = true;
    }
    ∷ []

-- `hostName.get(id) ?? "host"`; of hosts with the same id the last one counts.
unfoldable pub host_name : List Host → Text → Text
host_name hs id = elim (find (λ (h : Host). text_eq h.id id) (reverse hs)) [
  | none ↦ txt "host"
  | some h ↦ h.name
]

abbrev pub container_item : List Host → Container → Item
container_item hs c = record {
  id = txt "ctr-" ++ (c.host_id ++ (b'-' ∷ c.id));
  group = containers;
  label = c.name;
  sub = some (host_name hs c.host_id ++ (txt " · " ++ c.image));
  keywords = some (c.stack ++ (b' ' ∷ (c.service ++ (b' ' ∷ c.short_id))));
  run = open_container c.host_id c.id;
  search_only = true;
}

abbrev pub logs_item : List Host → Container → Item
logs_item hs c = record {
  id = txt "logs-" ++ (c.host_id ++ (b'-' ∷ c.id));
  group = actions;
  label = txt "Logs: " ++ c.name;
  sub = some (txt "docker logs -f · " ++ host_name hs c.host_id);
  keywords = some (txt "tail " ++ (c.stack ++ (b' ' ∷ c.service)));
  run = open_terminal (logs c.host_id c.id (some c.name));
  search_only = true;
}

abbrev pub exec_item : List Host → Container → Item
exec_item hs c = record {
  id = txt "exec-" ++ (c.host_id ++ (b'-' ∷ c.id));
  group = actions;
  label = txt "Shell: " ++ c.name;
  sub = some (txt "docker exec · " ++ host_name hs c.host_id);
  keywords = some (txt "terminal exec sh " ++ (c.stack ++ (b' ' ∷ c.service)));
  run = open_terminal (exec c.host_id c.id (some c.name));
  search_only = true;
}

abbrev pub session_items : List Host → Container → List Item
session_items hs c =
    logs_item hs c ∷ (elim c.state [ ContainerState.running ↦ exec_item hs c ∷ [] | _ ↦ [] ])

abbrev pub action : Text → Text → Option Text → Option Text → Action → Item
action id label sub keywords run = record {
  id = id;
  group = actions;
  label = label;
  sub = sub;
  keywords = keywords;
  run = run;
  search_only = false;
}

abbrev pub ssh_item : Item
ssh_item =
    action (txt "custom-ssh") (txt "Custom SSH…") (some (txt "Open a terminal to any address"))
      (some (txt "ssh connect terminal remote server ip login")) (open_dialog custom_ssh)

abbrev pub action_items : List Item
action_items =
    action (txt "act-host") (txt "Add host") (some (txt "Connect a machine over SSH"))
      (some (txt "new server")) (open_dialog (host none none))
    ∷ action (txt "act-git") (txt "Deploy from GitHub") none (some (txt "repo compose"))
        (go (txt "/deploy?mode=git"))
    ∷ action (txt "act-run") (txt "Run a container") none (some (txt "image docker run"))
        (go (txt "/deploy?mode=image"))
    ∷ action (txt "act-pull") (txt "Pull image") none (some (txt "docker pull"))
        (open_dialog (pull none none))
    ∷ action (txt "act-monitor") (txt "Add monitor") none (some (txt "uptime http tcp check"))
        (open_dialog (monitor none))
    ∷ action (txt "act-theme") (txt "Toggle dark mode") none (some (txt "theme light")) toggle_theme
    ∷ action (txt "act-keys") (txt "Keyboard shortcuts") none none open_shortcuts
    ∷ action (txt "act-notif") (txt "Notifications") none none open_notifications
    ∷ []

abbrev pub stack_item : Host → Item
stack_item h = record {
  id = txt "stack-" ++ h.id;
  group = actions;
  label = txt "New stack on " ++ h.name;
  sub = none;
  keywords = some (txt "compose");
  run = open_dialog (compose h.id none);
  search_only = true;
}

abbrev pub flat_map : {A B : Type 0} → (A → List B) → List A → List B
flat_map f [] = []
flat_map f (x ∷ xs) = f x ++ flat_map f xs

unfoldable pub items : List Host → List Container → List Item
items hs cs =
    pages
    ++ (ssh_item ∷ [])
    ++ flat_map host_items hs
    ++ map (container_item hs) cs
    ++ flat_map (session_items hs) cs
    ++ action_items
    ++ map stack_item hs
    ++ (action (txt "act-logout") (txt "Sign out") none (some (txt "log out logout")) sign_out ∷ [])
