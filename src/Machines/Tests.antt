-- ===== src/Machines/Tests.antt =====
-- Machines and an address to try the page on, and the theorems applied to them.
use app_dockhand.Base.{none, some, refl, Text, txt, List, [], ◌∷◌, ◌≡◌, true, false, text_eq}
use app_dockhand.Types.Hosts.{HostStatus}
use app_dockhand.Types.Machines.{Machine}
use app_dockhand.Machines.Params.{SearchParams}
use app_dockhand.Machines.{current}

abbrev machine : Text → HostStatus → Machine
machine id status = record {
  host_id = id;
  name = id;
  color = [];
  status = status;
  method = [];
  os = [];
  release = [];
  kernel = [];
  arch = [];
  pkg_manager = txt "apt";
  uptime_sec = 0;
  load = [];
  temp_c = none;
  reboot = false;
  reboot_pkgs = [];
  packages = [];
  security = 0;
  services = [];
  ports = [];
  checks = [];
  sudo = true;
  last_patch_at = none;
  apt_update_at = none;
  collected_at = none;
  error = [];
  baselines = [];
  drift = 0;
}

abbrev two_machines : List Machine
two_machines = machine (txt "a") HostStatus.offline ∷ machine (txt "b") HostStatus.online ∷ []

shown : current two_machines (txt "c") ≡ some (machine (txt "b") HostStatus.online)
unfolding current text_eq
shown = refl

abbrev address : SearchParams
address = (txt "view", txt "baselines") ∷ (txt "host", txt "a") ∷ []

abbrev changes : List (Text × Text)
changes = (txt "view", []) ∷ (txt "host", txt "b") ∷ []
