-- ===== src/Types/Machines.antt =====
-- web/lib/types.ts, lines 798 to 903: the operating system of a host, as the API serialises them.
use app_dockhand.Base.{ℕ, Bool, Text, List, Option}
use app_dockhand.Base.Int.{ℤ}
use app_dockhand.Types.Hosts.{HostStatus}
use app_dockhand.Types.Registry.{MachinePackage}

pub record MachineService : Type 0 where
  pub name : Text
  pub description : Text
  pub active : Text
  pub enabled : Bool
  pub since : Text

pub record MachinePort : Type 0 where
  pub port : ℕ
  pub address : Text
  pub process : Text
  pub public : Bool

pub data CheckStatus : Type 0 where
  ok bad warn unknown : CheckStatus

pub record MachineCheck : Type 0 where
  pub id : Text
  pub title : Text
  pub sub : Text
  pub status : CheckStatus
  pub group : Text
  pub fix : Text
  pub fix_note : Option Text
  pub fix_risky : Option Bool

pub record Machine : Type 0 where
  pub host_id : Text
  pub name : Text
  pub color : Text
  pub status : HostStatus
  pub method : Text
  pub os : Text
  pub release : Text
  pub kernel : Text
  pub arch : Text
  pub pkg_manager : Text
  pub uptime_sec : ℕ
  pub load : Text
  pub temp_c : Option ℤ
  pub reboot : Bool
  pub reboot_pkgs : List Text
  pub packages : List MachinePackage
  pub security : ℕ
  pub services : List MachineService
  pub ports : List MachinePort
  pub checks : List MachineCheck
  pub sudo : Bool
  pub last_patch_at : Option Text
  pub apt_update_at : Option Text
  pub collected_at : Option Text
  pub error : Text
  pub baselines : List Text
  pub drift : ℕ

pub record BaselineRow : Type 0 where
  pub host_id : Text
  pub name : Text
  pub color : Text
  pub status : HostStatus
  pub cells : List (Text × CheckStatus)
  pub drift : ℕ

pub record Baseline : Type 0 where
  pub id : Text
  pub name : Text
  pub description : Text
  pub color : Text
  pub rules : List Text
  pub host_ids : List Text
  pub created_at : Text
  pub compliance : List BaselineRow
  pub pct : ℕ
  pub drift : ℕ

pub record BaselineInput : Type 0 where
  pub name : Text
  pub description : Text
  pub color : Text
  pub rules : List Text
  pub host_ids : List Text

pub record BaselinesResponse : Type 0 where
  pub baselines : List Baseline
  pub rules : List (record { id : Text; title : Text; group : Text })

pub data ImpactItemKind : Type 0 where
  container stack monitor port service host : ImpactItemKind

pub data ImpactItemSeverity : Type 0 where
  crit warn info : ImpactItemSeverity

pub record ImpactItem : Type 0 where
  pub kind : ImpactItemKind
  pub name : Text
  pub detail : Text
  pub host : Text
  pub severity : ImpactItemSeverity
  pub href : Option Text
