-- ===== src/Types/Hosts.antt =====
-- web/lib/types.ts, lines 46 to 107: hosts and connection tests, as the API serialises them.
use app_dockhand.Base.{ℕ, Bool, Text, List, Option}

pub data HostStatus : Type 0 where
  pending online degraded offline : HostStatus

pub data HostMethod : Type 0 where
  key password local : HostMethod

pub record Host : Type 0 where
  pub id : Text
  pub name : Text
  pub address : Text
  pub port : ℕ
  pub user : Text
  pub method : HostMethod
  pub color : Text
  pub status : HostStatus
  pub os : Text
  pub kernel : Text
  pub docker_version : Text
  pub cpu_cores : ℕ
  pub uptime_sec : ℕ
  pub cpu : ℕ
  pub mem : ℕ
  pub disk : ℕ
  pub mem_used : ℕ
  pub mem_total : ℕ
  pub disk_used : ℕ
  pub disk_total : ℕ
  pub running : ℕ
  pub total : ℕ
  pub updates : ℕ
  pub spark : List ℕ
  pub last_seen_at : Option Text
  pub last_error : Text
  pub fail_count : ℕ
  pub monitored : Bool
  pub mcp_exposed : Bool
  pub created_at : Text

pub record HostInput : Type 0 where
  pub name : Text
  pub address : Text
  pub port : ℕ
  pub user : Text
  pub method : HostMethod
  pub password : Option Text
  pub color : Option Text

pub data TestStepStatus : Type 0 where
  done failed skipped : TestStepStatus

pub record TestStep : Type 0 where
  pub label : Text
  pub sub : Text
  pub status : TestStepStatus
  pub ms : ℕ

pub record HostTestResult : Type 0 where
  pub ok : Bool
  pub steps : List TestStep
  pub error : Text
  pub host : Option Host
