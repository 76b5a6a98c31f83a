-- ===== src/Types/Containers.antt =====
-- web/lib/types.ts, lines 108 to 202: containers, as the API serialises them.
use app_dockhand.Base.{ℕ, Bool, Text, List, Option}

pub data ContainerState : Type 0 where
  running exited paused restarting created dead removing : ContainerState

pub data Health : Type 0 where
  healthy unhealthy starting no_value : Health

pub data PortMapProto : Type 0 where
  tcp udp : PortMapProto

pub record PortMap : Type 0 where
  pub ip : Text
  pub host : ℕ
  pub container : ℕ
  pub proto : PortMapProto

pub record Container : Type 0 where
  pub id : Text
  pub short_id : Text
  pub host_id : Text
  pub name : Text
  pub image : Text
  pub image_id : Text
  pub state : ContainerState
  pub status : Text
  pub health : Health
  pub exit_code : ℕ
  pub stack : Text
  pub service : Text
  pub cpu : ℕ
  pub mem_used : ℕ
  pub mem_limit : ℕ
  pub ports : List PortMap
  pub created_at : Text
  pub started_at : Option Text
  pub finished_at : Option Text
  pub update : record { available : Bool; tag : Text; checked_at : Option Text }

pub record Kv : Type 0 where
  pub k : Text
  pub v : Text

pub record EnvVar : Type 0 where
  pub k : Text
  pub v : Text
  pub secret : Bool

pub data MountMode : Type 0 where
  rw' ro : MountMode

pub record Mount : Type 0 where
  pub type : Text
  pub src : Text
  pub dst : Text
  pub mode : MountMode

pub record ContainerNetwork : Type 0 where
  pub name : Text
  pub ip : Text
  pub gw : Text
  pub driver : Text

pub record ContainerEvent : Type 0 where
  pub t : Text
  pub action : Text
  pub by : Text

pub data ContainerDetailRestartPolicy : Type 0 where
  never always unless_stopped on_failure : ContainerDetailRestartPolicy

pub record ContainerDetail : Type 0 where
  pub container : Container
  pub command : Text
  pub entrypoint : Text
  pub workdir : Text
  pub hostname : Text
  pub restart_policy : ContainerDetailRestartPolicy
  pub restart_count : ℕ
  pub env : List EnvVar
  pub labels : List Kv
  pub mounts : List Mount
  pub networks : List ContainerNetwork
  pub health_cmd : Text
  pub health_interval : Text
  pub history : record { cpu : List ℕ; mem : List ℕ; net_rx : List ℕ; net_tx : List ℕ }
  pub events : List ContainerEvent

pub data ContainerAction : Type 0 where
  start stop restart pause unpause kill update : ContainerAction

pub data RunContainerInputRestart : Type 0 where
  never always unless_stopped on_failure : RunContainerInputRestart

pub record RunContainerInput : Type 0 where
  pub host_id : Text
  pub image : Text
  pub name : Text
  pub restart : RunContainerInputRestart
  pub ports : List (record { host : Text; container : Text })
  pub volumes : List (record { src : Text; dst : Text })
  pub env : List Kv
  pub network : Text
  pub traefik : Bool
