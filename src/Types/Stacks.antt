-- ===== src/Types/Stacks.antt =====
-- web/lib/types.ts, lines 203 to 237: compose stacks, as the API serialises them.
use app_dockhand.Base.{ℕ, Bool, Text, List, Option}
use app_dockhand.Types.Containers.{ContainerState, Health, PortMap}

pub data ServiceState : Type 0 where
  state : ContainerState → ServiceState
  missing : ServiceState

pub record StackService : Type 0 where
  pub name : Text
  pub image : Text
  pub state : ServiceState
  pub container_id : Text
  pub ports : List PortMap
  pub health : Health

pub data StackStatus : Type 0 where
  running partial stopped : StackStatus

pub data StackSource : Type 0 where
  manual git image discovered : StackSource

pub record Stack : Type 0 where
  pub id : Option Text
  pub host_id : Text
  pub name : Text
  pub path : Text
  pub compose_file : Text
  pub status : StackStatus
  pub managed : Bool
  pub source : StackSource
  pub repo : Text
  pub branch : Text
  pub sha : Text
  pub auto_deploy : Bool
  pub last_deploy_at : Option Text
  pub services : List StackService

pub record ComposeValidation : Type 0 where
  pub ok : Bool
  pub error : Text
  pub line : ℕ
  pub services : List (record { name : Text; image : Text; ports : List Text })
