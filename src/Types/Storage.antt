-- ===== src/Types/Storage.antt =====
-- web/lib/types.ts, lines 238 to 289: images, volumes and networks, as the API serialises them.
use app_dockhand.Base.{ℕ, Bool, Text, List, Option}
use app_dockhand.Base.Int.{ℤ}
use app_dockhand.Types.Containers.{ContainerState}

pub record Image : Type 0 where
  pub id : Text
  pub short_id : Text
  pub repo : Text
  pub tag : Text
  pub size : ℕ
  pub created_at : Text
  pub containers : ℕ
  pub dangling : Bool

pub record Volume : Type 0 where
  pub name : Text
  pub driver : Text
  pub mountpoint : Text
  pub size : ℤ
  pub containers : List Text
  pub created_at : Option Text

pub record NetworkMember : Type 0 where
  pub id : Text
  pub name : Text
  pub ip : Text
  pub state : ContainerState

pub record Network : Type 0 where
  pub id : Text
  pub name : Text
  pub driver : Text
  pub scope : Text
  pub subnet : Text
  pub gateway : Text
  pub internal : Bool
  pub attachable : Bool
  pub system : Bool
  pub members : List NetworkMember
  pub created_at : Option Text

pub data NetworkInputDriver : Type 0 where
  bridge overlay macvlan ipvlan : NetworkInputDriver

pub record NetworkInput : Type 0 where
  pub name : Text
  pub driver : NetworkInputDriver
  pub subnet : Text
  pub gateway : Text
  pub internal : Bool
  pub attachable : Bool
