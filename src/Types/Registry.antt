-- ===== src/Types/Registry.antt =====
-- web/lib/types.ts, lines 746 to 797: registries, as the API serialises them.
use app_dockhand.Base.{ℕ, Bool, Text, List, Option}
use app_dockhand.Base.Int.{ℤ}

pub record RegistryInfo : Type 0 where
  pub enabled : Bool
  pub address : Text
  pub secure : Bool
  pub reachable : Bool
  pub error : Option Text
  pub repos : ℕ
  pub size : ℤ

pub record RegistryRepo : Type 0 where
  pub name : Text
  pub tags : ℕ
  pub latest : Text

pub record RegistryTag : Type 0 where
  pub tag : Text
  pub digest : Text
  pub size : ℕ
  pub platforms : List Text
  pub created_at : Option Text

pub data RegistryTokenScope : Type 0 where
  pull push : RegistryTokenScope

pub record RegistryToken : Type 0 where
  pub id : Text
  pub name : Text
  pub prefix : Text
  pub scope : RegistryTokenScope
  pub system : Bool
  pub last_used_at : Option Text
  pub created_at : Text
  pub token : Option Text

pub record RegistryCredential : Type 0 where
  pub id : Text
  pub server : Text
  pub username : Text
  pub last_used_at : Option Text
  pub created_at : Text

pub record MachinePackage : Type 0 where
  pub name : Text
  pub current : Text
  pub candidate : Text
  pub origin : Text
  pub security : Bool
