-- ===== src/Types/Account.antt =====
-- web/lib/types.ts, lines 8 to 45: accounts, sessions and themes, as the API serialises them.
use app_dockhand.Base.{Bool, Text, List, Option}

pub data Theme : Type 0 where
  light dark system : Theme

pub record User : Type 0 where
  pub id : Text
  pub name : Text
  pub username : Text
  pub role : Text
  pub theme : Theme
  pub created_at : Text

pub record AuthState : Type 0 where
  pub setup_required : Bool
  pub user : Option User
  pub version : Text

pub record SessionInfo : Type 0 where
  pub id : Text
  pub device : Text
  pub ip : Text
  pub created_at : Text
  pub last_seen_at : Text
  pub current : Bool

pub record Account : Type 0 where
  pub user : User
  pub sessions : List SessionInfo

pub record SshKeyInfo : Type 0 where
  pub public_key : Text
  pub fingerprint : Text
