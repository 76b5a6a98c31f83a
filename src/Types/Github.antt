-- ===== src/Types/Github.antt =====
-- web/lib/types.ts, lines 324 to 402: GitHub accounts, repositories and deploys, as the API serialises them.
use app_dockhand.Base.{ℕ, Bool, Text, List, Option}
use app_dockhand.Types.Containers.{Kv}

pub data GitAccountKind : Type 0 where
  user org enterprise : GitAccountKind

pub data GitAccountMethod : Type 0 where
  app oauth pat : GitAccountMethod

pub data GitAccountRepoAccess : Type 0 where
  all selected : GitAccountRepoAccess

pub data GitAccountStatus : Type 0 where
  ok error syncing : GitAccountStatus

pub record GitAccount : Type 0 where
  pub id : Text
  pub login : Text
  pub kind : GitAccountKind
  pub method : GitAccountMethod
  pub server_url : Text
  pub enabled : Bool
  pub repo_access : GitAccountRepoAccess
  pub selected_repos : List Text
  pub webhook : Bool
  pub color : Text
  pub repo_count : ℕ
  pub compose_repo_count : ℕ
  pub last_sync_at : Option Text
  pub last_error : Text
  pub status : GitAccountStatus

pub data GitAccountInputKind : Type 0 where
  user org enterprise : GitAccountInputKind

pub data GitAccountInputMethod : Type 0 where
  app oauth pat : GitAccountInputMethod

pub record GitAccountInput : Type 0 where
  pub kind : GitAccountInputKind
  pub method : GitAccountInputMethod
  pub token : Option Text
  pub server_url : Option Text
  pub device_code : Option Text
  pub installation_id : Option ℕ

pub record DeviceFlowStart : Type 0 where
  pub device_code : Text
  pub user_code : Text
  pub verification_uri : Text
  pub interval : ℕ
  pub expires_in : ℕ

pub record Repo : Type 0 where
  pub id : ℕ
  pub account_id : Text
  pub owner : Text
  pub name : Text
  pub full_name : Text
  pub private : Bool
  pub description : Text
  pub default_branch : Text
  pub compose_files : List Text
  pub pushed_at : Option Text
  pub deployed_on : Text

pub record Branch : Type 0 where
  pub name : Text
  pub sha : Text
  pub updated_at : Option Text
  pub is_default : Bool

pub record RepoInspect : Type 0 where
  pub compose_files : List Text
  pub services : List (record { name : Text; image : Text; meta : Text })
  pub env : List (record { k : Text; v : Text; required : Bool; comment : Text })

pub record GitDeployInput : Type 0 where
  pub account_id : Text
  pub owner : Text
  pub name : Text
  pub branch : Text
  pub compose_file : Text
  pub host_id : Text
  pub path : Text
  pub env : List Kv
  pub auto_deploy : Bool

pub data UpStatus : Type 0 where
  up degraded down unknown paused : UpStatus
