-- ===== src/Types/Deploy.antt =====
-- web/lib/types.ts, lines 676 to 745: disk usage and deploy checks, as the API serialises them.
use app_dockhand.Base.{ℕ, Bool, Text, List, Option}
use app_dockhand.Types.Containers.{Kv}

pub data DiskUsageCategoriesKey : Type 0 where
  images containers volumes build_cache : DiskUsageCategoriesKey

pub record DiskUsage : Type 0 where
  pub root : Text
  pub used : ℕ
  pub capacity : ℕ
  pub categories : List (record {
    key : DiskUsageCategoriesKey;
    label : Text;
    size : ℕ;
    reclaimable : ℕ;
    count : ℕ;
    active : ℕ;
  })
  pub reclaimable : ℕ

pub data DeployIssueSeverity : Type 0 where
  crit warn : DeployIssueSeverity

pub record DeployIssue : Type 0 where
  pub field : Text
  pub text : Text
  pub severity : DeployIssueSeverity
  pub fix : Option (record {
    label : Text;
    patch : record {
      name : Option Text;
      path : Option Text;
      ports : Option (List (record { from : Text; to : Text }));
      env : Option (List Kv);
    };
  })

pub data DeployCheckInputKind : Type 0 where
  git image compose : DeployCheckInputKind

pub record DeployCheckInput : Type 0 where
  pub kind : DeployCheckInputKind
  pub host_id : Text
  pub name : Text
  pub path : Option Text
  pub image : Option Text
  pub ports : Option (List (record { host : Text; container : Text }))
  pub env : Option (List Kv)
  pub required_env : Option (List Text)
  pub compose_file : Option Text

pub record DeployCheckResult : Type 0 where
  pub ok : Bool
  pub issues : List DeployIssue

pub record DryRunResult : Type 0 where
  pub ok : Bool
  pub command : Text
  pub output : Text

pub record FleetList (T : Type 0) : Type 0 where
  pub items : List (record { host_id : Text; host_name : Text; item : T })
  pub errors : List (record { host_id : Text; host_name : Text; error : Text })
  pub skipped : List (record { host_id : Text; host_name : Text; error : Text })
