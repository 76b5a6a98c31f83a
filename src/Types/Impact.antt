-- ===== src/Types/Impact.antt =====
-- web/lib/types.ts, lines 904 to 969: the effect of an action, and git-backed stacks, as the API serialises them.
use app_dockhand.Base.{ℕ, Bool, Text, List, Option}
use app_dockhand.Base.Int.{ℤ}
use app_dockhand.Types.Machines.{ImpactItem}

pub data ImpactTarget : Type 0 where
  host stack container : ImpactTarget

pub data ImpactSeverity : Type 0 where
  crit warn info : ImpactSeverity

pub record Impact : Type 0 where
  pub target : ImpactTarget
  pub name : Text
  pub host : Text
  pub action : Text
  pub summary : Text
  pub severity : ImpactSeverity
  pub stops : List ImpactItem
  pub stacks : List ImpactItem
  pub monitors : List ImpactItem
  pub ports : List ImpactItem
  pub depends : List ImpactItem
  pub safe : List Text

pub data PatchPackageEffect : Type 0 where
  docker reboot services ssh no_value : PatchPackageEffect

pub record PatchPackage : Type 0 where
  pub name : Text
  pub effect : PatchPackageEffect
  pub detail : Text
  pub service : Option Text

pub data PatchImpactSeverity : Type 0 where
  crit warn info : PatchImpactSeverity

pub record PatchImpact : Type 0 where
  pub packages : ℕ
  pub security : ℕ
  pub docker : Bool
  pub reboot : Bool
  pub services : List Text
  pub pending : List Text
  pub containers : List ImpactItem
  pub details : List PatchPackage
  pub summary : Text
  pub severity : PatchImpactSeverity

pub record GitCommit : Type 0 where
  pub sha : Text
  pub message : Text
  pub author : Text
  pub date : Option Text

pub data StackGitStatusKind : Type 0 where
  managed checkout no_value : StackGitStatusKind

pub record StackGitStatus : Type 0 where
  pub kind : StackGitStatusKind
  pub repo : Text
  pub branch : Text
  pub path : Text
  pub current : Text
  pub latest : Text
  pub behind : ℤ
  pub ahead : ℕ
  pub commits : List GitCommit
  pub dirty : ℕ
  pub compare_url : Text
  pub error : Option Text

pub record StackGitUpdate : Type 0 where
  pub force : Bool
  pub pull_images : Bool
  pub no_cache : Bool
