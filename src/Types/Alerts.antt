-- ===== src/Types/Alerts.antt =====
-- web/lib/types.ts, lines 465 to 494: alerts and notification channels, as the API serialises them.
use app_dockhand.Base.{Bool, Text, List, Option}

pub data Severity : Type 0 where
  crit warn info ok : Severity

pub record Alert : Type 0 where
  pub id : Text
  pub severity : Severity
  pub kind : Text
  pub title : Text
  pub text : Text
  pub host_id : Option Text
  pub host_name : Text
  pub action : Text
  pub href : Text
  pub created_at : Text
  pub read : Bool
  pub snoozed_until : Option Text
  pub resolved : Bool

pub data NotificationChannelType : Type 0 where
  email slack ntfy webhook : NotificationChannelType

pub record NotificationChannel : Type 0 where
  pub id : Text
  pub type : NotificationChannelType
  pub name : Text
  pub config : List (Text × Text)
  pub enabled : Bool
  pub created_at : Text

pub data McpToolGroup : Type 0 where
  hosts containers stacks images logs deploy : McpToolGroup

pub record McpTool : Type 0 where
  pub name : Text
  pub group : McpToolGroup
  pub desc : Text
  pub writes : Bool
