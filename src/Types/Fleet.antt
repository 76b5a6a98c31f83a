-- ===== src/Types/Fleet.antt =====
-- web/lib/types.ts, lines 649 to 675: the fleet page, as the API serialises them.
use app_dockhand.Base.{ℕ, Text, List, Option}
use app_dockhand.Types.Alerts.{Severity}

pub record FleetMetrics : Type 0 where
  pub points : List (record { at : Text; cpu : ℕ; mem : ℕ; disk : ℕ })
  pub avg : record { at : Text; cpu : ℕ; mem : ℕ; disk : ℕ }
  pub prev : record { at : Text; cpu : ℕ; mem : ℕ; disk : ℕ }

pub record Overview : Type 0 where
  pub hosts : ℕ
  pub online : ℕ
  pub running : ℕ
  pub total : ℕ
  pub updates : ℕ
  pub unread_alerts : ℕ
  pub attention : List (record {
    severity : Severity;
    host_id : Option Text;
    host : Text;
    text : Text;
    action : Text;
    href : Text;
  })
