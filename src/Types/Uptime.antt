-- ===== src/Types/Uptime.antt =====
-- web/lib/types.ts, lines 403 to 464: uptime monitors, as the API serialises them.
use app_dockhand.Base.{ℕ, Bool, Text, List, Option}
use app_dockhand.Base.Int.{ℤ}
use app_dockhand.Types.Github.{UpStatus}

pub data UpWindow : Type 0 where
  24h 7d 30d : UpWindow

pub data BarStatus : Type 0 where
  status : UpStatus → BarStatus
  no_data : BarStatus

pub record UptimeBar : Type 0 where
  pub status : BarStatus
  pub pct : ℕ
  pub from : Text
  pub to : Text

pub data MonitorViewType : Type 0 where
  host docker http tcp : MonitorViewType

pub record MonitorView : Type 0 where
  pub id : Text
  pub name : Text
  pub type : MonitorViewType
  pub host_id : Option Text
  pub host_name : Text
  pub target : Text
  pub enabled : Bool
  pub auto : Bool
  pub status : UpStatus
  pub pct : ℤ
  pub latency_ms : ℕ
  pub incidents : ℕ
  pub last_check_at : Option Text
  pub bars : List UptimeBar

pub data IncidentViewStatus : Type 0 where
  down degraded : IncidentViewStatus

pub record IncidentView : Type 0 where
  pub id : Text
  pub monitor_id : Text
  pub target : Text
  pub status : IncidentViewStatus
  pub message : Text
  pub started_at : Text
  pub ended_at : Option Text
  pub duration_sec : ℕ

pub record UptimeOverview : Type 0 where
  pub window : UpWindow
  pub stats : record {
    overall : ℕ;
    monitors_up : ℕ;
    monitors_total : ℕ;
    avg_latency_ms : ℕ;
    incidents : ℕ;
    open_incidents : ℕ;
  }
  pub hosts : List MonitorView
  pub monitors : List MonitorView
  pub incidents : List IncidentView

pub data MonitorInputType : Type 0 where
  docker http tcp : MonitorInputType

pub record MonitorInput : Type 0 where
  pub name : Text
  pub type : MonitorInputType
  pub host_id : Option Text
  pub target : Text
  pub expect : Option Text
