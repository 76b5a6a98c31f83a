-- ===== src/Types/Mcp.antt =====
-- web/lib/types.ts, lines 495 to 546: the MCP server, as the API serialises them.
use app_dockhand.Base.{ℕ, Bool, Text, List, Option}
use app_dockhand.Types.Alerts.{McpTool}

pub data ApiKeyClient : Type 0 where
  claude cursor other : ApiKeyClient

pub data ApiKeyScope : Type 0 where
  read full custom : ApiKeyScope

pub record ApiKey : Type 0 where
  pub id : Text
  pub name : Text
  pub client : ApiKeyClient
  pub prefix : Text
  pub scope : ApiKeyScope
  pub groups : List Text
  pub host_ids : List Text
  pub expires_at : Option Text
  pub last_used_at : Option Text
  pub revoked : Bool
  pub created_at : Text

pub record ApiKeyInput : Type 0 where
  pub name : Text
  pub client : ApiKeyClient
  pub scope : ApiKeyScope
  pub groups : List Text
  pub host_ids : List Text
  pub expires_days : ℕ

pub record McpActivity : Type 0 where
  pub id : ℕ
  pub client : Text
  pub tool : Text
  pub detail : Text
  pub ok : Bool
  pub at : Text

pub record McpStatus : Type 0 where
  pub published_port : Option ℕ
  pub url : Text
  pub calls_today : ℕ
  pub tools : List McpTool
  pub port : ℕ
  pub listen_error : Option Text

pub data SettingsMcpTransport : Type 0 where
  http sse : SettingsMcpTransport

pub data SettingsUpdatesChannel : Type 0 where
  stable beta nightly : SettingsUpdatesChannel

pub data SettingsUpdatesBuild : Type 0 where
  pull build : SettingsUpdatesBuild

pub record Settings : Type 0 where
  pub general : record { public_url : Text; domain : Text }
  pub uptime : record {
    interval_sec : ℕ;
    retries : ℕ;
    host_ids : List Text;
    auto_monitor : Bool;
    notify : Bool;
    public_status : Bool;
  }
  pub github : record {
    auto_deploy : Bool;
    wait_checks : Bool;
    only_compose : Bool;
    webhook_url : Text;
    webhook_secret : Text;
    app_configured : Bool;
    oauth_configured : Bool;
    app_install_url : Text;
  }
  pub mcp : record {
    enabled : Bool;
    transport : SettingsMcpTransport;
    port : ℕ;
    tools : List (Text × record { enabled : Bool; confirm : Bool });
  }
  pub updates : record {
    auto : Bool;
    channel : SettingsUpdatesChannel;
    window : Text;
    backup : Bool;
    build : SettingsUpdatesBuild;
    redeploy_on_push : Bool;
    repo : Text;
    compose_file : Text;
    timezone : Text;
  }
  pub registry : record { enabled : Bool; address : Text }
  pub notifications : record {
    host_down : Bool;
    container_crash : Bool;
    unhealthy : Bool;
    updates : Bool;
    disk_space : Bool;
    deploys : Bool;
    digest : Bool;
  }
