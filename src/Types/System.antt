-- ===== src/Types/System.antt =====
-- web/lib/types.ts, lines 601 to 648: the version and its updates, as the API serialises them.
use app_dockhand.Base.{ℕ, Bool, Text, List, Option}

pub record UpdateHistoryItem : Type 0 where
  pub id : Text
  pub version : Text
  pub from_version : Text
  pub status : Text
  pub note : Text
  pub at : Text

pub record UpdateHistoryPage : Type 0 where
  pub items : List UpdateHistoryItem
  pub total : ℕ
  pub page : ℕ
  pub pages : ℕ
  pub limit : ℕ

pub data UpdaterStatusState : Type 0 where
  no_value running succeeded failed : UpdaterStatusState

pub record UpdaterStatus : Type 0 where
  pub state : UpdaterStatusState
  pub id : Option Text
  pub exit_code : Option ℕ
  pub started_at : Option Text
  pub finished_at : Option Text
  pub log : List Text

pub data SystemInfoMode : Type 0 where
  git release : SystemInfoMode

pub record SystemInfo : Type 0 where
  pub version : Text
  pub latest : Text
  pub update_available : Bool
  pub released_at : Option Text
  pub notes : List Text
  pub changelog_url : Text
  pub checked_at : Option Text
  pub can_self_update : Bool
  pub source : record { repo : Text; branch : Text; sha : Text; path : Text }
  pub history : List UpdateHistoryItem
  pub mode : Option SystemInfoMode
  pub current_commit : Option Text
  pub check_error : Option Text
  pub auto : Option (record {
    enabled : Bool;
    timezone : Text;
    in_window : Bool;
    next_window : Option Text;
    last_check : Option Text;
    last_result : Text;
    error : Option Text;
  })
