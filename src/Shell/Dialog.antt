-- ===== src/Shell/Dialog.antt =====
-- `DialogState` of web/components/shell/context.tsx.
use app_dockhand.Base.{Option, Text}
use app_dockhand.Types.Hosts.{HostInput}

pub data DialogState : Type 0 where
  host : Option Text → Option HostInput → DialogState
  api_key github custom_ssh : DialogState
  pull : Option Text → Option Text → DialogState
  compose : Text → Option Text → DialogState
  monitor : Option Text → DialogState
  network : Text → DialogState
  attach_network : Text → Text → Text → DialogState
  channel : Option Text → DialogState
