-- ===== src/Terminal/Tests.antt =====
-- A window and its tabs to try the functions on, and the theorems applied to them.
use app_dockhand.Base.{refl, List, text_eq, txt, ◌≡◌, ◌∷◌, none, [], true, some, false, show}
use app_dockhand.Terminal.Frames
use app_dockhand.Terminal.Keys
use app_dockhand.Terminal.{
  Geom, Viewport, clamp, frame_run, FrameEvent, clamp_size, open_frame, press, clamp_at, empty,
  move, mouse_move, mouse_up, resize, set_font_size,
}
use app_dockhand.Terminal.Frames.{frame_run-IsWell}
use app_dockhand.Base.Int.{negsuc, pos, ◌-ℤ◌, min_ℤ, max_ℤ}
use app_dockhand.Terminal.Tabs.{
  TerminalTarget, tab_step, tab_run, same_target, shell, logs, TabEvent, open_requests, open_tabs,
  Request, request, add_tab, plus, close_tab, close, focus_tab, focus, key_of,
}
use app_dockhand.Terminal.Status.{Patch, open'}
use app_dockhand.Types.Hosts.{Host, HostMethod, HostStatus}
use app_dockhand.Ssh.{CustomSshConn, SshAuth}
use app_dockhand.Terminal.Titles.{host_by_id}
use app_dockhand.Terminal.Keys.{tab_run-IsWell}

abbrev laptop : Viewport
laptop = record { vw = pos 1000; vh = pos 700 }

abbrev off_screen : Geom
off_screen = record { x = negsuc 2000; y = pos 2; w = pos 100; h = pos 900 }

abbrev moves : List FrameEvent
moves =
    press move 0 false (pos 10) (pos 10)
    ∷ mouse_move (pos 900) (pos 2000)
    ∷ mouse_up
    ∷ resize (record { vw = pos 300; vh = pos 200 })
    ∷ set_font_size (pos 40)
    ∷ []

placed : clamp laptop off_screen ≡ record { x = negsuc 259; y = pos 8; w = pos 420; h = pos 684 }
unfolding clamp clamp_size clamp_at ◌-ℤ◌ min_ℤ max_ℤ
placed = refl

frame_run-IsWell_example : Frames.IsWell (frame_run (open_frame laptop empty) moves)
frame_run-IsWell_example = frame_run-IsWell laptop empty moves

abbrev one : TerminalTarget
one = shell (txt "h1")

abbrev two : TerminalTarget
two = logs (txt "h1") (txt "c1") none

abbrev uses : List TabEvent
uses =
    request (record { target = one; seq = 1 } ∷ record { target = two; seq = 2 } ∷ [])
    ∷ plus one true
    ∷ close (txt "t1")
    ∷ focus (txt "t2")
    ∷ close (txt "t2")
    ∷ []

last : (tab_run (open_tabs 0) uses).active ≡ some (txt "t3")
unfolding tab_step open_requests add_tab close_tab focus_tab same_target key_of show text_eq
last = refl

tab_run-IsWell_example : Keys.IsWell (tab_run (open_tabs 0) uses)
tab_run-IsWell_example = tab_run-IsWell 0 uses

abbrev asked : List Request
asked = record { target = one; seq = 1 } ∷ record { target = one; seq = 2 } ∷ []

abbrev connected : Patch
connected = record { state = some open'; latency = some 12; cols = none; rows = none; lines = none }

abbrev a_host : Host
a_host = record {
  id = txt "h1";
  name = txt "web";
  address = txt "10.0.0.5";
  port = 2222;
  user = [];
  method = HostMethod.key;
  color = [];
  status = HostStatus.online;
  os = [];
  kernel = [];
  docker_version = [];
  cpu_cores = 4;
  uptime_sec = 0;
  cpu = 0;
  mem = 0;
  disk = 0;
  mem_used = 0;
  mem_total = 0;
  disk_used = 0;
  disk_total = 0;
  running = 0;
  total = 0;
  updates = 0;
  spark = [];
  last_seen_at = none;
  last_error = [];
  fail_count = 0;
  monitored = true;
  mcp_exposed = false;
  created_at = [];
}

abbrev a_conn : CustomSshConn
a_conn = record {
  address = txt "10.0.0.5";
  port = 2222;
  user = txt "root";
  auth = SshAuth.key;
  password = none;
  private_key = none;
  passphrase = none;
}

found : host_by_id (a_host ∷ []) (txt "h1") ≡ some a_host
unfolding text_eq
found = refl
