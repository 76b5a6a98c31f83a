-- ===== src/Session.antt =====
-- web/components/host/XTerm.tsx: one connection of an interactive terminal, which is one run of its
-- effect, and the keys that the terminal leaves to the browser. The browser delivers `open` only to a
-- socket that is connecting, a message only to one that is open, and nothing to one that is closed.
mod Tests
pub mod Course
pub mod Runs
pub mod Over
use Prim.Native.Nat.{ℕ}
use app_dockhand.Base.{
  ◌∷◌, Text, List, Bool, Option, ◌++◌, none, true, txt, if◌then◌else◌, some, [], false, ◌==◌,
  text_eq, includes, show, ◌&&◌, not,
}

pub data SessionState : Type 0 where
  connecting open_state ended_state : SessionState

-- `readyState`
pub data ReadyState : Type 0 where
  connecting open_socket closing closed : ReadyState

-- How far the asynchronous part of the effect has come.
pub data Phase : Type 0 where
  importing fonts : Phase
  live : ReadyState → Phase

-- What is sent: the first message, and the messages of types "input" and "resize".
pub data Sent : Type 0 where
  hello input : Text → Sent
  resize : ℕ → ℕ → Sent

-- What `JSON.parse` makes of a text frame: no value with a `type` that is a text, or such a value with
-- the fields that are read. Exit codes are whole numbers from 0.
pub data Parsed : Type 0 where
  untyped : Parsed
  typed : Text → Option ℕ → Option Text → Option Text → Parsed

pub data Frame : Type 0 where
  bytes : List ℕ → Frame
  text : Text → Parsed → Frame

pub data SessionEffect : Type 0 where
  set_ended : Bool → SessionEffect
  on_state : SessionState → SessionEffect
  on_ready : Bool → SessionEffect
  on_dims : ℕ → ℕ → SessionEffect
  on_control : Text → SessionEffect
  connect : Text → SessionEffect
  send : Sent → SessionEffect
  write : Text → SessionEffect
  write_bytes : List ℕ → SessionEffect
  focus close dispose : SessionEffect

pub record Session : Type 0 where
  pub disposed : Bool
  pub phase : Phase
  pub exited : Bool
  pub log : List SessionEffect

pub data SessionEvent : Type 0 where
  imported : SessionEvent
  fonts_ready : ℕ → ℕ → SessionEvent
  opened errored closed_event : SessionEvent
  message : Frame → SessionEvent
  typed_data : Text → SessionEvent
  resized : ℕ → ℕ → SessionEvent
  cleanup : SessionEvent

abbrev pub emit : List SessionEffect → Session → Session
emit es s = record s { log = s.log ++ es }

abbrev pub ready_of : Phase → Option ReadyState
ready_of importing = none
ready_of fonts = none
ready_of (live r) = some r

abbrev pub is_open : Phase → Bool
is_open (live open_socket) = true
is_open _ = false

abbrev pub is_live : Phase → Bool
is_live (live r) = true
is_live _ = false

-- A message of the terminal itself, in the colour of the code, on a line of its own.
abbrev pub line : Text → Text → Text
line colour msg =
    13 ∷ 10 ∷ 27 ∷ (txt "[" ++ (colour ++ (b'm' ∷ (msg ++ 27 ∷ (txt "[0m" ++ 13 ∷ 10 ∷ [])))))

abbrev pub failed_line : Text
failed_line = 13 ∷ 10 ∷ 27 ∷ (txt "[31mCouldn't open the terminal connection." ++ 27 ∷ txt "[0m")

-- `end`
unfoldable pub end : Text → Session → Session
end msg s = if s.exited then s else record s {
  exited = true;
  log = s.log ++ write (line (txt "90") msg) ∷ set_ended true ∷ on_state ended_state ∷ [];
}

abbrev pub exit_text : Option ℕ → Text
exit_text none = txt "[session ended]"
exit_text (some code) =
    if code == 0
    then txt "[session ended]"
    else txt "[session ended · exit " ++ (show code ++ txt "]")

-- `m.error ?? m.message ?? "error"`
abbrev pub error_text : Option Text → Option Text → Text
error_text (some e) m = e
error_text none (some m) = m
error_text none none = txt "error"

-- `ws.onmessage`
unfoldable pub on_message : Frame → Session → Session
on_message (bytes b) s = emit (write_bytes b ∷ []) s
on_message (text t untyped) s = emit (write t ∷ []) s
on_message (text t (typed type code error msg)) s =
    if text_eq type (txt "exit")
    then end (exit_text code) s
    else if text_eq type (txt "error")
    then emit (write (line (txt "31") (error_text error msg)) ∷ []) s
    else emit (on_control t ∷ []) s

abbrev pub separator : Text → Text
separator path = if includes path (txt "?") then txt "&" else txt "?"

abbrev pub socket_path : Text → ℕ → ℕ → Text
socket_path path cols rows =
    path ++ (separator path ++ (txt "cols=" ++ (show cols ++ (txt "&rows=" ++ show rows))))

-- What the cleanup closes: the socket, if it was made, and the terminal, if it was.
abbrev pub shut : Phase → List SessionEffect
shut importing = []
shut fonts = dispose ∷ []
shut (live r) = close ∷ dispose ∷ []

abbrev pub after_close : Phase → Phase
after_close (live closed) = live closed
after_close (live r) = live closing
after_close p = p

abbrev pub greeting : Option Text → List SessionEffect
greeting none = []
greeting (some h) = send (hello h) ∷ []

module _ (path : Text) (greet : Option Text) (active : Bool) where
  -- The effect up to its first `await`.
  abbrev pub begin : Session
  begin = record {
    disposed = false;
    phase = importing;
    exited = false;
    log = set_ended false ∷ on_state connecting ∷ [];
  }

  -- One event, at the phase of the moment.
  unfoldable pub dispatch : Phase → SessionEvent → Session → Session
  dispatch importing imported s =
      if s.disposed then s else record s { phase = fonts; log = s.log ++ on_ready true ∷ [] }
  dispatch fonts (fonts_ready cols rows) s = if s.disposed then s else record s {
    phase = live connecting;
    log = s.log ++ on_dims cols rows ∷ connect (socket_path path cols rows) ∷ [];
  }
  dispatch (live connecting) opened s = record s {
    phase = live open_socket;
    log = s.log ++ (greeting greet ++ on_state open_state ∷ (if active then focus ∷ [] else []));
  }
  dispatch (live open_socket) (message f) s = on_message f s
  dispatch (live closed) errored s = s
  dispatch (live r) errored s = emit (write failed_line ∷ []) s
  dispatch (live closed) closed_event s = s
  dispatch (live r) closed_event s =
      if s.disposed
      then record s { phase = live closed }
      else end (txt "[session ended]") (record s { phase = live closed })
  dispatch (live r) (typed_data d) s =
      if is_open (live r) && not s.disposed then emit (send (input d) ∷ []) s else s
  dispatch (live r) (resized cols rows) s =
      if s.disposed
      then s
      else emit
          (on_dims cols rows ∷ (if is_open (live r) then send (resize cols rows) ∷ [] else [])) s
  dispatch p cleanup s = if s.disposed then s else record s {
    disposed = true;
    phase = after_close p;
    log = s.log ++ (shut p ++ on_ready false ∷ []);
  }
  dispatch p e s = s

  abbrev pub session_step : SessionEvent → Session → Session
  session_step e s = dispatch s.phase e s

  unfoldable pub session_run : List SessionEvent → Session → Session
  session_run [] s = s
  session_run (e ∷ es) s = session_run es (session_step e s)
