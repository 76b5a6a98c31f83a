-- ===== src/Logs.antt =====
-- web/components/host/logStream.tsx: the lines of a container's log, streamed over a WebSocket. The
-- state is that of one run of the effect, from the connection to the cleanup. `JSON.parse` is a
-- parameter; the time of the clock comes with the message.
pub mod Level
pub mod Bounds
pub mod Ids
mod Tests
use app_dockhand.Base.{
  refl, ℕ, Bool, suc, Text, List, Option, if◌then◌else◌, [], txt, drop, ◌||◌, false, some, ◌∷◌,
  ◌++◌, true, length, is_empty, text_eq, ltb, ◌-◌, ◌+◌, trim,
}
use mathlib.Core.Option.{none}

pub data LogLevel : Type 0 where
  level_error level_warn level_info level_debug : LogLevel

pub data Stream : Type 0 where
  stdout stderr : Stream

pub record LogLine : Type 0 where
  pub id : ℕ
  pub t : Text
  pub stream : Stream
  pub line : Text
  pub level : LogLevel

pub data LogMode : Type 0 where
  last_hour tail everything : LogMode

unfoldable pub log_query : LogMode → Bool → Text
log_query mode follow = query mode ++ (if follow then txt "&follow=1" else [])
  where
    query : LogMode → Text
    query tail = txt "tail=200"
    query last_hour = txt "since=1h&tail=all"
    query everything = txt "tail=all"

abbrev pub max_lines : ℕ
max_lines = 5000

-- `xs.slice(-n)`
abbrev pub slice_last : ℕ → List LogLine → List LogLine
slice_last n xs = drop (length xs - n) xs

-- A message as JSON gives it.
pub record Message : Type 0 where
  pub t : Option Text
  pub stream : Option Text
  pub line : Option Text

pub data StreamStatus : Type 0 where
  idle connecting live ended failed : StreamStatus

pub record LogStream : Type 0 where
  pub lines : List LogLine
  pub status : StreamStatus
  pub pending : List LogLine
  pub paused : Bool
  pub seq : ℕ
  pub timer : Bool
  pub closed : Bool

unfoldable pub flush : LogStream → LogStream
flush s = if s.paused || is_empty s.pending then record s { timer = false } else record s {
  timer = false;
  pending = [];
  lines =
      if ltb max_lines (length s.lines + length s.pending)
      then slice_last max_lines (s.lines ++ s.pending)
      else s.lines ++ s.pending;
}

abbrev pub is_stderr : Option Text → Bool
is_stderr none = false
is_stderr (some s) = text_eq s (txt "stderr")

abbrev pub or_text : Option Text → Text → Text
or_text none d = d
or_text (some s) d = s

pub data LogEvent : Type 0 where
  opened : LogEvent
  message : Text → List Text → LogEvent
  binary : LogEvent
  errored : LogEvent
  ended_by_server : LogEvent
  fired : LogEvent
  set_paused : Bool → LogEvent
  clear : LogEvent
  cleanup : LogEvent

-- The first two arguments are `JSON.parse`, which may throw, and what makes of a line its text
-- and its level.
module _ (parse : Text → Option Message) (clean : Text → Text) (level_of : Text → LogLevel) where
  abbrev pub message_of : Text → Message
  message_of raw = elim (parse raw) [
    | none ↦ record { t = none; stream = none; line = some raw }
    | some m ↦ m
  ]

  abbrev pub line_of : Text → ℕ → Message → LogLine
  line_of now id m = record {
    id = id;
    t = or_text m.t now;
    stream = if is_stderr m.stream then stderr else stdout;
    line = clean (or_text m.line []);
    level = level_of (clean (or_text m.line []));
  }

  -- What the loop over the texts pushes, and `seq` after it.
  unfoldable pub received : Text → ℕ → List Text → List LogLine × ℕ
  received now seq [] = ([], seq)
  received now seq (raw ∷ raws) =
      let (skipped, n) = received now seq raws in
      let (more, m) = received now (suc seq) raws in
      if is_empty (trim raw)
      then (skipped, n)
      else (line_of now (suc seq) (message_of raw) ∷ more, m)

  -- `onmessage` for a text, which comes split into lines.
  unfoldable pub receive_text : Text → List Text → LogStream → LogStream
  receive_text now raws s =
      let (fresh, n) = received now s.seq raws in
      let pending = s.pending ++ fresh in
      record s {
        seq = n;
        timer = true;
        pending = if ltb max_lines (length pending) then slice_last max_lines pending else pending;
      }

  abbrev pub unless_failed : StreamStatus → StreamStatus
  unless_failed failed = failed
  unless_failed _ = ended

  -- After the cleanup the socket has no handler for messages or its end, and there is no timer.
  unfoldable pub log_step : LogEvent → LogStream → LogStream
  log_step opened s = if s.closed then s else record s { status = live }
  log_step (message now raws) s = if s.closed then s else receive_text now raws s
  log_step binary s = s
  log_step errored s = if s.closed then s else record s { status = failed }
  log_step ended_by_server s =
      if s.closed then s else record (flush s) { status = unless_failed s.status }
  log_step fired s = if s.closed then s else flush s
  log_step (set_paused b) s =
      if b then record s { paused = true } else flush (record s { paused = false })
  log_step clear s = record s { lines = [] }
  log_step cleanup s = record s { closed = true; timer = false }

  abbrev pub log_run : LogStream → List LogEvent → LogStream
  log_run s [] = s
  log_run s (e ∷ es) = log_run (log_step e s) es

abbrev pub connect : Bool → LogStream
connect paused = record {
  lines = [];
  status = connecting;
  pending = [];
  paused = paused;
  seq = 0;
  timer = false;
  closed = false;
}
