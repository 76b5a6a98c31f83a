-- ===== src/Logs/Tests.antt =====
-- A stream of log lines to try the functions on, and the theorems applied to it.
use app_dockhand.Base.{
  refl, Text, List, Option, span, none, false, true, ◌∷◌, starts_with, txt, ◌≡◌, [], trim_start,
  ◌++◌, is_space, map,
}
use app_dockhand.Logs.{
  LogEvent, log_run, fired, Message, opened, connect, message, set_paused, ended_by_server,
  level_error, level_info, level_warn, level_debug, LogStream, live, stdout,
}
use app_dockhand.Logs.Level.{
  detect_level, clean_line, is_level, strip_ansi, has_word, has_level_field,
}
use app_dockhand.Logs.Ids.{IsOrdered, log_run-IsOrdered}

abbrev no_json : Text → Option Message
no_json raw = none

abbrev came : List LogEvent
came =
    opened
    ∷ message (txt "now") (txt "GET /" ∷ [] ∷ txt "oops" ∷ [])
    ∷ set_paused true
    ∷ fired
    ∷ message (txt "now") (txt "late" ∷ [])
    ∷ set_paused false
    ∷ ended_by_server
    ∷ []

levels :
    map detect_level (
      txt "12:00 [Error] boom"
      ∷ txt "terror"
      ∷ txt "level=warning x"
      ∷ txt "{\"level\": \"trace\"}"
      ∷ [])
    ≡ level_error ∷ level_info ∷ level_warn ∷ level_debug ∷ []
unfolding detect_level is_level has_word has_level_field starts_with trim_start is_space
levels = refl

cleaned : clean_line (27 ∷ txt "[1;31mred" ++ 27 ∷ txt "[0m" ++ 13 ∷ []) ≡ txt "red"
unfolding clean_line strip_ansi span
cleaned = refl

log_run-IsOrdered_example : IsOrdered (log_run no_json clean_line detect_level (connect false) came)
log_run-IsOrdered_example = log_run-IsOrdered no_json clean_line detect_level came false

abbrev held : LogStream
held = record {
  lines = [];
  status = live;
  pending =
      record { id = 1; t = txt "now"; stream = stdout; line = txt "late"; level = level_info } ∷ [];
  paused = true;
  seq = 1;
  timer = true;
  closed = false;
}
