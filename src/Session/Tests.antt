-- ===== src/Session/Tests.antt =====
-- A connection to try the terminal on, and the theorems applied to it.
use app_dockhand.Base.{
  refl, Text, Option, List, txt, some, true, ◌∷◌, text_eq, includes, show, ◌≡◌, none, [],
}
use app_dockhand.Session.{
  Session, session_run, SessionEvent, dispatch, imported, begin, on_message, cleanup, fonts_ready,
  end, opened, typed_data, message, text, typed, hello, SessionState, input, open_state,
  closed_event, ended_state,
}
use app_dockhand.Session.Runs.{HasCourse, session_run-IsSound}
use app_dockhand.Session.Over.{IsOver, session_run-cleanup}
use app_dockhand.Session.Course.{sends, states}

abbrev exec_path : Text
exec_path = txt "/api/exec"

abbrev hello_text : Option Text
hello_text = some (txt "auth")

-- Opened, used, and ended by the server.
abbrev visit : List SessionEvent
visit =
    imported
    ∷ fonts_ready 80 24
    ∷ opened
    ∷ typed_data (txt "ls")
    ∷ message (text (txt "{}") (typed (txt "exit") (some 1) none none))
    ∷ closed_event
    ∷ []

abbrev used : Session
used = session_run exec_path hello_text true visit (begin exec_path hello_text true)

sent : sends used.log ≡ hello (txt "auth") ∷ input (txt "ls") ∷ []
unfolding session_run dispatch sends on_message end text_eq includes show
sent = refl

seen_states : states used.log ≡ SessionState.connecting ∷ open_state ∷ ended_state ∷ []
unfolding session_run dispatch states on_message end text_eq includes show
seen_states = refl

session_run-IsSound_example : HasCourse exec_path hello_text true used
session_run-IsSound_example = session_run-IsSound exec_path hello_text true visit

session_run-cleanup_example :
    IsOver exec_path hello_text true
      (begin exec_path hello_text true)
      (session_run exec_path hello_text true (cleanup ∷ visit) (begin exec_path hello_text true))
session_run-cleanup_example =
    session_run-cleanup exec_path hello_text true visit (begin exec_path hello_text true) refl
