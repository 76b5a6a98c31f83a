-- ===== src/Session/Over.antt =====
-- What comes after the cleanup of a connection.
use app_dockhand.Session.{imported, errored, closed_event, cleanup, importing, fonts, opened}
use mathlib.Core.List.{append-nil}
use app_dockhand.Session.{
  opened, Session, dispatch, session_run, Phase, SessionEvent, is_open, SessionEffect, after_close,
  fonts_ready, session_step, cleanup, live, shut, connecting, message, on_ready, importing, fonts,
  open_socket, closing, closing, typed_data, closed, closed, resized,
}
use app_dockhand.Base.{
  refl, Text, Option, Bool, List, ◌≡◌, true, ◌∷◌, false, ◌≢◌, ◌++◌, [], ◌∙◌, arith,
}
use app_dockhand.Session.Course.{
  at, states, states-append, sends, shut_quiet, flags, sends-append, flags-append,
}

module _ (path : Text) (greet : Option Text) (active : Bool) where
  abbrev pub run_here : List SessionEvent → Session → Session
  run_here = session_run path greet active

  -- A connection that has been cleaned up, with what it had reported, sent and marked until then.
  pub record IsOver (s t : Session) : Type 0 where
    pub disposed : t.disposed ≡ true
    pub shut : (is_open t.phase ≡ false) × (t.phase ≢ live connecting)
    pub same_states : states t.log ≡ states s.log
    pub same_sends : sends t.log ≡ sends s.log
    pub same_flags : flags t.log ≡ flags s.log

  dispatch-IsOver :
      (s : Session) (p : Phase) (e : SessionEvent) (x : Bool) (log : List SessionEffect)
      → IsOver s (at true p x log)
      → IsOver s (dispatch path greet active p e (at true p x log))
  unfolding dispatch
  dispatch-IsOver s importing imported x log w = w
  dispatch-IsOver s fonts (fonts_ready c r) x log w = w
  dispatch-IsOver s (live connecting) opened x log w = absurd (w.shut.1 refl)
  dispatch-IsOver s (live open_socket) (message f) x log w = absurd (cc (w.shut.0))
  dispatch-IsOver s (live closed) errored x log w = w
  dispatch-IsOver s (live r) errored x log w = record {
    disposed = refl;
    shut = w.shut;
    same_states = states-append log _ ∙ rw w.same_states (unfold states in append-nil _);
    same_sends = sends-append log _ ∙ rw w.same_sends (unfold sends in append-nil _);
    same_flags = flags-append log _ ∙ rw w.same_flags (unfold flags in append-nil _);
  }
  dispatch-IsOver s (live closed) closed_event x log w = w
  dispatch-IsOver s (live r) closed_event x log w = record {
    disposed = refl;
    shut = (refl, λ e. cc);
    same_states = w.same_states;
    same_sends = w.same_sends;
    same_flags = w.same_flags;
  }
  dispatch-IsOver s (live r) (typed_data t) x log w = ground arith
  dispatch-IsOver s (live r) (resized c q) x log w = w
  dispatch-IsOver s p cleanup x log w = w
  dispatch-IsOver s p e x log w = w

  step-IsOver :
      (s : Session) (e : SessionEvent) (d : Bool) (p : Phase) (x : Bool) (log : List SessionEffect)
      → d ≡ true
      → IsOver s (at d p x log)
      → IsOver s (dispatch path greet active p e (at d p x log))
  step-IsOver s e true p x log h w = dispatch-IsOver s p e x log w
  step-IsOver s e false p x log h w = cc

  run-IsOver : (es : List SessionEvent) (s t : Session) → IsOver s t → IsOver s (run_here es t)
  unfolding session_run
  run-IsOver [] s t w = w
  run-IsOver (e ∷ es) s t w =
      run-IsOver es s (session_step path greet active e t)
        (step-IsOver s e t.disposed t.phase t.exited t.log w.disposed w)

  not_open : (p : Phase) → (is_open (after_close p) ≡ false) × (after_close p ≢ live connecting)
  not_open importing = (refl, λ e. cc)
  not_open fonts = (refl, λ e. cc)
  not_open (live connecting) = (refl, λ e. cc)
  not_open (live open_socket) = (refl, λ e. cc)
  not_open (live closing) = (refl, λ e. cc)
  not_open (live closed) = (refl, λ e. cc)

  shut-IsOver :
      (p : Phase) (x : Bool) (log : List SessionEffect)
      → IsOver
          (at false p x log)
          (at true (after_close p) x (log ++ (shut p ++ on_ready false ∷ [])))
  shut-IsOver p x log =
      let (a, b, c) = shut_quiet p in
      record {
        disposed = refl;
        shut = not_open p;
        same_states = states-append log _ ∙ rw (a, append-nil);
        same_sends = sends-append log _ ∙ rw (c, append-nil);
        same_flags = flags-append log _ ∙ rw (b, append-nil);
      }

  cleanup-IsOver :
      (d : Bool) (p : Phase) (x : Bool) (log : List SessionEffect)
      → d ≡ false
      → IsOver (at d p x log) (dispatch path greet active p cleanup (at d p x log))
  unfolding dispatch
  cleanup-IsOver true p x log h = cc
  cleanup-IsOver false importing x log h = shut-IsOver importing x log
  cleanup-IsOver false fonts x log h = shut-IsOver fonts x log
  cleanup-IsOver false (live connecting) x log h = shut-IsOver (live connecting) x log
  cleanup-IsOver false (live open_socket) x log h = shut-IsOver (live open_socket) x log
  cleanup-IsOver false (live closing) x log h = shut-IsOver (live closing) x log
  cleanup-IsOver false (live closed) x log h = shut-IsOver (live closed) x log

  -- Whatever still comes after the cleanup: no state is reported, no end is marked, nothing is sent.
  pub session_run-cleanup :
      (es : List SessionEvent) (s : Session)
      → s.disposed ≡ false
      → IsOver s (run_here (cleanup ∷ es) s)
  unfolding session_run
  session_run-cleanup es s h =
      run-IsOver es s (session_step path greet active cleanup s)
        (cleanup-IsOver s.disposed s.phase s.exited s.log h)
