-- ===== src/Session/Runs.antt =====
-- Any run of a connection.

use app_dockhand.Session.{opened, closed_event}
use app_dockhand.Base.{refl, false, ◌∷◌, ℕ, arith, if◌then◌else◌, txt}
use app_dockhand.Base.{Text, Option, Bool, List, ◌≡◌, [], ◌++◌}
use app_dockhand.Session.{
  Session, Phase, dispatch, SessionEvent, SessionEffect, session_run, fonts_ready, fonts, live,
  message, typed_data, resized, importing, imported, shut, after_close, ReadyState, on_message, end,
  begin, on_ready, Frame, connecting, session_step, connecting, on_dims, bytes, open_socket, text,
  closing, is_open, typed, closed, send, untyped, resize, cleanup, errored,
}
use app_dockhand.Session.Course.{
  states, Fits, flags, sends, append-IsSound, IsSound, opened-IsSound, on_message-IsSound,
  end-IsSound, at, shut_quiet,
}
use mathlib.Core.Bool.{true, false}

module _ (path : Text) (greet : Option Text) (active : Bool) where
  abbrev pub run_here : List SessionEvent → Session → Session
  run_here = session_run path greet active

  -- The course of the connection for some value of whether it was open.
  abbrev pub HasCourse : Session → Type 0
  HasCourse s = (o : Bool) × IsSound greet o s.phase s.exited s.log

  -- A connection that moves on in its phase, with the same facts.
  moved :
      (o : Bool) (p q : Phase) (e : Bool) (log : List SessionEffect)
      → IsSound greet o p e log
      → Fits q o e
      → IsSound greet o q e log
  moved o p q e log w k = record {
    reported = w.reported;
    flagged = w.flagged;
    greeted = w.greeted;
    fits = k;
  }

  -- A step to another phase that reports no state and no end and sends nothing.
  goes :
      (o : Bool) (p q : Phase) (d x : Bool) (log es : List SessionEffect)
      → IsSound greet o p x log
      → Fits q o x
      → states es ≡ []
      → flags es ≡ []
      → sends es ≡ []
      → HasCourse (at d q x (log ++ es))
  goes o p q d x log es w k a b c =
      (o, moved o p q x _ (append-IsSound greet o p x log es w a b (λ h. c)) k)

  Fits-after_close : (p : Phase) (o x : Bool) → Fits p o x → Fits (after_close p) o x
  Fits-after_close importing o x k = k
  Fits-after_close fonts o x k = k
  Fits-after_close (live connecting) o x k = tt
  Fits-after_close (live open_socket) o x k = tt
  Fits-after_close (live closing) o x k = tt
  Fits-after_close (live closed) o x k = tt

  cleans :
      (o : Bool) (p : Phase) (x : Bool) (log : List SessionEffect)
      → IsSound greet o p x log
      → HasCourse (at true (after_close p) x (log ++ (shut p ++ on_ready false ∷ [])))
  cleans o p x log w =
      let (a, b, c) = shut_quiet p in
      goes o p (after_close p) true x log _ w (Fits-after_close p o x w.fits) a b c

  resizes :
      (o : Bool) (r : ReadyState) (x : Bool) (log : List SessionEffect) (cols rows : ℕ)
      → IsSound greet o (live r) x log
      → HasCourse (
          at false (live r) x (
            log
            ++ on_dims cols rows ∷ (if is_open (live r) then send (resize cols rows) ∷ [] else [])))
  unfolding states flags sends
  resizes true open_socket x log cols rows w =
      (true, append-IsSound greet true _ x log _ w refl refl (λ h. cc))
  resizes false open_socket x log cols rows w = absurd (cc (w.fits))
  resizes o connecting x log cols rows w = goes o _ _ false x log _ w w.fits refl refl refl
  resizes o closing x log cols rows w = goes o _ _ false x log _ w w.fits refl refl refl
  resizes o closed x log cols rows w = goes o _ _ false x log _ w w.fits refl refl refl

  on_message-phase : (f : Frame) (s : Session) → (on_message f s).phase ≡ s.phase
  unfolding on_message end
  on_message-phase (bytes b) s = refl
  on_message-phase (text t untyped) s = refl
  on_message-phase (text t (typed type code error msg)) s = ground arith

  dispatch-HasCourse :
      (p : Phase) (e : SessionEvent) (d x : Bool) (log : List SessionEffect) (o : Bool)
      → IsSound greet o p x log
      → HasCourse (dispatch path greet active p e (at d p x log))
  unfolding dispatch states flags sends end
  dispatch-HasCourse importing imported true x log o w = (o, w)
  dispatch-HasCourse importing imported false x log o w =
      goes o importing fonts false x log _ w w.fits refl refl refl
  dispatch-HasCourse importing cleanup true x log o w = (o, w)
  dispatch-HasCourse importing cleanup false x log o w = cleans o importing x log w
  dispatch-HasCourse fonts (fonts_ready cols rows) true x log o w = (o, w)
  dispatch-HasCourse fonts (fonts_ready cols rows) false x log o w =
      goes o fonts (live connecting) false x log _ w w.fits refl refl refl
  dispatch-HasCourse fonts cleanup true x log o w = (o, w)
  dispatch-HasCourse fonts cleanup false x log o w = cleans o fonts x log w
  dispatch-HasCourse (live connecting) opened d x log true w = absurd (cc (w.fits.0))
  dispatch-HasCourse (live connecting) opened d x log false w =
      (true, opened-IsSound greet x log _ w (ground arith) (ground arith) (ground arith))
  dispatch-HasCourse (live open_socket) (message f) d x log false w = absurd (cc (w.fits))
  dispatch-HasCourse (live open_socket) (message f) d x log true w = (
    true,
    rw (on_message-phase f (at d (live open_socket) x log))
        (on_message-IsSound greet f (at d (live open_socket) x log) w),
  )
  dispatch-HasCourse (live closed) errored d x log o w = (o, w)
  dispatch-HasCourse (live r) errored d x log o w =
      goes o (live r) (live r) d x log _ w w.fits refl refl refl
  dispatch-HasCourse (live closed) closed_event d x log o w = (o, w)
  dispatch-HasCourse (live r) closed_event true x log o w =
      (o, moved o (live r) (live closed) x log w tt)
  dispatch-HasCourse (live r) closed_event false true log o w =
      (o, moved o (live r) (live closed) true log w tt)
  dispatch-HasCourse (live r) closed_event false false log o w = (
    o,
    end-IsSound greet o (live closed) (txt "[session ended]") (at false (live closed) false log) tt
        (moved o (live r) (live closed) false log w tt),
  )
  dispatch-HasCourse (live open_socket) (typed_data t) false x log true w =
      (true, append-IsSound greet true _ x log _ w refl refl (λ h. cc))
  dispatch-HasCourse (live open_socket) (typed_data t) false x log false w = absurd (cc (w.fits))
  dispatch-HasCourse (live r) (typed_data t) d x log o w = (o, w)
  dispatch-HasCourse (live r) (resized cols rows) true x log o w = (o, w)
  dispatch-HasCourse (live r) (resized cols rows) false x log o w = resizes o r x log cols rows w
  dispatch-HasCourse (live r) cleanup true x log o w = (o, w)
  dispatch-HasCourse (live r) cleanup false x log o w = cleans o (live r) x log w
  dispatch-HasCourse p e d x log o w = (o, w)

  run-HasCourse : (es : List SessionEvent) (s : Session) → HasCourse s → HasCourse (run_here es s)
  unfolding session_run
  run-HasCourse [] s h = h
  run-HasCourse (e ∷ es) s (o, w) =
      run-HasCourse es (session_step path greet active e s)
        (dispatch-HasCourse s.phase e s.disposed s.exited s.log o w)

  -- However the socket, the user and the cleanup interleave: a connection reports that it connects, then
  -- perhaps that it is open, then perhaps once that it has ended, in this order; it is marked as ended
  -- exactly if it has reported so; and nothing is sent before the greeting, if there is one, nor before
  -- the socket is open.
  pub session_run-IsSound :
      (es : List SessionEvent) → HasCourse (run_here es (begin path greet active))
  session_run-IsSound es = run-HasCourse es (begin path greet active) (
    false,
    record {
      reported = unfold states in refl;
      flagged = unfold flags in refl;
      greeted = unfold sends in refl;
      fits = (refl, refl);
    },
  )
