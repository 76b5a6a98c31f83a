-- ===== src/Session/Course.antt =====
-- The course of a connection: what is reported of it, what is sent, and what its cleanup leaves.

-- What a log holds of three kinds of effects.
use app_dockhand.Base.{◌∷◌, refl, Bool-cases, inl, inr, text_eq}
use mathlib.Core.List.{append-nil}
use app_dockhand.Base.{
  List, Bool, Option, false, Text, ◌∷◌, ◌≡◌, ◌++◌, true, [], if◌then◌else◌, ap, some, ◌∙◌, txt,
}
use app_dockhand.Session.{
  Phase, SessionEffect, SessionState, live, Sent, connecting, end, on_message, on_state, set_ended,
  send, ended_state, Session, Frame, open_state, write, open_socket, open_socket, hello, line,
  closing, closed, bytes, greeting, text, typed, exit_text, untyped, shut, on_ready, importing,
  fonts,
}
use mathlib.Core.Option.{none}

unfoldable pub states : List SessionEffect → List SessionState
states [] = []
states (on_state x ∷ es) = x ∷ states es
states (e ∷ es) = states es

unfoldable pub flags : List SessionEffect → List Bool
flags [] = []
flags (set_ended b ∷ es) = b ∷ flags es
flags (e ∷ es) = flags es

unfoldable pub sends : List SessionEffect → List Sent
sends [] = []
sends (send m ∷ es) = m ∷ sends es
sends (e ∷ es) = sends es

pub states-append : (a b : List SessionEffect) → states (a ++ b) ≡ states a ++ states b
unfolding states
states-append [] b = refl
states-append (on_state x ∷ a) b = ap (λ r. x ∷ r) (states-append a b)
states-append (_ ∷ a) b = states-append a b

pub flags-append : (a b : List SessionEffect) → flags (a ++ b) ≡ flags a ++ flags b
unfolding flags
flags-append [] b = refl
flags-append (set_ended x ∷ a) b = ap (λ r. x ∷ r) (flags-append a b)
flags-append (_ ∷ a) b = flags-append a b

pub sends-append : (a b : List SessionEffect) → sends (a ++ b) ≡ sends a ++ sends b
unfolding sends
sends-append [] b = refl
sends-append (send x ∷ a) b = ap (λ r. x ∷ r) (sends-append a b)
sends-append (_ ∷ a) b = sends-append a b

-- What the cleanup reports and sends is nothing.
pub shut_quiet :
    (p : Phase)
    → let es = shut p ++ on_ready false ∷ [] in (states es ≡ []) × (flags es ≡ []) × (sends es ≡ [])
unfolding states flags sends
shut_quiet importing = (refl, refl, refl)
shut_quiet fonts = (refl, refl, refl)
shut_quiet (live r) = (refl, refl, refl)

-- A connection by its parts.
abbrev pub at : Bool → Phase → Bool → List SessionEffect → Session
at d p x log = record { disposed = d; phase = p; exited = x; log = log }

-- The states that are reported of a connection that was open or not, and has ended or not.
abbrev pub course : Bool → Bool → List SessionState
course o e =
    connecting ∷ ((if o then open_state ∷ [] else []) ++ (if e then ended_state ∷ [] else []))

abbrev pub flag_course : Bool → List Bool
flag_course e = false ∷ (if e then true ∷ [] else [])

-- Where the connection can stand.
abbrev pub Fits : Phase → Bool → Bool → Type 0
Fits (live open_socket) o e = o ≡ true
Fits (live closing) o e = Unit
Fits (live closed) o e = Unit
Fits _ o e = (o ≡ false) × (e ≡ false)

-- Nothing is sent before the socket is open, and the greeting, if there is one, is sent first.
abbrev pub IsGreeted : Option Text → Bool → List Sent → Type 0
IsGreeted greet false ms = ms ≡ []
IsGreeted none true ms = Unit
IsGreeted (some h) true ms = (rest : List Sent) × (ms ≡ hello h ∷ rest)

pub IsGreeted-append :
    (greet : Option Text) (o : Bool) (ms ns : List Sent)
    → IsGreeted greet o ms
    → (o ≡ false → ns ≡ [])
    → IsGreeted greet o (ms ++ ns)
IsGreeted-append none true ms ns h n = tt
IsGreeted-append (some x) true ms ns (rest, h) n = (rest ++ ns, rw h)
IsGreeted-append none false ms ns h n = rw (h, n refl)
IsGreeted-append (some x) false ms ns h n = rw (h, n refl)

course_end : (o : Bool) → course o false ++ ended_state ∷ [] ≡ course o true
course_end true = refl
course_end false = refl

course_open : (e : Bool) → e ≡ false → course false e ++ open_state ∷ [] ≡ course true e
course_open false h = refl
course_open true h = cc

-- What `onopen` reports and sends.
opening :
    (greet : Option Text) (es : List SessionEffect)
    → let all = greeting greet ++ on_state open_state ∷ es in
      (states all ≡ open_state ∷ states es)
      × (flags all ≡ flags es)
      × (sends es ≡ [] → IsGreeted greet true (sends all))
unfolding states flags sends
opening none es = (refl, refl, λ h. tt)
opening (some h) es = (refl, refl, λ n. ([], rw n))

module _ (greet : Option Text) where
  pub record IsSound (o : Bool) (p : Phase) (e : Bool) (log : List SessionEffect) : Type 0 where
    pub reported : states log ≡ course o e
    pub flagged : flags log ≡ flag_course e
    pub greeted : IsGreeted greet o (sends log)
    pub fits : Fits p o e

  -- Effects that report no state and no end, and send only while the connection is open.
  pub append-IsSound :
      (o : Bool) (p : Phase) (e : Bool) (log es : List SessionEffect)
      → IsSound o p e log
      → states es ≡ []
      → flags es ≡ []
      → (o ≡ false → sends es ≡ [])
      → IsSound o p e (log ++ es)
  append-IsSound o p e log es w s f n = record {
    reported = states-append log es ∙ rw (s, append-nil) w.reported;
    flagged = flags-append log es ∙ rw (f, append-nil) w.flagged;
    greeted =
        rw (sends-append log es) (IsGreeted-append greet o (sends log) (sends es) w.greeted n);
    fits = w.fits;
  }

  pub end-IsSound :
      (o : Bool) (p : Phase) (msg : Text) (s : Session)
      → Fits p o true
      → IsSound o p s.exited s.log
      → IsSound o p (end msg s).exited (end msg s).log
  unfolding end
  end-IsSound o p msg s k w = elim (Bool-cases s.exited) [
    | inl y ↦ simp y (simp y at w)
    | inr y ↦ simp y (ends (simp y at w.reported) (simp y at w.flagged))
  ]
    where
      ends :
          states s.log ≡ course o false
          → flags s.log ≡ flag_course false
          → IsSound o p true
              (s.log ++ write (line (txt "90") msg) ∷ set_ended true ∷ on_state ended_state ∷ [])
      ends r f = record {
        reported = states-append s.log _ ∙ rw r (unfold states in course_end o);
        flagged = flags-append s.log _ ∙ rw f (unfold flags in refl);
        greeted =
            rw
              (sends-append s.log
                (write (line (txt "90") msg) ∷ set_ended true ∷ on_state ended_state ∷ []))
              (IsGreeted-append greet o (sends s.log) _ w.greeted (λ h. unfold sends in refl));
        fits = k;
      }

  pub on_message-IsSound :
      (f : Frame) (s : Session)
      → IsSound true (live open_socket) s.exited s.log
      → IsSound true (live open_socket) (on_message f s).exited (on_message f s).log
  unfolding on_message
  on_message-IsSound (bytes b) s w =
      append-IsSound true _ _ s.log _ w (unfold states in refl) (unfold flags in refl) (λ h. cc)
  on_message-IsSound (text t untyped) s w =
      append-IsSound true _ _ s.log _ w (unfold states in refl) (unfold flags in refl) (λ h. cc)
  on_message-IsSound (text t (typed type code error msg)) s w =
      elim (Bool-cases (text_eq type (txt "exit"))) [
        | inl y ↦ rw y (end-IsSound true _ (exit_text code) s refl w)
        | inr y ↦ rw y (elim (Bool-cases (text_eq type (txt "error"))) [
          | inl z ↦ rw z (
              append-IsSound true _ _ s.log _ w (unfold states in refl) (unfold flags in refl)
                (λ h. cc))
          | inr z ↦ rw z (
              append-IsSound true _ _ s.log _ w (unfold states in refl) (unfold flags in refl)
                (λ h. cc))
        ])
      ]

  pub opened-IsSound :
      (e : Bool) (log es : List SessionEffect)
      → IsSound false (live connecting) e log
      → states es ≡ []
      → flags es ≡ []
      → sends es ≡ []
      → IsSound true (live open_socket) e (log ++ (greeting greet ++ on_state open_state ∷ es))
  opened-IsSound e log es w a b c =
      let (os, of, og) = opening greet es in
      record {
        reported = states-append log _ ∙ rw (w.reported, os, a) (course_open e w.fits.1);
        flagged = flags-append log _ ∙ rw (w.flagged, of, b, append-nil);
        greeted = rw (sends-append log _, w.greeted) (og c);
        fits = refl;
      }
