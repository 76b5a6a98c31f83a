-- ===== src/Compose/Validation.antt =====
-- `useComposeValidation`: the check of a compose file by the server, which is a parameter: what it answers
-- to a text, or the text of the error.
use app_dockhand.Base.{
  Text, Bool, if◌then◌else◌, ℕ, List, ◌&&◌, suc, not, false, ◌⊎◌, is_empty, ◌∷◌, inl, [], Option,
  text_eq, trim, inr, some, get_elem?, ◌==◌,
}
use app_dockhand.Types.Stacks.{ComposeValidation}
use mathlib.Core.Bool.{true}
use Prim.Native.Nat.{zero}
use mathlib.Core.Option.{none}

pub data ValidationState : Type 0 where
  idle checking : ValidationState
  done : ComposeValidation → ValidationState
  failed : Text → ValidationState

-- A run of the effect has a number, and is alive while it is the last one; a request that is under way has
-- the number and the text of its run.
pub record Validation : Type 0 where
  pub content : Text
  pub enabled : Bool
  pub state : ValidationState
  pub seq : ℕ
  pub timer : Bool
  pub in_flight : List (ℕ × Text)

-- `settle i` is the end of the i-th request under way.
pub data ValidationEvent : Type 0 where
  change : Text → Bool → ValidationEvent
  fire : ValidationEvent
  settle : ℕ → ValidationEvent

-- `enabled && content.trim()`
abbrev pub is_on : Text → Bool → Bool
is_on content enabled = enabled && not (is_empty (trim content))

-- `s.status === "done" ? s : { status: "checking" }`
abbrev pub rechecking : ValidationState → ValidationState
rechecking idle = checking
rechecking checking = checking
rechecking (done r) = done r
rechecking (failed e) = checking

-- The effect, with the cleanup of the run before it.
abbrev pub run_effect : Text → Bool → Validation → Validation
run_effect content enabled s = record {
  content = content;
  enabled = enabled;
  state = if is_on content enabled then rechecking s.state else idle;
  seq = suc s.seq;
  timer = is_on content enabled;
  in_flight = s.in_flight;
}

abbrev pub bool_eq : Bool → Bool → Bool
bool_eq true b = b
bool_eq false b = not b

abbrev pub send : Validation → Validation
send s =
    if s.timer then record s { timer = false; in_flight = (s.seq, s.content) ∷ s.in_flight } else s

abbrev pub state_of : ComposeValidation ⊎ Text → ValidationState
state_of (inl r) = done r
state_of (inr e) = failed e

abbrev pub drop_request : ℕ → List (ℕ × Text) → List (ℕ × Text)
drop_request i [] = []
drop_request zero (x ∷ xs) = xs
drop_request (suc i) (x ∷ xs) = x ∷ drop_request i xs

unfoldable pub is_valid : ValidationState → Bool
is_valid idle = false
is_valid checking = false
is_valid (done r) = r.ok
is_valid (failed e) = false

abbrev pub before_mount : Text → Bool → Validation
before_mount content enabled = record {
  content = content;
  enabled = enabled;
  state = idle;
  seq = 0;
  timer = false;
  in_flight = [];
}

-- At first the effect runs with what the hook is called with.
abbrev pub mounted : Text → Bool → Validation
mounted content enabled = run_effect content enabled (before_mount content enabled)

module _ (server : Text → ComposeValidation ⊎ Text) where
  -- `if (alive)`
  abbrev pub receive_answer : Option (ℕ × Text) → Validation → Validation
  receive_answer none s = s
  receive_answer (some (n, content)) s =
      if n == s.seq then record s { state = state_of (server content) } else s

  unfoldable pub validation_step : ValidationEvent → Validation → Validation
  validation_step (change content enabled) s =
      if text_eq content s.content && bool_eq enabled s.enabled
      then s
      else run_effect content enabled s
  validation_step fire s = send s
  validation_step (settle i) s = record (receive_answer (get_elem? s.in_flight i) s) {
    in_flight = drop_request i s.in_flight;
  }

  abbrev pub validation_run : List ValidationEvent → Validation → Validation
  validation_run [] s = s
  validation_run (e ∷ es) s = validation_run es (validation_step e s)
