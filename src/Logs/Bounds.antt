-- ===== src/Logs/Bounds.antt =====
-- How much of a log is kept.
use app_dockhand.Base.{
  Bool, List, length, Bool-cases, ◌≤◌, if◌then◌else◌, ◌||◌, ltb, is_empty, inl, arith, inr,
  length-drop, length-append, ◌-◌, ◌++◌, Text, Option, ◌∷◌,
}
use app_dockhand.Logs.{
  LogLine, LogStream, flush, max_lines, slice_last, Message, LogLevel, log_step, LogEvent,
  receive_text, log_run, message, connect, set_paused, opened, binary, errored, ended_by_server,
  fired, clear, cleanup,
}
use mathlib.Core.Bool.{true, false}
use mathlib.Core.List.{[]}

pub record IsBounded (s : LogStream) : Type 0 where
  pub shown : length s.lines ≤ max_lines
  pub waiting : length s.pending ≤ max_lines

capped :
    (xs : List LogLine)
    → length (if ltb max_lines (length xs) then slice_last max_lines xs else xs) ≤ max_lines
capped xs = ground (arith, length-drop (length xs - max_lines) xs)

flush-IsBounded : (s : LogStream) → IsBounded s → IsBounded (flush s)
unfolding flush
flush-IsBounded s h = elim (Bool-cases (s.paused || is_empty s.pending)) [
  | inl y ↦ rw y (record { shown = h.shown; waiting = h.waiting })
  | inr off ↦ rw off (record {
    shown = rw⁻¹ (length-append s.lines s.pending) (capped (s.lines ++ s.pending));
    waiting = omega arith;
  })
]

if-IsBounded :
    (b : Bool) (s t : LogStream) → IsBounded s → IsBounded t → IsBounded (if b then s else t)
if-IsBounded true s t h k = h
if-IsBounded false s t h k = k

module _ (parse : Text → Option Message) (clean : Text → Text) (level_of : Text → LogLevel) where
  step-IsBounded :
      (e : LogEvent) (s : LogStream) → IsBounded s → IsBounded (log_step parse clean level_of e s)
  unfolding log_step receive_text
  step-IsBounded opened s h =
      if-IsBounded s.closed s _ h (record { shown = h.shown; waiting = h.waiting })
  step-IsBounded (message now raws) s h =
      if-IsBounded s.closed s _ h (record { shown = h.shown; waiting = capped (s.pending ++ _) })
  step-IsBounded binary s h = h
  step-IsBounded errored s h =
      if-IsBounded s.closed s _ h (record { shown = h.shown; waiting = h.waiting })
  step-IsBounded ended_by_server s h =
      let k = flush-IsBounded s h in
      if-IsBounded s.closed s _ h (record { shown = k.shown; waiting = k.waiting })
  step-IsBounded fired s h = if-IsBounded s.closed s _ h (flush-IsBounded s h)
  step-IsBounded (set_paused b) s h =
      if-IsBounded b _ _ (record { shown = h.shown; waiting = h.waiting })
        (flush-IsBounded _ (record { shown = h.shown; waiting = h.waiting }))
  step-IsBounded clear s h = record { shown = omega arith; waiting = h.waiting }
  step-IsBounded cleanup s h = record { shown = h.shown; waiting = h.waiting }

  run-IsBounded :
      (es : List LogEvent) (s : LogStream)
      → IsBounded s
      → IsBounded (log_run parse clean level_of s es)
  run-IsBounded [] s h = h
  run-IsBounded (e ∷ es) s h = run-IsBounded es _ (step-IsBounded e s h)

  -- However the server sends and the user pauses: at most 5000 lines are shown, and at most 5000 wait
  -- to be shown.
  pub log_run-IsBounded :
      (es : List LogEvent) (paused : Bool)
      → IsBounded (log_run parse clean level_of (connect paused) es)
  log_run-IsBounded es paused =
      run-IsBounded es (connect paused) (record { shown = omega arith; waiting = omega arith })
