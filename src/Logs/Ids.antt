-- ===== src/Logs/Ids.antt =====
-- The order in which the lines of a log are shown.
use app_dockhand.Base.{
  refl, ℕ, Bool, suc, List, Text, ◌≤◌, drop, Bool-cases, ◌≡◌, Option, ◌++◌, if◌then◌else◌, ◌∷◌,
  arith, ltb, ◌||◌, ◌<◌, is_empty, length, inl, inr, trim, length-append, ◌≢◌, ◌-◌,
}
use app_dockhand.Logs.{
  LogLine, LogStream, flush, Message, max_lines, LogLevel, received, log_step, LogEvent, slice_last,
  receive_text, log_run, message, connect, set_paused, clear, opened, opened, binary, binary,
  errored, errored, ended_by_server, ended_by_server, fired, fired, cleanup, cleanup,
}
use mathlib.Core.Bool.{true, false}
use mathlib.Core.List.{[], [], []}
use Prim.Native.Nat.{zero}

-- The ids rise along the list, are above m and are at most n.
abbrev pub IsRising : ℕ → ℕ → List LogLine → Type 0
IsRising m n [] = m ≤ n
IsRising m n (l ∷ ls) = (m < l.id) × IsRising l.id n ls

rising-le : (m n : ℕ) (ls : List LogLine) → IsRising m n ls → m ≤ n
rising-le m n [] h = h
rising-le m n (l ∷ ls) (a, h) = omega (arith, rising-le l.id n ls h)

IsRising-weaken : (k m n : ℕ) (ls : List LogLine) → k ≤ m → IsRising m n ls → IsRising k n ls
IsRising-weaken k m n [] h r = omega arith
IsRising-weaken k m n (l ∷ ls) h (a, r) = (omega arith, r)

IsRising-append :
    (m k n : ℕ) (xs ys : List LogLine) → IsRising m k xs → IsRising k n ys → IsRising m n (xs ++ ys)
IsRising-append m k n [] ys h r = IsRising-weaken m k n ys h r
IsRising-append m k n (l ∷ xs) ys (a, h) r = (a, IsRising-append l.id k n xs ys h r)

IsRising-drop : (i m n : ℕ) (ls : List LogLine) → IsRising m n ls → IsRising m n (drop i ls)
IsRising-drop zero m n ls h = h
IsRising-drop (suc i) m n [] h = h
IsRising-drop (suc i) m n (l ∷ ls) (a, h) =
    IsRising-drop i m n ls (IsRising-weaken m l.id n ls (omega arith) h)

-- The last shown line and the first waiting one are apart: the shown ids are at most k, the waiting
-- ones are above k.
pub record IsOrdered (s : LogStream) : Type 0 where
  pub k : ℕ
  pub shown : IsRising 0 k s.lines
  pub waiting : IsRising k s.seq s.pending

capped-IsRising :
    (m n : ℕ) (ls : List LogLine)
    → IsRising m n ls
    → IsRising m n (if ltb max_lines (length ls) then slice_last max_lines ls else ls)
capped-IsRising m n ls h = ground (arith, IsRising-drop (length ls - max_lines) m n ls h)

flush-IsOrdered : (s : LogStream) → IsOrdered s → IsOrdered (flush s)
unfolding flush
flush-IsOrdered s h = elim (Bool-cases (s.paused || is_empty s.pending)) [
  | inl y ↦ rw y (record { k = h.k; shown = h.shown; waiting = h.waiting })
  | inr off ↦ rw off (record {
    k = s.seq;
    shown = rw⁻¹ (length-append s.lines s.pending) (
        capped-IsRising 0 s.seq (s.lines ++ s.pending)
          (IsRising-append 0 h.k s.seq s.lines s.pending h.shown h.waiting));
    waiting = omega arith;
  })
]

if-IsOrdered :
    (b : Bool) (s t : LogStream) → IsOrdered s → IsOrdered t → IsOrdered (if b then s else t)
if-IsOrdered true s t h k = h
if-IsOrdered false s t h k = k

-- A state with the same lines and ids.
IsOrdered-same :
    (s t : LogStream)
    → IsOrdered s
    → t.lines ≡ s.lines
    → t.pending ≡ s.pending
    → t.seq ≡ s.seq
    → IsOrdered t
IsOrdered-same s t h a b c = record { k = h.k; shown = rw a h.shown; waiting = rw (b, c) h.waiting }

module _ (parse : Text → Option Message) (clean : Text → Text) (level_of : Text → LogLevel) where
  received-IsRising :
      (now : Text) (seq : ℕ) (raws : List Text)
      → IsRising seq
          (received parse clean level_of now seq raws).1
          (received parse clean level_of now seq raws).0
  unfolding received
  received-IsRising now seq [] = omega arith
  received-IsRising now seq (raw ∷ raws) = elim (Bool-cases (is_empty (trim raw))) [
    | inl y ↦ rw y (received-IsRising now seq raws)
    | inr off ↦ rw off (omega arith, received-IsRising now (suc seq) raws)
  ]

  step-IsOrdered :
      (e : LogEvent) (s : LogStream) → IsOrdered s → IsOrdered (log_step parse clean level_of e s)
  unfolding log_step receive_text
  step-IsOrdered opened s h = if-IsOrdered s.closed s _ h (IsOrdered-same s _ h refl refl refl)
  step-IsOrdered (message now raws) s h = if-IsOrdered s.closed s _ h (record {
    k = h.k;
    shown = h.shown;
    waiting =
        capped-IsRising h.k _ (s.pending ++ _)
          (IsRising-append h.k s.seq _ s.pending _ h.waiting (received-IsRising now s.seq raws));
  })
  step-IsOrdered binary s h = h
  step-IsOrdered errored s h = if-IsOrdered s.closed s _ h (IsOrdered-same s _ h refl refl refl)
  step-IsOrdered ended_by_server s h =
      if-IsOrdered s.closed s _ h (IsOrdered-same (flush s) _ (flush-IsOrdered s h) refl refl refl)
  step-IsOrdered fired s h = if-IsOrdered s.closed s _ h (flush-IsOrdered s h)
  step-IsOrdered (set_paused b) s h =
      if-IsOrdered b _ _ (IsOrdered-same s _ h refl refl refl)
        (flush-IsOrdered _ (IsOrdered-same s _ h refl refl refl))
  step-IsOrdered clear s h = record { k = h.k; shown = omega arith; waiting = h.waiting }
  step-IsOrdered cleanup s h = IsOrdered-same s _ h refl refl refl

  run-IsOrdered :
      (es : List LogEvent) (s : LogStream)
      → IsOrdered s
      → IsOrdered (log_run parse clean level_of s es)
  run-IsOrdered [] s h = h
  run-IsOrdered (e ∷ es) s h = run-IsOrdered es _ (step-IsOrdered e s h)

  -- However the server sends and the user pauses and clears: the ids of the shown lines rise, those
  -- of the waiting lines rise too and are above them, and none is above the number of lines received.
  pub log_run-IsOrdered :
      (es : List LogEvent) (paused : Bool)
      → IsOrdered (log_run parse clean level_of (connect paused) es)
  log_run-IsOrdered es paused =
      run-IsOrdered es (connect paused)
        (record { k = 0; shown = omega arith; waiting = omega arith })

  -- While the stream is paused no event but to clear or to resume changes the shown lines.
  lines-log_step_paused :
      (e : LogEvent) (s : LogStream)
      → s.paused ≡ true
      → e ≢ clear
      → e ≢ set_paused false
      → (log_step parse clean level_of e s).lines ≡ s.lines
  unfolding log_step receive_text flush
  lines-log_step_paused opened s h c r = ground arith
  lines-log_step_paused (message now raws) s h c r = ground arith
  lines-log_step_paused binary s h c r = refl
  lines-log_step_paused errored s h c r = ground arith
  lines-log_step_paused ended_by_server s h c r = ground arith
  lines-log_step_paused fired s h c r = ground arith
  lines-log_step_paused (set_paused true) s h c r = refl
  lines-log_step_paused (set_paused false) s h c r = absurd (r refl)
  lines-log_step_paused clear s h c r = absurd (c refl)
  lines-log_step_paused cleanup s h c r = refl
