-- ===== src/Shell/Terminals.antt =====
-- web/components/shell/AppShell.tsx and shell/TerminalWindow.tsx together: `termReqs`, `termSeq`, and
-- the window that is mounted while there are requests. The window takes new requests when it is
-- rendered, which is at once here; its counter for the keys outlives it.
use app_dockhand.Base.{
  none, some, refl, ℕ, Bool, List, Option, suc, ◌++◌, [], if◌then◌else◌, Text, ◌≡◌, false, ◌∷◌, All,
  Bool-cases, ap, All-append, ◌≤◌, is_empty, any, arith, inl, filter, ◌<◌, All-map, inr, not, ltb,
  max, ◌∙◌,
}
use app_dockhand.Terminal.Tabs.{
  Tabs, Request, TerminalTarget, add_tab, close_tab, focus_tab, open_requests, open_tabs, Tab,
  add_or_focus, is_key,
}
use app_dockhand.Terminal.Targets.{add_tab-Shown, Shown}

pub record Terminals : Type 0 where
  pub term_reqs : List Request
  pub term_seq : ℕ
  pub window : Option Tabs
  pub tab_seq : ℕ

abbrev pub window_of : Option Tabs → ℕ → Tabs
window_of none tab_seq = open_tabs tab_seq
window_of (some w) tab_seq = w

abbrev pub new_request : TerminalTarget → Terminals → Request
new_request target s = record { target = target; seq = suc s.term_seq }

-- `openTerminal`, and the window's effect.
unfoldable pub open_terminal : TerminalTarget → Terminals → Terminals
open_terminal target s =
    let requests = s.term_reqs ++ new_request target s ∷ [] in
    let w = open_requests requests (window_of s.window s.tab_seq) in
    record { term_reqs = requests; term_seq = suc s.term_seq; window = some w; tab_seq = w.tab_seq }

-- `onClose`
unfoldable pub close_window : Terminals → Terminals
close_window s = record s { term_reqs = []; window = none }

-- A window that has closed its last tab calls `onClose`.
abbrev pub after_tabs : Tabs → Terminals → Terminals
after_tabs w s =
    if w.closed
    then record s { term_reqs = []; window = none; tab_seq = w.tab_seq }
    else record s { window = some w; tab_seq = w.tab_seq }

abbrev pub in_window : (Tabs → Tabs) → Option Tabs → Terminals → Terminals
in_window f none s = s
in_window f (some w) s = after_tabs (f w) s

pub data TerminalEvent : Type 0 where
  open_target : TerminalTarget → TerminalEvent
  plus_tab : TerminalTarget → Bool → TerminalEvent
  close_key focus_key : Text → TerminalEvent
  close_all : TerminalEvent

unfoldable pub terminal_step : TerminalEvent → Terminals → Terminals
terminal_step (open_target t) s = open_terminal t s
terminal_step (plus_tab t b) s = in_window (add_tab t b) s.window s
terminal_step (close_key k) s = in_window (close_tab k) s.window s
terminal_step (focus_key k) s = in_window (focus_tab k) s.window s
terminal_step close_all s = close_window s

abbrev pub no_terminals : Terminals
no_terminals = record { term_reqs = []; term_seq = 0; window = none; tab_seq = 0 }

abbrev pub terminal_run : Terminals → List TerminalEvent → Terminals
terminal_run s [] = s
terminal_run s (e ∷ es) = terminal_run (terminal_step e s) es

-- The window has seen every request, and without one there is none.
abbrev pub IsSeen : Option Tabs → List Request → ℕ → Type 0
IsSeen none rs n = rs ≡ []
IsSeen (some w) rs n = (w.seen ≡ n) × All (λ (r : Request). r.seq ≤ n) rs

seen-add_tab : (t : TerminalTarget) (b : Bool) (w : Tabs) → (add_tab t b w).seen ≡ w.seen
unfolding add_tab
seen-add_tab t b w = seen-add_or_focus _
  where
    seen-add_or_focus : (o : Option Tab) → (add_or_focus t o w).seen ≡ w.seen
    seen-add_or_focus none = refl
    seen-add_or_focus (some u) = refl

seen-close_tab : (k : Text) (w : Tabs) → (close_tab k w).seen ≡ w.seen
unfolding close_tab
seen-close_tab k w = elim (Bool-cases (is_empty (filter (λ t. not (is_key k t)) w.tabs))) [
  | inl y ↦ rw y refl
  | inr off ↦ rw off refl
]

seen-focus_tab : (k : Text) (w : Tabs) → (focus_tab k w).seen ≡ w.seen
unfolding focus_tab
seen-focus_tab k w = elim (Bool-cases (any (is_key k) w.tabs)) [
  | inl y ↦ rw y refl
  | inr off ↦ rw off refl
]

-- Of the requests only the new one is fresh.
fresh-new :
    (rs : List Request) (r : Request) (seen n : ℕ)
    → All (λ (q : Request). q.seq ≤ seen) rs
    → seen < r.seq
    → filter (λ (q : Request). ltb seen q.seq) (rs ++ r ∷ []) ≡ r ∷ []
fresh-new [] r seen n h l = ground arith
fresh-new (q ∷ rs) r seen n (k, h) l = ground (arith, fresh-new rs r seen n h l)

open_requests-new :
    (rs : List Request) (r : Request) (w : Tabs)
    → All (λ (q : Request). q.seq ≤ w.seen) rs
    → w.seen < r.seq
    → open_requests (rs ++ r ∷ []) w ≡ add_tab r.target false (record w { seen = r.seq })
unfolding open_requests
open_requests-new rs r w h l =
    let e : max w.seen r.seq ≡ r.seq = omega arith in rw (fresh-new rs r w.seen 0 h l, e) refl

IsSeen-open :
    (t : TerminalTarget) (s : Terminals) (o : Option Tabs)
    → s.window ≡ o
    → IsSeen o s.term_reqs s.term_seq
    → open_requests (s.term_reqs ++ new_request t s ∷ []) (window_of o s.tab_seq)
      ≡ add_tab t false (record (window_of o s.tab_seq) { seen = suc s.term_seq })
IsSeen-open t s none e h =
    open_requests-new s.term_reqs (new_request t s) (open_tabs s.tab_seq) (rw h tt) (omega arith)
IsSeen-open t s (some w) e (k, h) =
    open_requests-new s.term_reqs (new_request t s) w (rw k h) (omega (arith, k))

-- An open terminal is one tab more or the focus on a tab, and is done once.
open_terminal-add_tab :
    (t : TerminalTarget) (s : Terminals)
    → IsSeen s.window s.term_reqs s.term_seq
    → (open_terminal t s).window
      ≡ some (add_tab t false (record (window_of s.window s.tab_seq) { seen = suc s.term_seq }))
unfolding open_terminal
open_terminal-add_tab t s h = ap some (IsSeen-open t s s.window refl h)

IsSeen-more :
    (o : Option Tabs) (rs : List Request) (n : ℕ)
    → IsSeen o rs n
    → All (λ (r : Request). r.seq ≤ suc n) rs
IsSeen-more none rs n h = rw h tt
IsSeen-more (some w) rs n (e, h) =
    All-map (λ (r : Request). r.seq ≤ n) _ (λ r k. omega (arith, k)) rs h

in_window-IsSeen :
    (f : Tabs → Tabs)
    → ((w : Tabs) → (f w).seen ≡ w.seen)
    → (o : Option Tabs) (s : Terminals) → s.window ≡ o
    → IsSeen o s.term_reqs s.term_seq
    → IsSeen (in_window f o s).window (in_window f o s).term_reqs (in_window f o s).term_seq
in_window-IsSeen f keep none s e h = rw e h
in_window-IsSeen f keep (some w) s e (k, h) = elim (Bool-cases (f w).closed) [
  | inl y ↦ rw y refl
  | inr off ↦ rw off (keep w ∙ k, h)
]

step-IsSeen :
    (e : TerminalEvent) (s : Terminals)
    → IsSeen s.window s.term_reqs s.term_seq
    → IsSeen (terminal_step e s).window (terminal_step e s).term_reqs (terminal_step e s).term_seq
unfolding terminal_step open_terminal close_window
step-IsSeen (open_target t) s h = rw (IsSeen-open t s s.window refl h) (
  seen-add_tab t false _,
  All-append (λ (r : Request). r.seq ≤ suc s.term_seq) s.term_reqs _
      (IsSeen-more s.window s.term_reqs s.term_seq h) (omega arith, tt),
)
step-IsSeen (plus_tab t b) s h = in_window-IsSeen _ (seen-add_tab t b) s.window s refl h
step-IsSeen (close_key k) s h = in_window-IsSeen _ (seen-close_tab k) s.window s refl h
step-IsSeen (focus_key k) s h = in_window-IsSeen _ (seen-focus_tab k) s.window s refl h
step-IsSeen close_all s h = refl

run-IsSeen :
    (s : Terminals) (es : List TerminalEvent)
    → IsSeen s.window s.term_reqs s.term_seq
    → IsSeen (terminal_run s es).window (terminal_run s es).term_reqs (terminal_run s es).term_seq
run-IsSeen s [] h = h
run-IsSeen s (e ∷ es) h = run-IsSeen (terminal_step e s) es (step-IsSeen e s h)

-- There is a window, and its active tab shows the target.
abbrev pub IsOpen : TerminalTarget → Option Tabs → Type 0
IsOpen t none = ⊥
IsOpen t (some w) = Shown t w.tabs w.active

-- Whatever was opened, chosen and closed before: the next openTerminal is one step of the tabs, that
-- asks for its target and for nothing else again, and there is then a window whose active tab shows
-- the target.
pub open_terminal-IsOpen :
    (es : List TerminalEvent) (t : TerminalTarget)
    → let s = terminal_run no_terminals es in
      ((open_terminal t s).window
        ≡ some (add_tab t false (record (window_of s.window s.tab_seq) { seen = suc s.term_seq })))
      × IsOpen t (open_terminal t s).window
open_terminal-IsOpen es t =
    let s = terminal_run no_terminals es in
    let e = open_terminal-add_tab t s (run-IsSeen no_terminals es refl) in
    (
      e,
      rw e
          (add_tab-Shown t false (record (window_of s.window s.tab_seq) { seen = suc s.term_seq })),
    )
