-- ===== src/Terminal/Tabs.antt =====
-- web/components/shell/TerminalWindow.tsx and shell/context.tsx: the tabs of the terminal window.
-- `tabsRef.current` is what the next render's `tabs` will be, so one list stands for both. Of the
-- handles to a session's output the keys are kept. `tabSeq` is a variable of the page, which outlives
-- the window; a window starts with whatever it has reached.
use app_dockhand.Base.{
  ℕ, Bool, Text, text_eq, List, Option, if◌then◌else◌, [], ◌&&◌, ◌∷◌, some, none, filter, get_elem?,
  false, any, show, suc, find, max, ltb, not, ◌++◌, is_empty, min, length, ◌-◌, true,
}
use app_dockhand.Ssh.{CustomSshConn}

pub data TerminalTarget : Type 0 where
  shell : Text → TerminalTarget
  exec : Text → Text → Option Text → TerminalTarget
  logs : Text → Text → Option Text → TerminalTarget
  ssh : Text → CustomSshConn → TerminalTarget

pub record Tab : Type 0 where
  pub key : Text
  pub target : TerminalTarget

unfoldable pub same_target : TerminalTarget → TerminalTarget → Bool
same_target (ssh i c) (ssh j d) = text_eq i j
same_target (shell h) (shell k) = text_eq h k
same_target (exec h c n) (exec k d m) = text_eq h k && text_eq c d
same_target (logs h c n) (logs k d m) = text_eq h k && text_eq c d
same_target _ _ = false

pub record Request : Type 0 where
  pub target : TerminalTarget
  pub seq : ℕ

pub record Tabs : Type 0 where
  pub tabs : List Tab
  pub active : Option Text
  pub terms : List Text
  pub log_text : List Text
  pub seen : ℕ
  pub tab_seq : ℕ
  pub closed : Bool

-- `t${n}`
unfoldable pub key_of : ℕ → Text
key_of n = b't' ∷ show n

abbrev pub is_key : Text → Tab → Bool
is_key key t = text_eq t.key key

abbrev pub add_or_focus : TerminalTarget → Option Tab → Tabs → Tabs
add_or_focus target (some t) s = record s { active = some t.key }
add_or_focus target none s =
    let key = key_of (suc s.tab_seq) in
    record s {
      tabs = s.tabs ++ record { key = key; target = target } ∷ [];
      active = some key;
      tab_seq = suc s.tab_seq;
    }

unfoldable pub add_tab : TerminalTarget → Bool → Tabs → Tabs
add_tab target force_new s =
    add_or_focus target
      (if force_new then none else find (λ (t : Tab). same_target t.target target) s.tabs) s

abbrev pub add_all : List Request → Tabs → Tabs
add_all [] s = s
add_all (r ∷ rs) s = add_all rs (add_tab r.target false s)

-- `Math.max(...rs.map(r => r.seq))` where a request there is not below `n`
abbrev pub max_seq : ℕ → List Request → ℕ
max_seq n [] = n
max_seq n (r ∷ rs) = max_seq (max n r.seq) rs

-- The effect that opens the new requests.
unfoldable pub open_requests : List Request → Tabs → Tabs
open_requests requests s =
    let fresh = filter (λ (r : Request). ltb s.seen r.seq) requests in
    if is_empty fresh then s else add_all fresh (record s { seen = max_seq s.seen fresh })

-- `findIndex`, with the length where the source has -1, which does not happen there.
abbrev pub find_index : (Tab → Bool) → List Tab → ℕ
find_index p [] = 0
find_index p (t ∷ ts) = if p t then 0 else suc (find_index p ts)

abbrev pub key_at : List Tab → ℕ → Option Text
key_at ts i = elim (get_elem? ts i) [ none ↦ none | some t ↦ some t.key ]

abbrev pub is_active : Text → Option Text → Bool
is_active key none = false
is_active key (some k) = text_eq k key

unfoldable pub close_tab : Text → Tabs → Tabs
close_tab key s =
    let next = filter (λ t. not (is_key key t)) s.tabs in
    let terms = filter (λ k. not (text_eq k key)) s.terms in
    let log_text = filter (λ k. not (text_eq k key)) s.log_text in
    let i = min (find_index (is_key key) s.tabs) (length next - 1) in
    if is_empty next
    then record s { terms = terms; log_text = log_text; closed = true }
    else record s {
      terms = terms;
      log_text = log_text;
      tabs = next;
      active = if is_active key s.active then key_at next i else s.active;
    }

-- A click on a tab.
unfoldable pub focus_tab : Text → Tabs → Tabs
focus_tab key s = if any (is_key key) s.tabs then record s { active = some key } else s

pub data TabEvent : Type 0 where
  request : List Request → TabEvent
  plus : TerminalTarget → Bool → TabEvent
  close : Text → TabEvent
  focus : Text → TabEvent

-- The window takes no event after it has been closed. The events but `close` also restore a window
-- that is minimized, which is the event `restore` of its frame.
unfoldable pub tab_step : TabEvent → Tabs → Tabs
tab_step e s = if s.closed then s else elim e [
  | request rs ↦ open_requests rs s
  | plus target force_new ↦ add_tab target force_new s
  | close key ↦ close_tab key s
  | focus key ↦ focus_tab key s
]

abbrev pub open_tabs : ℕ → Tabs
open_tabs tab_seq = record {
  tabs = [];
  active = none;
  terms = [];
  log_text = [];
  seen = 0;
  tab_seq = tab_seq;
  closed = false;
}

abbrev pub tab_run : Tabs → List TabEvent → Tabs
tab_run s [] = s
tab_run s (e ∷ es) = tab_run (tab_step e s) es
