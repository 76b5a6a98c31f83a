-- ===== src/Terminal/Status.antt =====
-- web/components/shell/TerminalWindow.tsx: what is known of the tabs' sessions.
use app_dockhand.Base.{
  refl, ℕ, Bool, Option, none, ◌&&◌, Text, ◌≡◌, some, true, List, arith, ◌==◌, if◌then◌else◌, ◌∷◌,
  false, text_eq, text_eq_iff,
}
use mathlib.Core.List.{[]}

pub data SessionState : Type 0 where
  connecting open' ended error paused : SessionState

pub record TabStatus : Type 0 where
  pub state : SessionState
  pub latency : Option ℕ
  pub cols : Option ℕ
  pub rows : Option ℕ
  pub lines : Option ℕ

-- `Partial<TabStatus>`: a field is `none` if the patch has no such key.
pub record Patch : Type 0 where
  pub state : Option SessionState
  pub latency : Option ℕ
  pub cols : Option ℕ
  pub rows : Option ℕ
  pub lines : Option ℕ

abbrev pub code_of : SessionState → ℕ
code_of connecting = 0
code_of open' = 1
code_of ended = 2
code_of error = 3
code_of paused = 4

abbrev pub fresh_status : TabStatus
fresh_status = record { state = connecting; latency = none; cols = none; rows = none; lines = none }

abbrev pub over {ℓ} : {A : Type ℓ} → Option A → A → A
over none a = a
over (some b) a = b

abbrev pub over_maybe {ℓ} : {A : Type ℓ} → Option A → Option A → Option A
over_maybe none a = a
over_maybe (some b) a = some b

-- `{ ...prev, ...p }`
unfoldable pub patched : TabStatus → Patch → TabStatus
patched prev p = record {
  state = over p.state prev.state;
  latency = over_maybe p.latency prev.latency;
  cols = over_maybe p.cols prev.cols;
  rows = over_maybe p.rows prev.rows;
  lines = over_maybe p.lines prev.lines;
}

abbrev pub same_number : Option ℕ → Option ℕ → Bool
same_number none none = true
same_number (some a) (some b) = a == b
same_number _ _ = false

-- A key that the patch does not have is not compared.
abbrev pub keeps_number : Option ℕ → Option ℕ → Bool
keeps_number none prev = true
keeps_number (some n) prev = same_number prev (some n)

abbrev pub keeps_state : Option SessionState → SessionState → Bool
keeps_state none prev = true
keeps_state (some s) prev = code_of prev == code_of s

-- No key of the patch changes the status.
unfoldable pub is_idle : TabStatus → Patch → Bool
is_idle prev p =
    keeps_state p.state prev.state
    && keeps_number p.latency prev.latency
    && keeps_number p.cols prev.cols
    && keeps_number p.rows prev.rows
    && keeps_number p.lines prev.lines

-- `m[key]`
unfoldable pub status_at : Text → List (Text × TabStatus) → Option TabStatus
status_at key [] = none
status_at key ((k, s) ∷ m) = if text_eq k key then some s else status_at key m

abbrev pub prev_of : Option TabStatus → TabStatus
prev_of none = fresh_status
prev_of (some s) = s

unfoldable pub patch_status : Text → Patch → List (Text × TabStatus) → List (Text × TabStatus)
patch_status key p m =
    let prev = prev_of (status_at key m) in if is_idle prev p then m else (key, patched prev p) ∷ m

code_of-injective : (a b : SessionState) → code_of a ≡ code_of b → a ≡ b
code_of-injective a b h = ground arith

is_idle-patched : (prev : TabStatus) (p : Patch) → is_idle prev p ≡ true → patched prev p ≡ prev
unfolding is_idle patched
is_idle-patched prev p h = ground arith

status_at-cons :
    (key i : Text) (s : TabStatus) (m : List (Text × TabStatus))
    → status_at i ((key, s) ∷ m) ≡ (if text_eq key i then some s else status_at i m)
unfolding status_at
status_at-cons key i s m = refl

-- A patch that changes nothing leaves the map as it is, which cannot be seen: a tab's status, fresh
-- if there is none yet, is always the old one with the patch's fields, and that of another tab is as
-- before.
prev_of-patch_status :
    (key j : Text) (p : Patch) (m : List (Text × TabStatus))
    → prev_of (status_at j (patch_status key p m))
      ≡ (if text_eq key j then patched (prev_of (status_at j m)) p else prev_of (status_at j m))
unfolding patch_status
prev_of-patch_status key j p m = ground (
  arith,
  is_idle-patched (prev_of (status_at key m)) p,
  text_eq_iff key j,
  status_at-cons key j (patched (prev_of (status_at key m)) p) m,
)
