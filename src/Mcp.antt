-- ===== src/Mcp.antt =====
-- web/components/settings/McpTab.tsx: the permissions of the tools and the field of the port. The state of
-- the tools is an object by their names; what it saves goes through the hook of Settings.
mod Tests
pub mod Tools
pub mod Port
use Prim.Native.Nat.{ℕ}
use app_dockhand.Base.{
  Bool, List, Option, Text, true, ◌∷◌, some, ◌||◌, false, length, txt, if◌then◌else◌, trim, not,
  ◌&&◌, filter, is_empty, number, all, is_digit, ◌==◌, leb, show,
}
use app_dockhand.Types.Alerts.{McpTool}
use app_dockhand.Settings.{assign, field}
use mathlib.Core.Option.{none, none, none, none}
use mathlib.Core.List.{[]}

pub record ToolPermit : Type 0 where
  pub enabled : Bool
  pub confirm : Bool

abbrev pub ToolState : Type 0
ToolState = List (Text × ToolPermit)

-- `saved ?? { enabled: true, confirm: t.writes }`
abbrev pub permit_or : Option ToolPermit → McpTool → ToolPermit
permit_or none t = record { enabled = true; confirm = t.writes }
permit_or (some p) t = p

-- The loop that fills an object by the names of the tools.
unfoldable pub fill : (McpTool → ToolPermit) → List McpTool → ToolState → ToolState
fill f [] out = out
fill f (t ∷ ts) out = fill f ts (assign t.name (f t) out)

unfoldable pub tool_state : List McpTool → ToolState → ToolState
unfolding fill
tool_state tools saved = fill (λ t. permit_or (field t.name saved) t) tools []

-- `state[t.name]?.confirm ?? t.writes`
abbrev pub confirm_or : Option ToolPermit → McpTool → Bool
confirm_or none t = t.writes
confirm_or (some p) t = p.confirm

-- `preset`: what it saves.
unfoldable pub preset : Bool → List McpTool → ToolState → ToolState
unfolding fill
preset full tools state =
    fill
      (λ t. record { enabled = full || not t.writes; confirm = confirm_or (field t.name state) t })
      tools []

-- `setTool` with an `enabled` or a `confirm`: what it saves. The tools that are shown have a state.
pub data ToolPatch : Type 0 where
  enable confirming : Bool → ToolPatch

abbrev pub patch_permit : ToolPatch → ToolPermit → ToolPermit
patch_permit (enable b) p = record p { enabled = b }
patch_permit (confirming b) p = record p { confirm = b }

unfoldable pub set_tool : Text → ToolPatch → ToolState → ToolState
set_tool name p state = elim (field name state) [
  | none ↦ state
  | some old ↦ assign name (patch_permit p old) state
]

-- `enabled` and `confirming`, the numbers in the head.
abbrev pub is_enabled : Option ToolPermit → Bool
is_enabled none = false
is_enabled (some p) = p.enabled

abbrev pub is_confirmed : Option ToolPermit → Bool
is_confirmed none = false
is_confirmed (some p) = p.enabled && p.confirm

unfoldable pub enabled_count : List McpTool → ToolState → ℕ
enabled_count tools state = length (filter (λ (t : McpTool). is_enabled (field t.name state)) tools)

unfoldable pub confirming_count : List McpTool → ToolState → ℕ
confirming_count tools state =
    length (filter (λ (t : McpTool). t.writes && is_confirmed (field t.name state)) tools)

-- `PortField`: a text that is being edited, and an error.
pub record PortField : Type 0 where
  pub draft : Option Text
  pub err : Text

-- `finished` is the end of the save, by whatever it ends.
pub data PortEvent : Type 0 where
  typed : Text → PortEvent
  blurred escaped finished : PortEvent

abbrev pub port_error : Text
port_error = txt "Use a port between 1024 and 65535, or leave it empty."

-- `t ? parseInt(t, 10) : 0` for a text of digits.
abbrev pub port_of : Text → ℕ
port_of t = if is_empty t then 0 else number t

-- `commit` with a draft, up to its `await`: the field, and the port that it saves, if any. The draft goes
-- when the save has ended, at once if there is none.
unfoldable pub commit : ℕ → Text → PortField → PortField × Option ℕ
commit port draft f =
    let t = trim draft in
    let n = port_of t in
    if not (is_empty t) && not (all is_digit t && leb 1024 n && leb n 65535)
    then (record f { err = port_error }, none)
    else if n == port
    then (record { draft = none; err = [] }, none)
    else (record f { err = [] }, some n)

abbrev pub commit_draft : ℕ → Option Text → PortField → PortField × Option ℕ
commit_draft port none f = (f, none)
commit_draft port (some d) f = commit port d f

unfoldable pub port_step : ℕ → PortEvent → PortField → PortField × Option ℕ
port_step port (typed s) f = (record { draft = some (filter is_digit s); err = [] }, none)
port_step port blurred f = commit_draft port f.draft f
port_step port escaped f = (record { draft = none; err = [] }, none)
port_step port finished f = (record f { draft = none }, none)

-- What the field shows.
unfoldable pub port_value : ℕ → PortField → Text
port_value port f = elim f.draft [ none ↦ if port == 0 then [] else show port | some d ↦ d ]
