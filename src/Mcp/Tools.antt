-- ===== src/Mcp/Tools.antt =====
-- What a preset leaves the tools.
use app_dockhand.Settings.Merge.{field-assign}
use app_dockhand.Base.{
  refl, List, Text, Bool, map, ◌≡◌, All, false, ◌∷◌, some, text_eq, ◌||◌, arith, ◌∙◌, not,
  text_eq_refl, All-map,
}
use app_dockhand.Base.Sets.{has, IsDistinct}
use app_dockhand.Mcp.{
  fill, preset, McpTool, tool_state, ToolPermit, ToolState, field, assign, confirm_or, permit_or,
}
use mathlib.Core.List.{[], []}

abbrev pub names : List McpTool → List Text
names tools = map (λ (t : McpTool). t.name) tools

field-fill_other :
    (f : McpTool → ToolPermit) (k : Text) (ts : List McpTool) (out : ToolState)
    → has k (names ts) ≡ false
    → field k (fill f ts out) ≡ field k out
unfolding fill has
field-fill_other f k [] out h = refl
field-fill_other f k (t ∷ ts) out h =
    let off : text_eq t.name k ≡ false = ground arith in
    field-fill_other f k ts (assign t.name (f t) out) (ground arith)
    ∙ field-assign t.name (f t) k out
    ∙ rw off

-- Each tool has what the loop gives it, if no two have the same name.
pub field-fill :
    (f : McpTool → ToolPermit) (ts : List McpTool) (out : ToolState)
    → IsDistinct (names ts)
    → All (λ (t : McpTool). field t.name (fill f ts out) ≡ some (f t)) ts
unfolding fill
field-fill f [] out h = tt
field-fill f (t ∷ ts) out (n, h) = (
  field-fill_other f t.name ts (assign t.name (f t) out) n
      ∙ field-assign t.name (f t) t.name out
      ∙ rw (text_eq_refl t.name),
  field-fill f ts (assign t.name (f t) out) h,
)

All-zip :
    {A : Type 0} (P Q : A → Type 0) (xs : List A) → All P xs → All Q xs → All (λ x. P x × Q x) xs
All-zip P Q [] h k = tt
All-zip P Q (x ∷ xs) (p, h) (q, k) = ((p, q), All-zip P Q xs h k)

-- The permission that a preset gives a tool.
abbrev given : Bool → ToolState → McpTool → ToolPermit
given full state t = record {
  enabled = full || not t.writes;
  confirm = confirm_or (field t.name state) t;
}

-- What a tool has before and after a preset.
abbrev pub IsPreset : Bool → ToolState → ToolState → McpTool → Type 0
IsPreset full before after t =
    (p : ToolPermit) × (q : ToolPermit) × (field t.name before ≡ some p)
    × (field t.name after ≡ some q)
    × (q.enabled ≡ (full || not t.writes))
    × (q.confirm ≡ p.confirm)

-- After a preset each tool that only reads is enabled, one that writes only with full control, and whether
-- a tool asks for confirmation is as before, if no two tools have the same name.
pub preset-IsPreset :
    (full : Bool) (tools : List McpTool) (saved : ToolState)
    → IsDistinct (names tools)
    → let state = tool_state tools saved in
      All (IsPreset full state (preset full tools state)) tools
unfolding preset tool_state
preset-IsPreset full tools saved h =
    let state = tool_state tools saved in
    let old = λ (t : McpTool). permit_or (field t.name saved) t in
    All-map
      (λ (t : McpTool).
        (field t.name state ≡ some (old t))
        × (field t.name (preset full tools state) ≡ some (given full state t)))
      (IsPreset full state (preset full tools state))
      (λ t (a, b). (old t, given full state t, a, b, refl, rw a refl)) tools
      (All-zip _ _ tools (field-fill old tools [] h) (field-fill (given full state) tools [] h))
