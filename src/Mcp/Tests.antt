-- ===== src/Mcp/Tests.antt =====
-- Tools and a port to try the tab of MCP on, and the theorems applied to them.
use app_dockhand.Base.Sets.{has}
use app_dockhand.Types.Alerts.{McpTool, McpToolGroup}
use app_dockhand.Settings.{assign, field}
use app_dockhand.Base.{refl}
use app_dockhand.Mcp.Tools.{preset-IsPreset, IsPreset}
use app_dockhand.Mcp.Port.{port_step-IsSaved, IsSaved}
use app_dockhand.Base.{
  Text, List, Bool, txt, text_eq, [], false, true, some, trim, All, trim_start, ◌∷◌, trim_end, ◌≡◌,
  is_space, number,
}
use app_dockhand.Mcp.{
  ToolState, tool_state, preset, confirming_count, port_step, McpTool, fill, set_tool, PortField,
  commit, port_value, ToolPermit, assign, field, typed, blurred, port_error, confirming,
}
use app_dockhand.Base.Sets.{has}

abbrev tool : Text → Bool → McpTool
tool name writes = record {
  name = name;
  desc = [];
  group = McpToolGroup.containers;
  writes = writes;
}

abbrev two_tools : List McpTool
two_tools = tool (txt "list") false ∷ tool (txt "stop") true ∷ []

abbrev permit : Bool → Bool → ToolPermit
permit enabled confirm = record { enabled = enabled; confirm = confirm }

abbrev auto_stop : ToolState
auto_stop = (txt "stop", permit true false) ∷ []

filled :
    tool_state two_tools auto_stop
    ≡ (txt "list", permit true false) ∷ (txt "stop", permit true false) ∷ []
unfolding tool_state fill assign field text_eq
filled = refl

read_only :
    preset false two_tools (tool_state two_tools auto_stop)
    ≡ (txt "list", permit true false) ∷ (txt "stop", permit false false) ∷ []
unfolding preset tool_state fill assign field text_eq
read_only = refl

confirmed : confirming_count two_tools (set_tool (txt "stop") (confirming true) auto_stop) ≡ 1
unfolding confirming_count set_tool assign field text_eq
confirmed = refl

abbrev with_draft : Text → PortField
with_draft s = record { draft = some s; err = [] }

too_low : (port_step 0 blurred (with_draft (txt "80"))).0.err ≡ port_error
unfolding port_step commit trim trim_start trim_end is_space number
too_low = refl

typed_digits : port_value 0 (port_step 0 (typed (txt "7a8b0c0")) (with_draft [])).0 ≡ txt "7800"
unfolding port_step port_value
typed_digits = refl

preset-IsPreset_example :
    let state = tool_state two_tools auto_stop in
    All (IsPreset false state (preset false two_tools state)) two_tools
unfolding text_eq has
preset-IsPreset_example = preset-IsPreset false two_tools auto_stop (refl, (refl, tt))

port_step-IsSaved_example : IsSaved 0 (port_step 0 blurred (with_draft (txt "7800"))).0 7800
unfolding port_step commit trim trim_start trim_end is_space number
port_step-IsSaved_example = port_step-IsSaved 0 blurred (with_draft (txt "7800")) 7800 refl
