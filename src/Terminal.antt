-- ===== src/Terminal.antt =====
-- web/components/shell/TerminalWindow.tsx: the floating terminal window. Its place and size on the
-- screen, with the pointer and the storage that move it; its tabs are in Tabs, and what the tabs are
-- called in Titles. Coordinates are whole pixels, so rounding leaves them as they are.
pub mod Screen
pub mod Frames
pub mod Tabs
pub mod Keys
pub mod Targets
pub mod Status
pub mod Titles
mod Tests
use app_dockhand.Base.{
  ◌≡◌, Bool, true, false, not, ◌&&◌, ◌||◌, Option, none, some, List, [], ◌∷◌, ◌==◌, ◌>>=◌, ℕ,
  if◌then◌else◌,
}
use app_dockhand.Base.Int.{ℤ, pos, ◌+ℤ◌, ◌-ℤ◌, min_ℤ, max_ℤ}

pub record Viewport : Type 0 where
  pub vw : ℤ
  pub vh : ℤ

pub record Geom : Type 0 where
  pub x : ℤ
  pub y : ℤ
  pub w : ℤ
  pub h : ℤ

abbrev pub head : ℤ
head = pos 44

abbrev pub min_w : ℤ
min_w = pos 420

abbrev pub min_h : ℤ
min_h = pos 240

abbrev pub font_min : ℤ
font_min = pos 10

abbrev pub font_max : ℤ
font_max = pos 20

-- The width and the height in `clamp`: at most what fits, and at least the least one that does.
unfoldable pub clamp_size : ℤ → ℤ → ℤ → ℤ
clamp_size least room size = max_ℤ (min_ℤ least room) (min_ℤ size room)

-- The position in `clamp`.
unfoldable pub clamp_at : ℤ → ℤ → ℤ → ℤ
clamp_at low high at = min_ℤ (max_ℤ at low) high

unfoldable pub clamp : Viewport → Geom → Geom
clamp v g =
    let w = clamp_size min_w (v.vw -ℤ pos 16) g.w in
    record {
      x = clamp_at (pos 160 -ℤ w) (v.vw -ℤ pos 160) g.x;
      y = clamp_at (pos 8) (v.vh -ℤ head -ℤ pos 8) g.y;
      w = w;
      h = clamp_size min_h (v.vh -ℤ pos 16) g.h;
    }

unfoldable pub default_geom : Viewport → Geom
default_geom v =
    let w = min_ℤ (pos 860) (v.vw -ℤ pos 32) in
    let h = min_ℤ (pos 500) (v.vh -ℤ pos 120) in
    clamp v (record { x = v.vw -ℤ w -ℤ pos 24; y = v.vh -ℤ h -ℤ pos 24; w = w; h = h })

-- `Math.min(FONT_MAX, Math.max(FONT_MIN, f))`
unfoldable pub clamp_font : ℤ → ℤ
clamp_font f = min_ℤ font_max (max_ℤ font_min f)

-- A number as JSON is read: a literal that is too large, like 1e999, is infinite.
pub data StoredNumber : Type 0 where
  finite : ℤ → StoredNumber
  infinite minus_infinite : StoredNumber

-- An object in the storage; a place or size is `none` if it is not there or no finite number, the font if
-- it is not there or no number.
pub record Saved : Type 0 where
  pub x : Option ℤ
  pub y : Option ℤ
  pub w : Option ℤ
  pub h : Option ℤ
  pub font : Option StoredNumber

-- The entry of `localStorage`.
pub data Store : Type 0 where
  unavailable : Store
  empty : Store
  garbled : Store
  holds : Saved → Store

abbrev pub saved_font : Option StoredNumber → ℤ
saved_font none = pos 13
saved_font (some (finite f)) = clamp_font f
saved_font (some infinite) = font_max
saved_font (some minus_infinite) = font_min

abbrev pub saved_geom : Saved → Option Geom
saved_geom s = do x ← s.x; y ← s.y; w ← s.w; h ← s.h; some (record { x = x; y = y; w = w; h = h })

unfoldable pub load_store : Viewport → Store → Geom × ℤ
load_store v (holds s) = elim (saved_geom s) [
  | none ↦ (default_geom v, pos 13)
  | some g ↦ (clamp v g, saved_font s.font)
]
load_store v _ = (default_geom v, pos 13)

unfoldable pub save_store : Geom → ℤ → Store → Store
save_store g font unavailable = unavailable
save_store g font _ =
    holds
      (record { x = some g.x; y = some g.y; w = some g.w; h = some g.h; font = some (finite font) })

pub data DragMode : Type 0 where
  move drag_se drag_e drag_s : DragMode

abbrev pub is_move : DragMode → Bool
is_move move = true
is_move _ = false

-- Where the drag began.
pub record Start : Type 0 where
  pub mx : ℤ
  pub my : ℤ
  pub g : Geom

pub record Frame : Type 0 where
  pub viewport : Viewport
  pub geom : Geom
  pub font : ℤ
  pub maxed : Bool
  pub minimized : Bool
  pub drag : Option DragMode
  pub start : Option Start
  pub store : Store

-- What the pointer, the keys and the browser do to the frame. `press` is a button of the mouse that
-- goes down: which one, whether it is on a control, and where.
pub data FrameEvent : Type 0 where
  press : DragMode → ℕ → Bool → ℤ → ℤ → FrameEvent
  mouse_move : ℤ → ℤ → FrameEvent
  mouse_up : FrameEvent
  resize : Viewport → FrameEvent
  set_font_size : ℤ → FrameEvent
  toggle_maxed : FrameEvent
  toggle_minimized : FrameEvent
  restore : FrameEvent

-- The geometry that `move` asks for, before it is clamped.
unfoldable pub dragged : DragMode → Geom → ℤ → ℤ → Geom
dragged move g dx dy = record g { x = g.x +ℤ dx; y = g.y +ℤ dy }
dragged drag_se g dx dy = record g { w = max_ℤ min_w (g.w +ℤ dx); h = max_ℤ min_h (g.h +ℤ dy) }
dragged drag_e g dx dy = record g { w = max_ℤ min_w (g.w +ℤ dx) }
dragged drag_s g dx dy = record g { h = max_ℤ min_h (g.h +ℤ dy) }

unfoldable pub begin_drag : DragMode → ℕ → Bool → ℤ → ℤ → Frame → Frame
begin_drag mode button on_control mx my f =
    if not (button == 0)
      || f.maxed
      || (is_move mode && on_control)
      || (not (is_move mode) && f.minimized)
    then f
    else record f { start = some (record { mx = mx; my = my; g = f.geom }); drag = some mode }

unfoldable pub drag_to : ℤ → ℤ → Option DragMode → Option Start → Frame → Frame
drag_to cx cy (some mode) (some s) f = record f {
  geom = clamp f.viewport (dragged mode s.g (cx -ℤ s.mx) (cy -ℤ s.my));
}
drag_to cx cy _ _ f = f

unfoldable pub end_drag : Option DragMode → Frame → Frame
end_drag none f = f
end_drag (some _) f = record f {
  drag = none;
  start = none;
  store = save_store f.geom f.font f.store;
}

unfoldable pub frame_step : FrameEvent → Frame → Frame
frame_step (press mode button on_control mx my) f = begin_drag mode button on_control mx my f
frame_step (mouse_move cx cy) f = drag_to cx cy f.drag f.start f
frame_step mouse_up f = end_drag f.drag f
frame_step (resize v) f = record f { viewport = v; geom = clamp v f.geom }
frame_step (set_font_size n) f = record f {
  font = clamp_font n;
  store = save_store f.geom (clamp_font n) f.store;
}
frame_step toggle_maxed f = record f { maxed = not f.maxed; minimized = false }
frame_step toggle_minimized f = record f { minimized = not f.minimized }
frame_step restore f = record f { minimized = false }

unfoldable pub open_frame : Viewport → Store → Frame
open_frame v store =
    let (g, font) = load_store v store in
    record {
      viewport = v;
      geom = g;
      font = font;
      maxed = false;
      minimized = false;
      drag = none;
      start = none;
      store = store;
    }

abbrev pub frame_run : Frame → List FrameEvent → Frame
frame_run f [] = f
frame_run f (e ∷ es) = frame_run (frame_step e f) es
