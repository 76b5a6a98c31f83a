-- ===== src/Terminal/Frames.antt =====
-- The frame of the window: its invariant, and what is stored of it.
use app_dockhand.Base.{
  true, false, refl, ℕ, Bool, List, Option, not, some, ◌≡◌, ◌∷◌, ◌≢◌, ◌==◌, none, arith, ◌||◌, ◌&&◌,
  if◌then◌else◌,
}
use app_dockhand.Base.Int.{ℤ, pos, ◌≤ℤ◌}
use app_dockhand.Terminal.{
  Geom, Frame, begin_drag, drag_to, end_drag, frame_step, default_geom, load_store, open_frame,
  clamp, DragMode, FrameEvent, Viewport, font_min, save_store, Start, press, frame_run, Store,
  font_max, mouse_move, saved_font, StoredNumber, finite, infinite, minus_infinite, resize,
  unavailable, is_move, set_font_size, holds, clamp_font, saved_geom, mouse_up, empty, toggle_maxed,
  garbled, garbled, toggle_minimized, restore,
}
use app_dockhand.Terminal.Screen.{clamp_idem, clamp_font_bounds}
use mathlib.Core.List.{[]}

-- What holds of the frame between two events: the geometry is clamped, the font has a size from 10
-- to 20, and a drag has begun somewhere.
pub record IsWell (f : Frame) : Type 0 where
  pub placed : clamp f.viewport f.geom ≡ f.geom
  pub font_ge : font_min ≤ℤ f.font
  pub font_le : f.font ≤ℤ font_max
  pub started : f.drag ≢ none → f.start ≢ none

IsWell-set_geom :
    (f : Frame) (g : Geom) → IsWell f → IsWell (record f { geom = clamp f.viewport g })
IsWell-set_geom f g h = record {
  placed = clamp_idem f.viewport g;
  font_ge = h.font_ge;
  font_le = h.font_le;
  started = h.started;
}

begin_drag-IsWell :
    (mode : DragMode) (button : ℕ) (c : Bool) (mx my : ℤ) (f : Frame)
    → IsWell f
    → IsWell (begin_drag mode button c mx my f)
unfolding begin_drag
begin_drag-IsWell mode button c mx my f h =
    elim (not (button == 0)
        || f.maxed
        || (is_move mode && c)
        || (not (is_move mode) && f.minimized))
      as (λ b. IsWell (
        if b then f else record f {
          start = some (record { mx = mx; my = my; g = f.geom });
          drag = some mode;
        })) [
          | true ↦ h
          | false ↦ record {
            placed = h.placed;
            font_ge = h.font_ge;
            font_le = h.font_le;
            started = λ d e. ground arith;
          }
        ]

drag_to-IsWell :
    (cx cy : ℤ) (d : Option DragMode) (s : Option Start) (f : Frame)
    → IsWell f
    → IsWell (drag_to cx cy d s f)
unfolding drag_to
drag_to-IsWell cx cy none s f h = h
drag_to-IsWell cx cy (some m) none f h = h
drag_to-IsWell cx cy (some m) (some s) f h = IsWell-set_geom f _ h

end_drag-IsWell : (d : Option DragMode) (f : Frame) → IsWell f → IsWell (end_drag d f)
unfolding end_drag
end_drag-IsWell none f h = h
end_drag-IsWell (some m) f h = record {
  placed = h.placed;
  font_ge = h.font_ge;
  font_le = h.font_le;
  started = λ d. elim (d refl) [ ];
}

pub frame_step-IsWell : (e : FrameEvent) (f : Frame) → IsWell f → IsWell (frame_step e f)
unfolding frame_step
frame_step-IsWell (press mode button c mx my) f h = begin_drag-IsWell mode button c mx my f h
frame_step-IsWell (mouse_move cx cy) f h = drag_to-IsWell cx cy f.drag f.start f h
frame_step-IsWell mouse_up f h = end_drag-IsWell f.drag f h
frame_step-IsWell (resize v) f h = record {
  placed = clamp_idem v f.geom;
  font_ge = h.font_ge;
  font_le = h.font_le;
  started = h.started;
}
frame_step-IsWell (set_font_size n) f h = record {
  placed = h.placed;
  font_ge = (clamp_font_bounds n).0;
  font_le = (clamp_font_bounds n).1;
  started = h.started;
}
frame_step-IsWell toggle_maxed f h = record {
  placed = h.placed;
  font_ge = h.font_ge;
  font_le = h.font_le;
  started = h.started;
}
frame_step-IsWell toggle_minimized f h = record {
  placed = h.placed;
  font_ge = h.font_ge;
  font_le = h.font_le;
  started = h.started;
}
frame_step-IsWell restore f h = record {
  placed = h.placed;
  font_ge = h.font_ge;
  font_le = h.font_le;
  started = h.started;
}

frame_run-IsWell_from : (es : List FrameEvent) (f : Frame) → IsWell f → IsWell (frame_run f es)
frame_run-IsWell_from [] f h = h
frame_run-IsWell_from (e ∷ es) f h =
    frame_run-IsWell_from es (frame_step e f) (frame_step-IsWell e f h)

default_geom-placed : (v : Viewport) → clamp v (default_geom v) ≡ default_geom v
unfolding default_geom
default_geom-placed v = clamp_idem v _

saved_font_bounds :
    (o : Option StoredNumber) → (font_min ≤ℤ saved_font o) × (saved_font o ≤ℤ font_max)
saved_font_bounds none = (ground arith, ground arith)
saved_font_bounds (some (finite f)) = clamp_font_bounds f
saved_font_bounds (some infinite) = (ground arith, ground arith)
saved_font_bounds (some minus_infinite) = (ground arith, ground arith)

-- What `load_store` gives is on the screen and has a font of 10 to 20.
load_store-bounds :
    (v : Viewport) (s : Store)
    → (clamp v (load_store v s).0 ≡ (load_store v s).0)
      × (font_min ≤ℤ (load_store v s).1)
      × ((load_store v s).1 ≤ℤ font_max)
unfolding load_store
load_store-bounds v unavailable = (default_geom-placed v, ground arith, ground arith)
load_store-bounds v empty = (default_geom-placed v, ground arith, ground arith)
load_store-bounds v garbled = (default_geom-placed v, ground arith, ground arith)
load_store-bounds v (holds s) =
    elim (saved_geom s)
      as (λ o.
        let r : Geom × ℤ = elim o [
          | none ↦ (default_geom v, pos 13)
          | some g ↦ (clamp v g, saved_font s.font)
        ] in
        (clamp v r.0 ≡ r.0) × (font_min ≤ℤ r.1) × (r.1 ≤ℤ font_max)) [
          | none ↦ (default_geom-placed v, ground arith, ground arith)
          | some g ↦ (clamp_idem v g, (saved_font_bounds s.font).0, (saved_font_bounds s.font).1)
        ]

-- Whatever was stored and whatever the user and the browser do: the window's geometry is a clamped
-- one for the viewport of the moment, its font has a size from 10 to 20, and while it is dragged the
-- place where the drag began is known.
pub frame_run-IsWell :
    (v : Viewport) (s : Store) (es : List FrameEvent) → IsWell (frame_run (open_frame v s) es)
unfolding open_frame
frame_run-IsWell v s es = frame_run-IsWell_from es (open_frame v s) (record {
  placed = (load_store-bounds v s).0;
  font_ge = (load_store-bounds v s).1;
  font_le = (load_store-bounds v s).2;
  started = λ d. elim (d refl) [ ];
})

-- With storage available, what was saved is read back clamped: the geometry to the viewport and the
-- font to a size from 10 to 20.
load_store-save_store :
    (v : Viewport) (g : Geom) (font : ℤ) (s : Store)
    → s ≢ unavailable
    → load_store v (save_store g font s) ≡ (clamp v g, clamp_font font)
unfolding load_store save_store
load_store-save_store v g font unavailable h = elim (h refl) [ ]
load_store-save_store v g font empty h = refl
load_store-save_store v g font garbled h = refl
load_store-save_store v g font (holds s) h = refl
