-- ===== src/Terminal/Screen.antt =====
-- The window on the screen: what clamping makes of its place and size, and of its font.
use app_dockhand.Base.{◌≡◌, refl, arith}
use app_dockhand.Base.Int.{ℤ, pos, ◌+ℤ◌, ◌-ℤ◌, ◌≤ℤ◌, min_ℤ, max_ℤ, +ℤ_parts, -ℤ_parts}
use app_dockhand.Terminal.{
  clamp_size, clamp_at, clamp, Viewport, clamp_font, Geom, font_min, min_w, font_max, min_h, head,
}

clamp_size_idem : (m v s : ℤ) → clamp_size m v (clamp_size m v s) ≡ clamp_size m v s
unfolding clamp_size min_ℤ max_ℤ
clamp_size_idem m v s = ground arith

clamp_at_idem : (l h s : ℤ) → clamp_at l h (clamp_at l h s) ≡ clamp_at l h s
unfolding clamp_at min_ℤ max_ℤ
clamp_at_idem l h s = ground arith

clamp_size-le : (m v s : ℤ) → clamp_size m v s ≤ℤ v
unfolding clamp_size min_ℤ max_ℤ
clamp_size-le m v s = ground arith

clamp_size-ge : (m v s : ℤ) → m ≤ℤ v → m ≤ℤ clamp_size m v s
unfolding clamp_size min_ℤ max_ℤ
clamp_size-ge m v s h = ground arith

clamp_at-le : (l h s : ℤ) → clamp_at l h s ≤ℤ h
unfolding clamp_at min_ℤ max_ℤ
clamp_at-le l h s = ground arith

clamp_at-ge : (l h s : ℤ) → l ≤ℤ h → l ≤ℤ clamp_at l h s
unfolding clamp_at min_ℤ max_ℤ
clamp_at-ge l h s k = ground arith

-- Clamping a geometry twice in a viewport is clamping it once.
pub clamp_idem : (v : Viewport) (g : Geom) → clamp v (clamp v g) ≡ clamp v g
unfolding clamp
clamp_idem v g =
    rw (clamp_size_idem min_w (v.vw -ℤ pos 16) g.w, clamp_size_idem min_h (v.vh -ℤ pos 16) g.h)
      (rw
        (
          clamp_at_idem (pos 160 -ℤ clamp_size min_w (v.vw -ℤ pos 16) g.w) (v.vw -ℤ pos 160) g.x,
          clamp_at_idem (pos 8) (v.vh -ℤ head -ℤ pos 8) g.y,
        )
        refl)

-- The window has its least size, does not exceed the viewport, shows 160 pixels of its width, and its
-- head is inside.
pub record IsVisible (v : Viewport) (g : Geom) : Type 0 where
  pub width_ge : min_w ≤ℤ g.w
  pub width_le : g.w ≤ℤ (v.vw -ℤ pos 16)
  pub height_ge : min_h ≤ℤ g.h
  pub height_le : g.h ≤ℤ (v.vh -ℤ pos 16)
  pub left_le : g.x ≤ℤ (v.vw -ℤ pos 160)
  pub right_ge : pos 160 ≤ℤ (g.x +ℤ g.w)
  pub top_ge : pos 8 ≤ℤ g.y
  pub top_le : g.y ≤ℤ (v.vh -ℤ head -ℤ pos 8)

sum-ge : (a w x : ℤ) → (a -ℤ w) ≤ℤ x → a ≤ℤ (x +ℤ w)
sum-ge a w x h = omega (arith, -ℤ_parts a w, +ℤ_parts x w)

diff_mono : (a b c w : ℤ) → (c +ℤ b) ≤ℤ (a +ℤ w) → (c -ℤ w) ≤ℤ (a -ℤ b)
diff_mono a b c w h = omega (arith, -ℤ_parts a b, -ℤ_parts c w, +ℤ_parts c b, +ℤ_parts a w)

room_lem : (a w : ℤ) → pos 436 ≤ℤ a → min_w ≤ℤ w → (pos 160 +ℤ pos 160) ≤ℤ (a +ℤ w)
room_lem a w h k = omega (arith, +ℤ_parts (pos 160) (pos 160), +ℤ_parts a w)

-- In a viewport of at least 436 by 256 pixels a clamped window is visible.
pub clamp-IsVisible :
    (v : Viewport) (g : Geom) → pos 436 ≤ℤ v.vw → pos 256 ≤ℤ v.vh → IsVisible v (clamp v g)
unfolding clamp
clamp-IsVisible v g hw hh = record {
  width_ge = clamp_size-ge min_w (v.vw -ℤ pos 16) g.w (omega (arith, -ℤ_parts v.vw (pos 16)));
  width_le = clamp_size-le min_w (v.vw -ℤ pos 16) g.w;
  height_ge = clamp_size-ge min_h (v.vh -ℤ pos 16) g.h (omega (arith, -ℤ_parts v.vh (pos 16)));
  height_le = clamp_size-le min_h (v.vh -ℤ pos 16) g.h;
  left_le = clamp_at-le _ (v.vw -ℤ pos 160) g.x;
  right_ge = sum-ge (pos 160) _ _ (
      clamp_at-ge _ _ g.x (
        diff_mono v.vw (pos 160) (pos 160) (clamp_size min_w (v.vw -ℤ pos 16) g.w) (
          room_lem v.vw _ hw
            (clamp_size-ge min_w (v.vw -ℤ pos 16) g.w (omega (arith, -ℤ_parts v.vw (pos 16)))))));
  top_ge =
      clamp_at-ge (pos 8) _ g.y
        (omega (arith, -ℤ_parts v.vh head, -ℤ_parts (v.vh -ℤ head) (pos 8)));
  top_le = clamp_at-le (pos 8) (v.vh -ℤ head -ℤ pos 8) g.y;
}

pub clamp_font_bounds : (f : ℤ) → (font_min ≤ℤ clamp_font f) × (clamp_font f ≤ℤ font_max)
unfolding clamp_font min_ℤ max_ℤ
clamp_font_bounds f = ground arith

clamp_font_id : (f : ℤ) → font_min ≤ℤ f → f ≤ℤ font_max → clamp_font f ≡ f
unfolding clamp_font min_ℤ max_ℤ
clamp_font_id f a b = ground arith
