-- ===== src/Format/Sizes.antt =====
-- The unit in which a size is shown.
use app_dockhand.Base.{refl, ℕ, Text, List, ◌≤◌, ◌<◌, ◌⊎◌, ◌*◌, ◌≡◌, inr, ◌∷◌, arith}
use app_dockhand.Format.{scale}
use mathlib.Core.List.{[], []}

scale-le :
    (n den : ℕ) (u : Text) (us : List Text)
    → ((scale n den u us).0 ≤ n) ⊎ ((scale n den u us).0 ≡ den)
unfolding scale
scale-le n den u [] = inr refl
scale-le n den u (v ∷ us) = ground (arith, scale-le n (den * 1024) v us)

-- What the largest of the units is, one after the other 1024 times as large.
abbrev pub largest : ℕ → List Text → ℕ
largest den [] = den
largest den (v ∷ us) = largest (den * 1024) us

scale-lt :
    (n den : ℕ) (u : Text) (us : List Text)
    → (n < 1024 * (scale n den u us).0) ⊎ ((scale n den u us).0 ≡ largest den us)
unfolding scale
scale-lt n den u [] = inr refl
scale-lt n den u (v ∷ us) = ground (arith, scale-lt n (den * 1024) v us)

-- A size is shown in the unit of which it has from 1 to less than 1024, but in the smallest unit if it
-- has none of it, and in the largest one however many it has.
pub scale-bounds :
    (n : ℕ) (u : Text) (us : List Text)
    → (((scale n 1 u us).0 ≤ n) ⊎ ((scale n 1 u us).0 ≡ 1))
      × ((n < 1024 * (scale n 1 u us).0) ⊎ ((scale n 1 u us).0 ≡ largest 1 us))
scale-bounds n u us = (scale-le n 1 u us, scale-lt n 1 u us)
