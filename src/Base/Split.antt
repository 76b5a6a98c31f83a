-- ===== src/Base/Split.antt =====
-- Cutting a text at a unit: what is cut and what is left whole.
use Prim.Native.Nat.{ℕ}
use mathlib.Core.Path.{◌≡◌, refl}
use mathlib.Core.Bool.{Bool, true, false, ◌||◌}
use mathlib.Core.Option.{Option, none, some}
use mathlib.Core.List.{[], ◌∷◌, ◌++◌}
use native.Mathlib.Omega.{arith}
use app_dockhand.Base.Tests.{◌==◌}
use app_dockhand.Base.Strings.{Text}
use app_dockhand.Base.Lists.{any}
use app_dockhand.Base.Trim.{is_free_of}
use app_dockhand.Base.Words.{split_last, split_first}

pub split_last_free : (sep : ℕ) (s : Text) → is_free_of sep s ≡ true → split_last sep s ≡ none
unfolding split_last
split_last_free sep [] h = refl
split_last_free sep (c ∷ s) h = ground (arith, split_last_free sep s)

pub split_last-append :
    (sep : ℕ) (a b : Text) → is_free_of sep b ≡ true → split_last sep (a ++ sep ∷ b) ≡ some (a, b)
unfolding split_last
split_last-append sep [] b h = ground (arith, split_last_free sep b)
split_last-append sep (c ∷ a) b h = ground (arith, split_last-append sep a b)

pub split_first_free : (sep : ℕ) (s : Text) → is_free_of sep s ≡ true → split_first sep s ≡ none
unfolding split_first
split_first_free sep [] h = refl
split_first_free sep (c ∷ s) h = ground (arith, split_first_free sep s)

pub split_first-append :
    (sep : ℕ) (a b : Text) → is_free_of sep a ≡ true → split_first sep (a ++ sep ∷ b) ≡ some (a, b)
unfolding split_first
split_first-append sep [] b h = ground arith
split_first-append sep (c ∷ a) b h = ground (arith, split_first-append sep a b)

pub split_first-none :
    (sep : ℕ) (s : Text) → any (λ c. c == sep) s ≡ false → split_first sep s ≡ none
unfolding split_first
split_first-none sep [] h = refl
split_first-none sep (c ∷ s) h = ground (arith, split_first-none sep s)

-- The parts joined again are the text.
pub split_first-join : (sep : ℕ) (s a b : Text) → split_first sep s ≡ some (a, b) → s ≡ a ++ sep ∷ b
unfolding split_first
split_first-join sep [] a b h = cc
split_first-join sep (c ∷ s) [] b h = ground arith
split_first-join sep (c ∷ s) (x ∷ a) b h = ground (arith, split_first-join sep s a b)

-- What has no `sep` may be put behind the last part.
pub split_last-tail :
    (sep : ℕ) (s t : Text)
    → split_last sep t ≡ none
    → split_last sep (s ++ t)
      ≡ elim (split_last sep s) [ none ↦ none | some (a, b) ↦ some (a, b ++ t) ]
unfolding split_last
split_last-tail sep [] t h = h
split_last-tail sep (c ∷ s) t h = ground (arith, split_last-tail sep s t h)

abbrev pub is_some : {A : Type 0} → Option A → Bool
is_some none = false
is_some (some a) = true

pub is_some-split_last : (sep : ℕ) (s : Text) → is_some (split_last sep s) ≡ any (λ c. c == sep) s
unfolding split_last
is_some-split_last sep [] = refl
is_some-split_last sep (c ∷ s) = ground (arith, is_some-split_last sep s)

pub any-append : (p : ℕ → Bool) (s t : Text) → any p (s ++ t) ≡ (any p s || any p t)
any-append p [] t = refl
any-append p (c ∷ s) t = ground (arith, any-append p s t)
