-- ===== src/Base/Trim.antt =====
-- Trimming and cutting a text at its units.
use Prim.Native.Nat.{ℕ}
use mathlib.Core.Path.{◌≡◌, refl}
use mathlib.Core.Logic.{◌≢◌}
use mathlib.Core.Bool.{Bool, true, false, not}
use mathlib.Core.List.{[], ◌∷◌, ◌++◌}
use native.Mathlib.Omega.{arith}
use app_dockhand.Base.Tests.{◌==◌}
use app_dockhand.Base.Lists.{all, is_empty}
use app_dockhand.Base.Strings.{Text, is_space, is_digit, trim, trim_start, trim_end, span}

-- No unit is white space.
abbrev pub has_no_space : Text → Bool
has_no_space s = all (λ c. not (is_space c)) s

-- No unit is `sep`.
abbrev pub is_free_of : ℕ → Text → Bool
is_free_of sep s = all (λ c. not (c == sep)) s

pub trim_start_word : (c : ℕ) (s : Text) → is_space c ≡ false → trim_start (c ∷ s) ≡ c ∷ s
unfolding trim_start
trim_start_word c s h = ground arith

pub trim_end_word : (s : Text) → has_no_space s ≡ true → trim_end s ≡ s
unfolding trim_end
trim_end_word [] h = refl
trim_end_word (c ∷ s) h = ground (arith, trim_end_word s)

pub trim_end-append : (s t : Text) → t ≢ [] → trim_end t ≡ t → trim_end (s ++ t) ≡ s ++ t
unfolding trim_end
trim_end-append [] t ne h = h
trim_end-append (c ∷ []) t ne h = ground arith
trim_end-append (c ∷ d ∷ s) t ne h = ground (arith, trim_end-append (d ∷ s) t ne h)

-- A text with no white space is left alone.
pub trim_word : (s : Text) → has_no_space s ≡ true → trim s ≡ s
unfolding trim
trim_word [] h = unfold trim_start trim_end in refl
trim_word (c ∷ s) h = ground (arith, trim_start_word c s, trim_end_word (c ∷ s))

pub span-all : (p : ℕ → Bool) (s : Text) → all p s ≡ true → span p s ≡ (s, [])
unfolding span
span-all p [] h = refl
span-all p (c ∷ s) h = ground (arith, span-all p s)

pub digit-is_space : (c : ℕ) → is_digit c ≡ true → is_space c ≡ false
unfolding is_space
digit-is_space c h = ground arith

pub digit_no_space : (s : Text) → all is_digit s ≡ true → has_no_space s ≡ true
digit_no_space [] h = refl
digit_no_space (c ∷ s) h = ground (arith, digit_no_space s, digit-is_space c)

pub digit_free_of :
    (sep : ℕ) (s : Text) → is_digit sep ≡ false → all is_digit s ≡ true → is_free_of sep s ≡ true
digit_free_of sep [] n h = refl
digit_free_of sep (c ∷ s) n h = ground (arith, digit_free_of sep s n)

pub trim_start-append : (s t : Text) → s ≢ [] → has_no_space s ≡ true → trim_start (s ++ t) ≡ s ++ t
unfolding trim_start
trim_start-append [] t ne h = absurd (ne refl)
trim_start-append (c ∷ s) t ne h = ground arith

pub append-cons_ne : (s : Text) (c : ℕ) (t : Text) → s ++ (c ∷ t) ≢ []
append-cons_ne [] c t = λ e. cc
append-cons_ne (d ∷ s) c t = λ e. cc

pub ne_of_not-is_empty : (s : Text) → is_empty s ≡ false → s ≢ []
ne_of_not-is_empty [] h = cc
ne_of_not-is_empty (c ∷ s) h = λ e. cc
