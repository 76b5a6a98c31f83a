-- ===== src/Base/Sets.antt =====
-- A `Set` of texts, as the list of its members in the order in which they were added.
use app_dockhand.Base.Tests.{if◌then◌else◌, Bool-cases}
use app_dockhand.Base.Lists.{filter, All, All-append}
use app_dockhand.Base.Strings.{Text, text_eq, text_eq_iff, text_eq_sound, text_eq_refl}
use mathlib.Core.Bool.{Bool, true, false, ◌||◌, not, ◌&&◌}
use mathlib.Core.List.{List, [], ◌∷◌, ◌++◌}
use mathlib.Core.Path.{◌≡◌, refl, subst}
use mathlib.Core.Logic.{inl, inr}
use native.Mathlib.Omega.{arith}

-- `s.has(k)`
unfoldable pub has : Text → List Text → Bool
has k [] = false
has k (x ∷ s) = text_eq x k || has k s

-- `s.add(k)`
abbrev pub add : Text → List Text → List Text
add k s = if has k s then s else s ++ k ∷ []

-- `new Set([...s, ...ks])`
unfoldable pub add_all : List Text → List Text → List Text
add_all [] s = s
add_all (k ∷ ks) s = add_all ks (add k s)

abbrev pub to_set : List Text → List Text
to_set ks = add_all ks []

-- `s.delete(k)`
abbrev pub remove : Text → List Text → List Text
remove k s = filter (λ x. not (text_eq x k)) s

-- No member stands twice in the list.
abbrev pub IsDistinct : List Text → Type 0
IsDistinct [] = Unit
IsDistinct (x ∷ s) = (has x s ≡ false) × IsDistinct s

pub has-append : (k : Text) (s t : List Text) → has k (s ++ t) ≡ (has k s || has k t)
unfolding has
has-append k [] t = refl
has-append k (x ∷ s) t = ground (arith, has-append k s t)

pub has-filter :
    (p : Text → Bool) (k : Text) (s : List Text) → has k (filter p s) ≡ (p k && has k s)
unfolding has
has-filter p k [] = ground arith
has-filter p k (x ∷ s) = elim (Bool-cases (text_eq x k)) [
  | inl e ↦ rw (text_eq_sound x k e) (ground (arith, has-filter p k s, text_eq_refl k))
  | inr e ↦ ground (arith, has-filter p k s)
]

pub IsDistinct-filter : (p : Text → Bool) (s : List Text) → IsDistinct s → IsDistinct (filter p s)
IsDistinct-filter p [] h = tt
IsDistinct-filter p (x ∷ s) (n, h) = elim (Bool-cases (p x)) [
  | inl e ↦ rw e (ground (arith, has-filter p x s), IsDistinct-filter p s h)
  | inr e ↦ rw e (IsDistinct-filter p s h)
]

pub IsDistinct-snoc :
    (k : Text) (s : List Text) → IsDistinct s → has k s ≡ false → IsDistinct (s ++ k ∷ [])
unfolding has
IsDistinct-snoc k [] h n = (refl, tt)
IsDistinct-snoc k (x ∷ s) (nx, h) n = (
  ground (arith, has-append x s (k ∷ []), text_eq_iff x k, text_eq_iff k x),
  IsDistinct-snoc k s h (ground arith),
)

pub add-IsDistinct : (k : Text) (s : List Text) → IsDistinct s → IsDistinct (add k s)
add-IsDistinct k s h = elim (Bool-cases (has k s)) [
  | inl e ↦ rw e h
  | inr e ↦ rw e (IsDistinct-snoc k s h e)
]

pub add_all-IsDistinct : (ks s : List Text) → IsDistinct s → IsDistinct (add_all ks s)
unfolding add_all
add_all-IsDistinct [] s h = h
add_all-IsDistinct (k ∷ ks) s h = add_all-IsDistinct ks (add k s) (add-IsDistinct k s h)

pub has-add : (j k : Text) (s : List Text) → has j (add k s) ≡ (text_eq k j || has j s)
unfolding has
has-add j k s = elim (Bool-cases (has k s)) [
  | inl e ↦ rw e (ground (arith, text_eq_iff k j))
  | inr e ↦ rw e (ground (arith, has-append j s (k ∷ [])))
]

pub has-add_all : (j : Text) (ks s : List Text) → has j (add_all ks s) ≡ (has j ks || has j s)
unfolding has add_all
has-add_all j [] s = refl
has-add_all j (k ∷ ks) s = ground (arith, has-add_all j ks (add k s), has-add j k s)

module _ (P : Text → Type 0) where
  pub has-All : (k : Text) (s : List Text) → has k s ≡ true → All P s → P k
  unfolding has
  has-All k [] h a = cc
  has-All k (x ∷ s) h (p, a) = elim (Bool-cases (text_eq x k)) [
    | inl e ↦ subst P (text_eq_sound x k e) p
    | inr e ↦ has-All k s (ground arith) a
  ]

  pub add_all-All : (ks s : List Text) → All P ks → All P s → All P (add_all ks s)
  unfolding add_all
  add_all-All [] s h a = a
  add_all-All (k ∷ ks) s (p, h) a = add_all-All ks (add k s) h (elim (Bool-cases (has k s)) [
    | inl e ↦ rw e a
    | inr e ↦ rw e (All-append P s (k ∷ []) a (p, tt))
  ])
