-- ===== src/Base/Members.antt =====
-- Membership in a filtered list and after a sort.
use mathlib.Core.Logic.Or
use mathlib.Core.Logic.{◌↔◌, inl, inr}
use mathlib.Core.Path.{◌≡◌}
use mathlib.Core.Bool.{Bool, true}
use mathlib.Core.List.{List, [], ◌∷◌, Mem, Mem-prop, mem-cons, not-mem-nil}
use app_dockhand.Base.Tests.{Bool-cases}
use app_dockhand.Base.Lists.{filter}

module _ {A : Type 0} (q : A → Bool) (a : A) where
  passes_prop : (xs : List A) → IsProp (Mem a xs × (q a ≡ true))
  passes_prop xs = hlevel Mem-prop

  -- A member of the filtered list is a member of the list that passes the test.
  pub mem-filter : (xs : List A) → Mem a (filter q xs) ↔ (Mem a xs × (q a ≡ true))
  mem-filter [] = (λ m. absurd (not-mem-nil m), λ p. absurd (not-mem-nil p.0))
  mem-filter (x ∷ xs) = elim (Bool-cases (q x)) [
    | inl e ↦ rw e (
      λ m.
          Or.elim (passes_prop (x ∷ xs)) (mem-cons.0 m) (λ p. (mem-cons.1 (Or.inl p), rw p e))
            (λ k. (mem-cons.1 (Or.inr ((mem-filter xs).0 k).0), ((mem-filter xs).0 k).1)),
      λ p.
          Or.elim Mem-prop (mem-cons.0 p.0) (λ k. mem-cons.1 (Or.inl k))
            (λ k. mem-cons.1 (Or.inr ((mem-filter xs).1 (k, p.1)))),
    )
    | inr e ↦ rw e (
      λ m. (mem-cons.1 (Or.inr ((mem-filter xs).0 m).0), ((mem-filter xs).0 m).1),
      λ p. Or.elim Mem-prop (mem-cons.0 p.0) (λ k. absurd (cc)) (λ k. (mem-filter xs).1 (k, p.1)),
    )
  ]
