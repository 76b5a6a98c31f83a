-- ===== src/Base/Sort.antt =====
-- `[...list].sort(cmp)`: a stable sort by a comparator, here by insertion.
use mathlib.Core.List.{Perm}
use mathlib.Core.List.Perm
use mathlib.Core.List.{List, [], ◌∷◌}
use mathlib.Core.Path.{◌≡◌, refl}
use mathlib.Core.Logic.{◌≢◌, ◌⊎◌, inl, inr}
use Prim.Native.Nat.{Ordering, ℕ, compare}
use native.Mathlib.Omega.{arith}
use app_dockhand.Base.Lists.{All, All-map, filter}
use mathlib.Core.Bool.{Bool, true}

-- The sign of what a comparator returns.
abbrev pub Comparator : Type 0 → Type 0
Comparator A = A → A → Ordering

abbrev pub flip : Ordering → Ordering
flip Ordering.lt = Ordering.gt
flip Ordering.eq = Ordering.eq
flip Ordering.gt = Ordering.lt

-- `first || second`: the second decides where the first returns 0.
abbrev pub then_by : Ordering → Ordering → Ordering
then_by Ordering.lt o = Ordering.lt
then_by Ordering.eq o = o
then_by Ordering.gt o = Ordering.gt

-- A consistent comparator, as `Array.prototype.sort` requires it.
pub record IsConsistent {A : Type 0} (cmp : Comparator A) : Type 0 where
  pub opposite : (a b : A) → cmp b a ≡ flip (cmp a b)
  pub chain : (a b c : A) → cmp a b ≢ Ordering.gt → cmp b c ≢ Ordering.gt → cmp a c ≢ Ordering.gt

module _ {A : Type 0} (cmp : Comparator A) where
  unfoldable pub insert : A → List A → List A
  insert x [] = x ∷ []
  insert x (y ∷ ys) = elim (cmp x y) [ Ordering.gt ↦ y ∷ insert x ys | _ ↦ x ∷ y ∷ ys ]

  unfoldable pub sort : List A → List A
  unfolding insert
  sort [] = []
  sort (x ∷ xs) = insert x (sort xs)

  -- Every item is not above any later one.
  abbrev pub IsSorted : List A → Type 0
  IsSorted [] = Unit
  IsSorted (x ∷ xs) = All (λ y. cmp x y ≢ Ordering.gt) xs × IsSorted xs

  pub insert-perm : (x : A) (ys : List A) → Perm (insert x ys) (x ∷ ys)
  unfolding insert
  insert-perm x [] = Perm.refl _
  insert-perm x (y ∷ ys) =
      elim (cmp x y)
        as (λ o. Perm (elim o [ Ordering.gt ↦ y ∷ insert x ys | _ ↦ x ∷ y ∷ ys ]) (x ∷ y ∷ ys)) [
          | Ordering.gt ↦ Perm.trans (Perm.cons y (insert-perm x ys)) (Perm.swap x y ys)
          | _ ↦ Perm.refl _
        ]

  pub sort-perm : (xs : List A) → Perm (sort xs) xs
  unfolding sort
  sort-perm [] = Perm.refl []
  sort-perm (x ∷ xs) = Perm.trans (insert-perm x (sort xs)) (Perm.cons x (sort-perm xs))

  pub insert-All : (P : A → Type 0) (x : A) (ys : List A) → P x → All P ys → All P (insert x ys)
  unfolding insert
  insert-All P x [] p h = (p, tt)
  insert-All P x (y ∷ ys) p (q, h) =
      elim (cmp x y) as (λ o. All P (elim o [ Ordering.gt ↦ y ∷ insert x ys | _ ↦ x ∷ y ∷ ys ])) [
        | Ordering.gt ↦ (q, insert-All P x ys p h)
        | _ ↦ (p, (q, h))
      ]

  pub sort-All : (P : A → Type 0) (xs : List A) → All P xs → All P (sort xs)
  unfolding sort
  sort-All P [] h = tt
  sort-All P (x ∷ xs) (p, h) = insert-All P x (sort xs) p (sort-All P xs h)

module _ {A : Type 0} (cmp : Comparator A) (P : A → Type 0) where
  uninsert-All : (x : A) (ys : List A) → All P (insert cmp x ys) → P x × All P ys
  unfolding insert
  uninsert-All x [] = λ h. h
  uninsert-All x (y ∷ ys) =
      elim (cmp x y)
        as (λ o.
          All P (elim o [ Ordering.gt ↦ y ∷ insert cmp x ys | _ ↦ x ∷ y ∷ ys ])
          → P x × All P (y ∷ ys)) [
            | Ordering.gt ↦ λ (p, h). let (q, k) = uninsert-All x ys h in (q, (p, k))
            | _ ↦ λ h. h
          ]

  -- What holds of the members of a sorted list held of them before.
  pub unsort-All : (xs : List A) → All P (sort cmp xs) → All P xs
  unfolding sort
  unsort-All [] h = tt
  unsort-All (x ∷ xs) h = let (p, k) = uninsert-All x (sort cmp xs) h in (p, unsort-All xs k)

Ordering-cases : (o : Ordering) → (o ≡ Ordering.gt) ⊎ (o ≢ Ordering.gt)
Ordering-cases Ordering.gt = inl refl
Ordering-cases Ordering.lt = inr (λ e. cc)
Ordering-cases Ordering.eq = inr (λ e. cc)

insert_fits :
    {A : Type 0} (cmp : Comparator A) (x y : A) (ys : List A)
    → cmp x y ≢ Ordering.gt
    → insert cmp x (y ∷ ys) ≡ x ∷ y ∷ ys
unfolding insert
insert_fits cmp x y ys h = ground arith

module _ {A : Type 0} (cmp : Comparator A) (c : IsConsistent cmp) where
  insert-IsSorted : (x : A) (ys : List A) → IsSorted cmp ys → IsSorted cmp (insert cmp x ys)
  unfolding insert
  insert-IsSorted x [] h = (tt, tt)
  insert-IsSorted x (y ∷ ys) (below, h) = elim (Ordering-cases (cmp x y)) [
    | inl above ↦
        rw (above, insert)
          (
            insert-All cmp (λ z. cmp y z ≢ Ordering.gt) x ys (rw (c.opposite x y, above) (λ e. cc))
                below,
            insert-IsSorted x ys h,
          )
    | inr fits ↦ rw (insert_fits cmp x y ys fits) (
      (
        fits,
        All-map (λ z. cmp y z ≢ Ordering.gt) (λ z. cmp x z ≢ Ordering.gt)
            (λ z k. c.chain x y z fits k) ys below,
      ),
      (below, h),
    )
  ]

  pub sort-IsSorted : (xs : List A) → IsSorted cmp (sort cmp xs)
  unfolding sort
  sort-IsSorted [] = tt
  sort-IsSorted (x ∷ xs) = insert-IsSorted x (sort cmp xs) (sort-IsSorted xs)

-- Items that the comparator does not tell apart keep their order.
module _ {A : Type 0} (cmp : Comparator A) (q : A → Bool)
    (same : (a b : A) → q a ≡ true → q b ≡ true → cmp a b ≡ Ordering.eq) where
  filter-insert : (x : A) (ys : List A) → filter q (insert cmp x ys) ≡ filter q (x ∷ ys)
  unfolding insert
  filter-insert x [] = refl
  filter-insert x (y ∷ ys) = ground (arith, same x y, filter-insert x ys)

  pub filter-sort : (xs : List A) → filter q (sort cmp xs) ≡ filter q xs
  unfolding sort
  filter-sort [] = refl
  filter-sort (x ∷ xs) = ground (arith, filter-insert x (sort cmp xs), filter-sort xs)

-- By a numeric key, upwards and downwards.
abbrev pub by_key : {A : Type 0} → (A → ℕ) → Comparator A
by_key key a b = compare (key a) (key b)

abbrev pub by_key_down : {A : Type 0} → (A → ℕ) → Comparator A
by_key_down key a b = compare (key b) (key a)

pub by_key-IsConsistent : {A : Type 0} (key : A → ℕ) → IsConsistent (by_key key)
by_key-IsConsistent key = record {
  opposite = λ a b. ground arith;
  chain = λ a b c h k. ground arith;
}

pub by_key_down-IsConsistent : {A : Type 0} (key : A → ℕ) → IsConsistent (by_key_down key)
by_key_down-IsConsistent key = record {
  opposite = λ a b. ground arith;
  chain = λ a b c h k. ground arith;
}

-- A tie of one consistent comparator broken by another.
pub then_by-IsConsistent :
    {A : Type 0} {f g : Comparator A}
    → IsConsistent f
    → IsConsistent g
    → IsConsistent (λ a b. then_by (f a b) (g a b))
then_by-IsConsistent {f} {g} hf hg = record {
  opposite = λ a b. ground (arith, hf.opposite a b, hg.opposite a b);
  chain = λ a b c h k. ground (
    arith,
    hf.opposite a b,
    hf.opposite b c,
    hf.opposite a c,
    hf.chain a b c,
    hf.chain b c a,
    hf.chain c a b,
    hg.chain a b c,
  );
}

-- The order of texts by their code units, a consistent comparator.
unfoldable pub text_compare : List ℕ → List ℕ → Ordering
text_compare [] [] = Ordering.eq
text_compare [] (d ∷ t) = Ordering.lt
text_compare (c ∷ s) [] = Ordering.gt
text_compare (c ∷ s) (d ∷ t) = then_by (compare c d) (text_compare s t)

text_compare_opposite : (s t : List ℕ) → text_compare t s ≡ flip (text_compare s t)
unfolding text_compare
text_compare_opposite [] [] = refl
text_compare_opposite [] (d ∷ t) = refl
text_compare_opposite (c ∷ s) [] = refl
text_compare_opposite (c ∷ s) (d ∷ t) = ground (arith, text_compare_opposite s t)

text_compare_chain :
    (s t u : List ℕ)
    → text_compare s t ≢ Ordering.gt
    → text_compare t u ≢ Ordering.gt
    → text_compare s u ≢ Ordering.gt
unfolding text_compare
text_compare_chain [] t [] h k = λ e. cc
text_compare_chain [] t (e ∷ u) h k = λ e. cc
text_compare_chain (c ∷ s) [] u h k = absurd (h refl)
text_compare_chain (c ∷ s) (d ∷ t) [] h k = absurd (k refl)
text_compare_chain (c ∷ s) (d ∷ t) (e ∷ u) h k = ground (arith, text_compare_chain s t u)

pub text_compare-IsConsistent : IsConsistent text_compare
text_compare-IsConsistent = record { opposite = text_compare_opposite; chain = text_compare_chain }

pub text_compare_refl : (s : List ℕ) → text_compare s s ≡ Ordering.eq
unfolding text_compare
text_compare_refl [] = refl
text_compare_refl (c ∷ s) = ground (arith, text_compare_refl s)
