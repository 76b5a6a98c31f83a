-- ===== src/Palette/Best.antt =====
-- The order of what the command palette shows.
use app_dockhand.Base.{
  refl, ℕ, arith, ◌≢◌, List, Ordering, All, ◌∷◌, inl, inr, All-map, take, is_empty, filter, ◌≡◌,
  Text, suc, false, ◌-◌, ap, if◌then◌else◌, Bool-cases, sym, trim,
}
use app_dockhand.Base.Int.{ℤ, negsuc, ◌≤ℤ◌, max_ℤ_cases}
use app_dockhand.Base.Sort.{sort, IsSorted, sort-IsSorted, IsConsistent, sort-All, unsort-All}
use app_dockhand.Palette.Items.{Item, Group}
use app_dockhand.Palette.Results.{
  Scored, ResultGroup, by_score, by_best, best, group_order, is_group, group_limit, top, groups,
  results, scored,
}
use mathlib.Core.List.{[]}
use Prim.Native.Nat.{zero}

by_score-IsConsistent : IsConsistent by_score
by_score-IsConsistent = record { opposite = λ a b. ground arith; chain = λ a b c h k. ground arith }

by_best-IsConsistent : IsConsistent by_best
by_best-IsConsistent = record { opposite = λ a b. ground arith; chain = λ a b c h k. ground arith }

by_score-le : (a b : Scored) → by_score a b ≢ Ordering.gt → b.s ≤ℤ a.s
by_score-le a b h = ground arith

by_best-le : (a b : ResultGroup) → by_best a b ≢ Ordering.gt → best b.items ≤ℤ best a.items
by_best-le a b h = ground arith

-- No entry scores more.
abbrev pub IsAtMost : ℤ → List Scored → Type 0
IsAtMost m xs = All (λ (x : Scored). x.s ≤ℤ m) xs

best-head : (x : Scored) (xs : List Scored) → x.s ≤ℤ best (x ∷ xs)
best-head x [] = omega arith
best-head x (y ∷ xs) = elim (max_ℤ_cases x.s (best (y ∷ xs))) [
  | inl (e, h) ↦ rw e h
  | inr (e, h) ↦ rw e (omega arith)
]

best-IsAtMost : (m : ℤ) (x : Scored) (xs : List Scored) → IsAtMost m (x ∷ xs) → best (x ∷ xs) ≤ℤ m
best-IsAtMost m x [] (h, k) = h
best-IsAtMost m x (y ∷ xs) (h, k) = elim (max_ℤ_cases x.s (best (y ∷ xs))) [
  | inl (e, l) ↦ rw e (best-IsAtMost m y xs k)
  | inr (e, l) ↦ rw e h
]

abbrev pub head_score : List Scored → ℤ
head_score [] = negsuc 0
head_score (x ∷ xs) = x.s

-- The score of the first entry that is shown.
abbrev pub first_score : List ResultGroup → ℤ
first_score [] = negsuc 0
first_score (g ∷ gs) = head_score g.items

below-head :
    (x : Scored) (xs : List Scored)
    → All (λ (y : Scored). by_score x y ≢ Ordering.gt) xs
    → IsAtMost x.s xs
below-head x xs h = All-map _ (λ (y : Scored). y.s ≤ℤ x.s) (λ y k. by_score-le x y k) xs h

All-take : {A : Type 0} (P : A → Type 0) (k : ℕ) (xs : List A) → All P xs → All P (take k xs)
All-take P zero xs h = tt
All-take P (suc k) [] h = tt
All-take P (suc k) (x ∷ xs) (p, h) = (p, All-take P k xs h)

-- The head of a sorted list is its best, however much is cut off.
cut-best :
    (k : ℕ) (ys : List Scored)
    → IsSorted by_score ys
    → is_empty (take (suc k) ys) ≡ false
    → best (take (suc k) ys) ≤ℤ head_score (take (suc k) ys)
cut-best k [] h e = cc
cut-best k (y ∷ ys) (below, h) e =
    best-IsAtMost y.s y (take k ys) (omega arith, All-take _ k ys (below-head y ys below))

cut-IsAtMost :
    (m : ℤ) (k : ℕ) (ys : List Scored)
    → IsSorted by_score ys
    → (is_empty (take (suc k) ys) ≡ false → best (take (suc k) ys) ≤ℤ m)
    → IsAtMost m ys
cut-IsAtMost m k [] h b = tt
cut-IsAtMost m k (y ∷ ys) (below, h) b =
    let top_le : y.s ≤ℤ m = omega (arith, b refl, best-head y (take k ys)) in
    (
      top_le,
      All-map (λ (z : Scored). z.s ≤ℤ y.s) _ (λ z l. omega (arith, top_le)) ys
          (below-head y ys below),
    )

-- What holds of the entries of each group holds of all.
module _ (P : Scored → Type 0) where
  abbrev Each : List Scored → Group → Type 0
  Each xs g = All P (filter (λ (x : Scored). is_group x.it.group g) xs)

  each-head :
      (x : Scored) (f : Group → List Scored) (of_x : Group)
      → All (λ g. All P (if is_group of_x g then x ∷ f g else f g)) group_order
      → P x × All (λ g. All P (f g)) group_order
  each-head x f Group.navigation ((p, a), (b, (c, (d, t)))) = (p, (a, (b, (c, (d, t)))))
  each-head x f Group.hosts (a, ((p, b), (c, (d, t)))) = (p, (a, (b, (c, (d, t)))))
  each-head x f Group.containers (a, (b, ((p, c), (d, t)))) = (p, (a, (b, (c, (d, t)))))
  each-head x f Group.actions (a, (b, (c, ((p, d), t)))) = (p, (a, (b, (c, (d, t)))))

  each-All : (xs : List Scored) → All (Each xs) group_order → All P xs
  each-All [] h = tt
  each-All (x ∷ xs) h =
      let (p, k) =
        each-head x (λ g. filter (λ (y : Scored). is_group y.it.group g) xs) x.it.group h in
      (p, each-All xs k)

limit-suc : (g : Group) → group_limit g ≡ suc (group_limit g - 1)
limit-suc Group.navigation = refl
limit-suc Group.hosts = refl
limit-suc Group.containers = refl
limit-suc Group.actions = refl

module _ (query : Text) (searching : is_empty query ≡ false) (xs : List Scored) where
  abbrev sorted : Group → List Scored
  sorted g = sort by_score (filter (λ (x : Scored). is_group x.it.group g) xs)

  top-sorted : (g : Group) → top query xs g ≡ take (suc (group_limit g - 1)) (sorted g)
  unfolding top
  top-sorted g = rw searching (ap (λ n. take n (sorted g)) (limit-suc g))

  sorted-IsSorted : (g : Group) → IsSorted by_score (sorted g)
  sorted-IsSorted g = sort-IsSorted by_score by_score-IsConsistent _

  groups-best :
      (gs : List Group)
      → All (λ (g : ResultGroup). best g.items ≤ℤ head_score g.items) (groups query xs gs)
  groups-best [] = tt
  groups-best (g ∷ gs) = elim (Bool-cases (is_empty (top query xs g))) [
    | inl y ↦ rw y (groups-best gs)
    | inr off ↦ rw off (
      rw (top-sorted g) (
          cut-best (group_limit g - 1) (sorted g) (sorted-IsSorted g)
            (rw (sym (top-sorted g)) off)),
      groups-best gs,
    )
  ]

  top-IsAtMost :
      (m : ℤ) (g : Group)
      → (is_empty (top query xs g) ≡ false → best (top query xs g) ≤ℤ m)
      → Each (λ x. x.s ≤ℤ m) xs g
  top-IsAtMost m g h =
      unsort-All by_score (λ x. x.s ≤ℤ m) _
        (cut-IsAtMost m (group_limit g - 1) (sorted g) (sorted-IsSorted g)
          (rw (sym (top-sorted g)) h))

  groups-IsAtMost :
      (m : ℤ) (gs : List Group)
      → All (λ (g : ResultGroup). best g.items ≤ℤ m) (groups query xs gs)
      → All (Each (λ x. x.s ≤ℤ m) xs) gs
  groups-IsAtMost m [] = λ h. tt
  groups-IsAtMost m (g ∷ gs) = elim (Bool-cases (is_empty (top query xs g))) [
    | inl y ↦ rw y (λ h. (top-IsAtMost m g (λ e. cc), groups-IsAtMost m gs h))
    | inr off ↦ rw off (λ (p, h). (top-IsAtMost m g (λ e. p), groups-IsAtMost m gs h))
  ]

first-best :
    (gs : List ResultGroup)
    → IsSorted by_best gs
    → All (λ (g : ResultGroup). best g.items ≤ℤ head_score g.items) gs
    → All (λ (g : ResultGroup). best g.items ≤ℤ first_score gs) gs
first-best [] h k = tt
first-best (g ∷ gs) (below, h) (p, k) =
    (p, All-map _ _ (λ c l. omega (arith, by_best-le g c l, p)) gs below)

-- The first entry that is shown for a query that is not blank, which Enter runs, scores at least as
-- high as every entry that matches, of whichever group.
pub results-IsBest :
    (to_lower : Text → Text) (items : List Item) (q : Text)
    → is_empty (to_lower (trim q)) ≡ false
    → IsAtMost (first_score (results to_lower items q)) (scored to_lower (to_lower (trim q)) items)
unfolding results
results-IsBest to_lower items q h =
    let query = to_lower (trim q) in
    let gs = groups query (scored to_lower query items) group_order in
    rw h (
      each-All _ _ (
        groups-IsAtMost query h _ _ group_order (
          unsort-All by_best _ gs (
            first-best (sort by_best gs) (sort-IsSorted by_best by_best-IsConsistent gs)
              (sort-All by_best _ gs (groups-best query h _ group_order))))))
