-- ===== src/Containers/Order.antt =====
-- The order of a sorted container list.
use mathlib.Core.List.{Perm}
use app_dockhand.Base.{
  ℕ, ◌≡◌, ◌≢◌, ◌≤◌, Bool, true, List, [], ◌∷◌, Text, arith, filter, Ordering, All, All-map, ◌&&◌,
  text_eq, ◌==◌, text_eq_sound,
}
use app_dockhand.Base.Sort.{
  IsConsistent, IsSorted, by_key-IsConsistent, by_key_down-IsConsistent, then_by-IsConsistent,
  sort-perm, sort-IsSorted, filter-sort,
}
use app_dockhand.Types.Containers.{Container}
use app_dockhand.Containers.{SortKey, status_rank, started, by_name, cmp, sort_by}

by_name-IsConsistent :
    {locale_compare : Text → Text → Ordering}
    → IsConsistent locale_compare
    → IsConsistent (by_name locale_compare)
unfolding by_name
by_name-IsConsistent c = record {
  opposite = λ a b. c.opposite a.name b.name;
  chain = λ a b d. c.chain a.name b.name d.name;
}

module _ {locale_compare : Text → Text → Ordering} (epoch : Text → ℕ)
    (c : IsConsistent locale_compare) where
  cmp-IsConsistent : (key : SortKey) → IsConsistent (cmp locale_compare epoch key)
  unfolding cmp
  cmp-IsConsistent SortKey.status =
      then_by-IsConsistent (by_key-IsConsistent status_rank) (by_name-IsConsistent c)
  cmp-IsConsistent SortKey.name = by_name-IsConsistent c
  cmp-IsConsistent SortKey.cpu =
      then_by-IsConsistent (by_key_down-IsConsistent (λ (k : Container). k.cpu))
        (by_name-IsConsistent c)
  cmp-IsConsistent SortKey.mem =
      then_by-IsConsistent (by_key_down-IsConsistent (λ (k : Container). k.mem_used))
        (by_name-IsConsistent c)
  cmp-IsConsistent SortKey.newest =
      then_by-IsConsistent (by_key_down-IsConsistent (started epoch)) (by_name-IsConsistent c)
  cmp-IsConsistent SortKey.oldest =
      then_by-IsConsistent (by_key-IsConsistent (started epoch)) (by_name-IsConsistent c)

  -- With a consistent collation order, sorting by any key rearranges the list and leaves no item
  -- above a later one.
  pub sort_by-IsSorted :
      (list : List Container) (key : SortKey)
      → Perm (sort_by locale_compare epoch list key) list
        × IsSorted (cmp locale_compare epoch key) (sort_by locale_compare epoch list key)
  unfolding sort_by
  sort_by-IsSorted list key = (
    sort-perm (cmp locale_compare epoch key) list,
    sort-IsSorted (cmp locale_compare epoch key) (cmp-IsConsistent key) list,
  )

-- The rank never falls along the list.
abbrev pub IsRanked : List Container → Type 0
IsRanked [] = Unit
IsRanked (a ∷ list) = All (λ b. status_rank a ≤ status_rank b) list × IsRanked list

cmp-status_rank :
    (locale_compare : Text → Text → Ordering) (epoch : Text → ℕ) (a b : Container)
    → cmp locale_compare epoch SortKey.status a b ≢ Ordering.gt
    → status_rank a ≤ status_rank b
unfolding cmp
cmp-status_rank locale_compare epoch a b h = ground arith

IsSorted-IsRanked :
    (locale_compare : Text → Text → Ordering) (epoch : Text → ℕ) (list : List Container)
    → IsSorted (cmp locale_compare epoch SortKey.status) list
    → IsRanked list
IsSorted-IsRanked locale_compare epoch [] h = tt
IsSorted-IsRanked locale_compare epoch (a ∷ list) (below, h) = (
  All-map _ (λ b. status_rank a ≤ status_rank b) (cmp-status_rank locale_compare epoch a) list
      below,
  IsSorted-IsRanked locale_compare epoch list h,
)

-- In the default order, problems stand before the running containers and those before the rest:
-- with a consistent collation order the rank never falls along the list sorted by status.
sort_by-IsRanked :
    {locale_compare : Text → Text → Ordering} (epoch : Text → ℕ)
    → IsConsistent locale_compare
    → (list : List Container) → IsRanked (sort_by locale_compare epoch list SortKey.status)
sort_by-IsRanked {locale_compare} epoch c list =
    IsSorted-IsRanked locale_compare epoch _ (sort_by-IsSorted epoch c list SortKey.status).1

-- The same name and the same rank.
abbrev pub alike : Container → Container → Bool
alike a b = text_eq b.name a.name && (status_rank b == status_rank a)

cmp-alike :
    (locale_compare : Text → Text → Ordering) (epoch : Text → ℕ)
    → ((s : Text) → locale_compare s s ≡ Ordering.eq)
    → (r a b : Container) → alike r a ≡ true
    → alike r b ≡ true
    → cmp locale_compare epoch SortKey.status a b ≡ Ordering.eq
unfolding cmp by_name
cmp-alike locale_compare epoch same r a b h k =
    ground (arith, same r.name, text_eq_sound a.name r.name, text_eq_sound b.name r.name)

-- Containers with the same name and rank, on different hosts say, keep the order in which the list
-- gave them, if the collation order takes a name as equal to itself.
filter-sort_by :
    (locale_compare : Text → Text → Ordering) (epoch : Text → ℕ)
    → ((s : Text) → locale_compare s s ≡ Ordering.eq)
    → (r : Container) (list : List Container)
    → filter (alike r) (sort_by locale_compare epoch list SortKey.status) ≡ filter (alike r) list
unfolding sort_by
filter-sort_by locale_compare epoch same r list =
    filter-sort (cmp locale_compare epoch SortKey.status) (alike r)
      (cmp-alike locale_compare epoch same r) list
