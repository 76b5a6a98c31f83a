-- ===== src/Containers/Arranged.antt =====
-- What the keys by which containers are sorted mean.
use mathlib.Core.Option.{none}
use app_dockhand.Base.{
  Text, ℕ, Ordering, ◌<◌, if◌then◌else◌, ◌≡◌, arith, is_empty, ◌⊎◌, ◌≢◌, List, ◌∷◌, ◌||◌, All, some,
  compare, All-map, Option-cases, inl, inr,
}
use app_dockhand.Base.Sort.{IsSorted, IsConsistent, then_by}
use app_dockhand.Containers.Order.{sort_by-IsSorted}
use app_dockhand.Types.Containers.{Container}
use app_dockhand.Containers.{
  status_rank, matches_status, SortKey, StatusFilter, health_is, Health, started, cmp, time,
  by_name, sort_by,
}
use mathlib.Core.List.{[], Perm}

-- The five groups of the default order, by the filters of the page: the problems, which the filters for
-- unhealthy and for crashed containers show; those that are starting up; then those that run, that are
-- paused, and the rest.
abbrev pub group_of : Container → ℕ
group_of c =
    if matches_status c StatusFilter.unhealthy || matches_status c StatusFilter.crashed
    then 0
    else if matches_status c StatusFilter.restarting || health_is c.health Health.starting
    then 1
    else if matches_status c StatusFilter.running
    then 2
    else if matches_status c StatusFilter.paused
    then 3
    else 4

status_rank-group_of : (c : Container) → status_rank c ≡ group_of c
unfolding status_rank matches_status
status_rank-group_of c = ground arith

-- When the container was started, or created if it never was; 0 for no date.
abbrev pub date_of : (Text → ℕ) → Text → ℕ
date_of epoch s = if is_empty s then 0 else epoch s

abbrev pub begun : (Text → ℕ) → Container → ℕ
begun epoch c = elim c.started_at [ none ↦ date_of epoch c.created_at | some s ↦ date_of epoch s ]

-- `n` before `m`, or the name not after that of the other.
abbrev pub Before : (Text → Text → Ordering) → ℕ → ℕ → Container → Container → Type 0
Before collate n m a b = (n < m) ⊎ ((n ≡ m) × (collate a.name b.name ≢ Ordering.gt))

-- What it means for `a` to stand before `b`.
abbrev pub MayPrecede :
    (Text → Text → Ordering) → (Text → ℕ) → SortKey → Container → Container → Type 0
MayPrecede collate epoch SortKey.status a b = Before collate (group_of a) (group_of b) a b
MayPrecede collate epoch SortKey.name a b = collate a.name b.name ≢ Ordering.gt
MayPrecede collate epoch SortKey.cpu a b = Before collate b.cpu a.cpu a b
MayPrecede collate epoch SortKey.mem a b = Before collate b.mem_used a.mem_used a b
MayPrecede collate epoch SortKey.newest a b = Before collate (begun epoch b) (begun epoch a) a b
MayPrecede collate epoch SortKey.oldest a b = Before collate (begun epoch a) (begun epoch b) a b

abbrev pub IsArranged : (Text → Text → Ordering) → (Text → ℕ) → SortKey → List Container → Type 0
IsArranged collate epoch key [] = Unit
IsArranged collate epoch key (a ∷ list) =
    All (MayPrecede collate epoch key a) list × IsArranged collate epoch key list

Before-then_by :
    (collate : Text → Text → Ordering) (n m : ℕ) (a b : Container)
    → then_by (compare n m) (collate a.name b.name) ≢ Ordering.gt
    → Before collate n m a b
Before-then_by collate n m a b h = ground arith

started-begun : (epoch : Text → ℕ) (c : Container) → started epoch c ≡ begun epoch c
unfolding started time
started-begun epoch c = elim (Option-cases c.started_at) [ inl e ↦ rw e | inr (s, e) ↦ rw e ]

MayPrecede-cmp :
    (collate : Text → Text → Ordering) (epoch : Text → ℕ) (key : SortKey) (a b : Container)
    → cmp collate epoch key a b ≢ Ordering.gt
    → MayPrecede collate epoch key a b
unfolding cmp by_name
MayPrecede-cmp collate epoch SortKey.status a b h =
    rw (← (status_rank-group_of a), ← (status_rank-group_of b))
      (Before-then_by collate (status_rank a) (status_rank b) a b h)
MayPrecede-cmp collate epoch SortKey.name a b h = h
MayPrecede-cmp collate epoch SortKey.cpu a b h = Before-then_by collate b.cpu a.cpu a b h
MayPrecede-cmp collate epoch SortKey.mem a b h = Before-then_by collate b.mem_used a.mem_used a b h
MayPrecede-cmp collate epoch SortKey.newest a b h =
    rw (← (started-begun epoch a), ← (started-begun epoch b))
      (Before-then_by collate (started epoch b) (started epoch a) a b h)
MayPrecede-cmp collate epoch SortKey.oldest a b h =
    rw (← (started-begun epoch a), ← (started-begun epoch b))
      (Before-then_by collate (started epoch a) (started epoch b) a b h)

IsArranged-IsSorted :
    (collate : Text → Text → Ordering) (epoch : Text → ℕ) (key : SortKey) (list : List Container)
    → IsSorted (cmp collate epoch key) list
    → IsArranged collate epoch key list
IsArranged-IsSorted collate epoch key [] h = tt
IsArranged-IsSorted collate epoch key (a ∷ list) (below, h) = (
  All-map _ (MayPrecede collate epoch key a) (MayPrecede-cmp collate epoch key a) list below,
  IsArranged-IsSorted collate epoch key list h,
)

-- With a consistent collation order, sorting rearranges the list so that of any two containers the
-- earlier one is, by status, of the more urgent group (problems, starting up, running, paused, the rest);
-- by processor or memory, the one that uses more; by the newest, the one begun later, and by the oldest,
-- the one begun earlier; and where these are equal, and by name, the one whose name does not come after
-- the other's.
pub sort_by-IsArranged :
    {collate : Text → Text → Ordering} (epoch : Text → ℕ)
    → IsConsistent collate
    → (list : List Container) (key : SortKey)
    → Perm (sort_by collate epoch list key) list
      × IsArranged collate epoch key (sort_by collate epoch list key)
sort_by-IsArranged {collate} epoch c list key =
    let (p, h) = sort_by-IsSorted epoch c list key in
    (p, IsArranged-IsSorted collate epoch key (sort_by collate epoch list key) h)
