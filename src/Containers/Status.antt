-- ===== src/Containers/Status.antt =====
-- The status buckets: how they relate, and what their counts add up to.
use app_dockhand.Base.{
  ℕ, ◌+◌, ◌≡◌, refl, ◌↔◌, ◌⊎◌, true, Option, none, some, List, [], ◌∷◌, arith, length, filter, ◌==◌,
  if◌then◌else◌,
}
use app_dockhand.Types.Containers.{Container, ContainerState}
use app_dockhand.Containers.{
  StatusFilter, state_is, matches_status, count_status, status_counts, status_rank,
}

-- Whether two filters are the same one, by their place in the type.
abbrev place : StatusFilter → ℕ
place StatusFilter.all = 0
place StatusFilter.running = 1
place StatusFilter.healthy = 2
place StatusFilter.unhealthy = 3
place StatusFilter.starting = 4
place StatusFilter.stopped = 5
place StatusFilter.crashed = 6
place StatusFilter.paused = 7
place StatusFilter.restarting = 8
place StatusFilter.updates = 9

-- `out[f]`
abbrev pub count_of : StatusFilter → List (StatusFilter × ℕ) → Option ℕ
count_of f [] = none
count_of f ((g, n) ∷ m) = if place f == place g then some n else count_of f m

-- `statusCounts` has an entry for every filter, and the entry is the number of the containers in
-- the list that the filter lets through.
count_of-status_counts :
    (list : List Container) (f : StatusFilter)
    → count_of f (status_counts list) ≡ some (length (filter (λ c. matches_status c f) list))
unfolding status_counts
count_of-status_counts list StatusFilter.all = refl
count_of-status_counts list _ = refl

-- Every container is running, restarting, paused, stopped or being removed, and only one of these:
-- the four counts and the number of those being removed add up to the length of the list.
count_status_partition :
    (list : List Container)
    → count_status list StatusFilter.running
        + count_status list StatusFilter.restarting
        + count_status list StatusFilter.paused
        + count_status list StatusFilter.stopped
        + length (filter (λ c. state_is c.state ContainerState.removing) list)
      ≡ length list
unfolding count_status
count_status_partition [] = refl
count_status_partition (c ∷ list) = ground (arith, count_status_partition list)

-- A container is ranked among the problems exactly if the filter for unhealthy containers or the
-- one for crashed containers shows it.
status_rank-zero_iff :
    (c : Container)
    → (status_rank c ≡ 0) ↔ (
        (matches_status c StatusFilter.unhealthy ≡ true)
        ⊎ (matches_status c StatusFilter.crashed ≡ true))
unfolding status_rank matches_status
status_rank-zero_iff c = ground arith
