-- ===== src/Containers.antt =====
-- web/lib/containerFilters.ts: the filter bar of a container list. The collation order of the
-- browser (`localeCompare`), its `toLowerCase` and its reading of a date are parameters; a date is
-- taken to milliseconds since the epoch.
pub mod Status
pub mod Order
pub mod Arranged
pub mod Visible
mod Tests
use app_dockhand.Base.{
  if◌then◌else◌, ℕ, ◌≡◌, Bool, true, false, ◌&&◌, ◌||◌, not, Option, none, some, List, [], ◌∷◌, map,
  Text, txt, text_eq, includes, is_empty, length, filter, ◌==◌, compare, Ordering,
}
use app_dockhand.Base.Sort.{Comparator, then_by, by_key, by_key_down, sort}
use app_dockhand.Types.Containers.{Container, ContainerState, Health}

pub data StatusFilter : Type 0 where
  all running healthy unhealthy starting stopped crashed paused restarting updates : StatusFilter

pub data SortKey : Type 0 where
  status name cpu mem newest oldest : SortKey

-- An entry of `STATUS_FILTERS`; `always` is false where the source leaves it out.
pub record FilterOption : Type 0 where
  pub value : StatusFilter
  pub label : Text
  pub color : Option Text
  pub always : Bool

abbrev pub option : StatusFilter → Text → Option Text → Bool → FilterOption
option value label color always = record {
  value = value;
  label = label;
  color = color;
  always = always;
}

abbrev pub status_filters : List FilterOption
status_filters =
    option StatusFilter.all (txt "All") none true
    ∷ option StatusFilter.running (txt "Running") (some (txt "#22a06b")) true
    ∷ option StatusFilter.healthy (txt "Healthy") (some (txt "#22a06b")) false
    ∷ option StatusFilter.unhealthy (txt "Unhealthy") (some (txt "#e2504c")) false
    ∷ option StatusFilter.starting (txt "Starting") (some (txt "#e0a020")) false
    ∷ option StatusFilter.restarting (txt "Restarting") (some (txt "#e0a020")) false
    ∷ option StatusFilter.paused (txt "Paused") (some (txt "#e0a020")) false
    ∷ option StatusFilter.stopped (txt "Stopped") (some (txt "#9aa1ad")) true
    ∷ option StatusFilter.crashed (txt "Crashed") (some (txt "#e2504c")) false
    ∷ option StatusFilter.updates (txt "Updates") (some (txt "#2f6fed")) false
    ∷ []

abbrev pub sorts : List (SortKey × Text)
sorts =
    (SortKey.status, txt "Status")
    ∷ (SortKey.name, txt "Name")
    ∷ (SortKey.cpu, txt "CPU")
    ∷ (SortKey.mem, txt "Memory")
    ∷ (SortKey.newest, txt "Newest")
    ∷ (SortKey.oldest, txt "Oldest")
    ∷ []

-- `c.state === s`
abbrev pub state_is : ContainerState → ContainerState → Bool
state_is ContainerState.running ContainerState.running = true
state_is ContainerState.exited ContainerState.exited = true
state_is ContainerState.paused ContainerState.paused = true
state_is ContainerState.restarting ContainerState.restarting = true
state_is ContainerState.created ContainerState.created = true
state_is ContainerState.dead ContainerState.dead = true
state_is ContainerState.removing ContainerState.removing = true
state_is _ _ = false

-- `c.health === h`
abbrev pub health_is : Health → Health → Bool
health_is Health.healthy Health.healthy = true
health_is Health.unhealthy Health.unhealthy = true
health_is Health.starting Health.starting = true
health_is Health.no_value Health.no_value = true
health_is _ _ = false

unfoldable pub matches_status : Container → StatusFilter → Bool
matches_status c StatusFilter.all = true
matches_status c StatusFilter.running = state_is c.state ContainerState.running
matches_status c StatusFilter.healthy =
    state_is c.state ContainerState.running && health_is c.health Health.healthy
matches_status c StatusFilter.unhealthy = health_is c.health Health.unhealthy
matches_status c StatusFilter.starting =
    state_is c.state ContainerState.running && health_is c.health Health.starting
matches_status c StatusFilter.restarting = state_is c.state ContainerState.restarting
matches_status c StatusFilter.paused = state_is c.state ContainerState.paused
matches_status c StatusFilter.stopped =
    state_is c.state ContainerState.exited
    || state_is c.state ContainerState.created
    || state_is c.state ContainerState.dead
matches_status c StatusFilter.crashed =
    state_is c.state ContainerState.dead
    || (state_is c.state ContainerState.exited && not (c.exit_code == 0))
matches_status c StatusFilter.updates = c.update.available

-- The number that `statusCounts` computes for one filter.
unfoldable pub count_status : List Container → StatusFilter → ℕ
unfolding matches_status
count_status list f = length (filter (λ c. matches_status c f) list)

-- `Record<StatusFilter, number>`, filled in the order of `STATUS_FILTERS`.
unfoldable pub status_counts : List Container → List (StatusFilter × ℕ)
unfolding count_status
status_counts list = map (λ (f : FilterOption). (f.value, count_status list f.value)) status_filters

unfoldable pub status_rank : Container → ℕ
status_rank c =
    if health_is c.health Health.unhealthy
      || state_is c.state ContainerState.dead
      || (state_is c.state ContainerState.exited && not (c.exit_code == 0))
    then 0
    else if state_is c.state ContainerState.restarting || health_is c.health Health.starting
    then 1
    else if state_is c.state ContainerState.running
    then 2
    else if state_is c.state ContainerState.paused
    then 3
    else 4

abbrev pub no_stack : Text
no_stack = txt "__none__"

pub record ContainerView : Type 0 where
  pub q : Text
  pub status : StatusFilter
  pub stack : Text
  pub sort : SortKey

-- `s ?? t`
abbrev pub coalesce : Option Text → Text → Text
coalesce none t = t
coalesce (some s) t = s

-- `inStack`
unfoldable pub in_stack : ContainerView → Container → Bool
in_stack v c =
    is_empty v.stack
    || (if text_eq v.stack no_stack then is_empty c.stack else text_eq c.stack v.stack)

module _ (to_lower : Text → Text) where
  unfoldable pub match_text : Container → Text → Bool
  match_text c q =
      let s = to_lower q in
      is_empty q
      || includes (to_lower c.name) s
      || includes (to_lower c.image) s
      || includes (to_lower c.stack) s
      || includes (to_lower c.status) s

  -- What `visibleContainers` keeps.
  unfoldable pub shown : ContainerView → Container → Bool
  unfolding in_stack matches_status match_text
  shown v c = in_stack v c && matches_status c v.status && match_text c v.q

module _ (epoch : Text → ℕ) where
  -- `time`: an empty text is falsy, so 0. `epoch` reads a date in milliseconds since 1970; a date that
  -- cannot be read, whose time is NaN, and one before 1970 are not modelled.
  unfoldable pub time : Text → ℕ
  time s = if is_empty s then 0 else epoch s

  -- `time(c.startedAt ?? c.createdAt)`
  unfoldable pub started : Container → ℕ
  unfolding time
  started c = time (coalesce c.started_at c.created_at)

-- `byName`
unfoldable pub by_name : (Text → Text → Ordering) → Comparator Container
by_name locale_compare a b = locale_compare a.name b.name

module _ (locale_compare : Text → Text → Ordering) (epoch : Text → ℕ) where
  -- The table of comparators inside `sortBy`.
  unfoldable pub cmp : SortKey → Comparator Container
  unfolding by_name
  cmp SortKey.status a b = then_by (by_key status_rank a b) (by_name locale_compare a b)
  cmp SortKey.name a b = by_name locale_compare a b
  cmp SortKey.cpu a b =
      then_by (by_key_down (λ (c : Container). c.cpu) a b) (by_name locale_compare a b)
  cmp SortKey.mem a b =
      then_by (by_key_down (λ (c : Container). c.mem_used) a b) (by_name locale_compare a b)
  cmp SortKey.newest a b = then_by (by_key_down (started epoch) a b) (by_name locale_compare a b)
  cmp SortKey.oldest a b = then_by (by_key (started epoch) a b) (by_name locale_compare a b)

  unfoldable pub sort_by : List Container → SortKey → List Container
  unfolding cmp sort
  sort_by list key = sort (cmp key) list

  unfoldable pub visible_containers :
      (Text → Text) → List Container → ContainerView → List Container
  unfolding sort_by shown
  visible_containers to_lower list v = sort_by (filter (shown to_lower v) list) v.sort
