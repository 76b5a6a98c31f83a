-- ===== src/Resources.antt =====
-- web/app/(app)/resources/page.tsx: what the page of all resources takes from its address, and how it
-- changes it. The table of the filters and its sorts are those of the containers.
mod Tests
mod View
pub mod Rows
pub mod Selection
pub mod Page
pub mod Groups
pub mod Bulk
use mathlib.Core.Option
use app_dockhand.Base.{
  List, Text, Option, ◌∷◌, txt, find, if◌then◌else◌, [], text_eq, not, some, ◌++◌, is_empty, ◌&&◌,
}
use app_dockhand.Containers.{
  StatusFilter, SortKey, ContainerView, FilterOption, status_filters, sorts,
}
use app_dockhand.Machines.Params.{SearchParams, get, set, delete}
use mathlib.Core.Option.{none}

pub data ResourceTab : Type 0 where
  containers stacks images volumes networks : ResourceTab

abbrev pub resource_tabs : List ResourceTab
resource_tabs =
    ResourceTab.containers ∷ ResourceTab.stacks ∷ ResourceTab.images ∷ ResourceTab.volumes
    ∷ ResourceTab.networks ∷ []

-- The values as texts.
abbrev pub tab_value : ResourceTab → Text
tab_value ResourceTab.containers = txt "containers"
tab_value ResourceTab.stacks = txt "stacks"
tab_value ResourceTab.images = txt "images"
tab_value ResourceTab.volumes = txt "volumes"
tab_value ResourceTab.networks = txt "networks"

abbrev pub status_value : StatusFilter → Text
status_value StatusFilter.all = txt "all"
status_value StatusFilter.running = txt "running"
status_value StatusFilter.healthy = txt "healthy"
status_value StatusFilter.unhealthy = txt "unhealthy"
status_value StatusFilter.starting = txt "starting"
status_value StatusFilter.stopped = txt "stopped"
status_value StatusFilter.crashed = txt "crashed"
status_value StatusFilter.paused = txt "paused"
status_value StatusFilter.restarting = txt "restarting"
status_value StatusFilter.updates = txt "updates"

abbrev pub sort_value : SortKey → Text
sort_value SortKey.status = txt "status"
sort_value SortKey.name = txt "name"
sort_value SortKey.cpu = txt "cpu"
sort_value SortKey.mem = txt "mem"
sort_value SortKey.newest = txt "newest"
sort_value SortKey.oldest = txt "oldest"

-- `TABS.includes(t) ? t : "containers"`, and so for the filters and the sorts.
unfoldable pub tab_named : Text → ResourceTab
tab_named t = elim (find (λ x. text_eq (tab_value x) t) resource_tabs) [
  | none ↦ ResourceTab.containers
  | some x ↦ x
]

unfoldable pub status_named : Text → StatusFilter
status_named t =
    elim (find (λ (f : FilterOption). text_eq (status_value f.value) t) status_filters) [
      | none ↦ StatusFilter.all
      | some f ↦ f.value
    ]

unfoldable pub sort_named : Text → SortKey
sort_named t = elim (find (λ (s : SortKey × Text). text_eq (sort_value s.0) t) sorts) [
  | none ↦ SortKey.status
  | some s ↦ s.0
]

-- `params.get(k) ?? ""`; where the source tests for `null`, an empty text is no name either.
abbrev pub param : Text → SearchParams → Text
param k q = elim (get k q) [ none ↦ [] | some v ↦ v ]

unfoldable pub resource_tab : SearchParams → ResourceTab
resource_tab q = tab_named (param (txt "tab") q)

-- `view`
unfoldable pub view_of : SearchParams → ContainerView
view_of q = record {
  q = param (txt "q") q;
  status = status_named (param (txt "status") q);
  stack = param (txt "stack") q;
  sort = sort_named (param (txt "sort") q);
}

-- The value that the address leaves out.
abbrev pub default_of : Text → Text
default_of k =
    if text_eq k (txt "status")
    then txt "all"
    else if text_eq k (txt "sort")
    then txt "status"
    else if text_eq k (txt "tab")
    then txt "containers"
    else []

-- One round of the loop of `setParams`.
unfoldable pub set_param : Text × Text → SearchParams → SearchParams
set_param e q =
    if not (is_empty e.1) && not (text_eq e.1 (default_of e.0)) then set e.0 e.1 q else delete e.0 q

unfoldable pub set_params : List (Text × Text) → SearchParams → SearchParams
set_params [] q = q
set_params (e ∷ es) q = set_params es (set_param e q)

-- `Partial<ContainerView>`
pub record ViewPatch : Type 0 where
  pub q : Option Text
  pub status : Option StatusFilter
  pub stack : Option Text
  pub sort : Option SortKey

-- `[k, String(v)]` for a field that is there.
abbrev pub entry : Text → Option Text → List (Text × Text)
entry k none = []
entry k (some v) = (k, v) ∷ []

abbrev pub entries : ViewPatch → List (Text × Text)
entries p =
    entry (txt "q") p.q
    ++ (entry (txt "status") (Option.map status_value p.status)
        ++ (entry (txt "stack") p.stack ++ entry (txt "sort") (Option.map sort_value p.sort)))

unfoldable pub set_view : ViewPatch → SearchParams → SearchParams
set_view p q = set_params (entries p) q

-- The tabs' `onChange`.
abbrev pub tab_entries : ResourceTab → List (Text × Text)
tab_entries t =
    (txt "tab", tab_value t)
    ∷ (txt "only", [])
    ∷ (txt "stack", [])
    ∷ (txt "status", [])
    ∷ (txt "sort", [])
    ∷ []

unfoldable pub set_tab : ResourceTab → SearchParams → SearchParams
set_tab t q = set_params (tab_entries t) q
