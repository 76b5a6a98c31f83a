-- ===== src/Resources/Page.antt =====
-- The page of all resources as a state machine: what is loaded, the address, and the selection.
use app_dockhand.Base.{
  Option, List, Text, none, [], if◌then◌else◌, Ordering, some, filter, ℕ, any, map, ◌∷◌, text_eq,
  length, Bool, ◌==◌, txt, ◌&&◌, is_empty, ◌||◌,
}
use app_dockhand.Machines.Params.{SearchParams}
use app_dockhand.Types.Hosts.{Host}
use app_dockhand.Types.Containers.{Container}
use app_dockhand.Resources.{ViewPatch, ResourceTab, set_view, param, view_of, set_tab, set_params}
use app_dockhand.Base.Sets.{has, remove, add, to_set}
use app_dockhand.Containers.{visible_containers}
use app_dockhand.Resources.Bulk.{sel_key, BulkAction, HostReply, bulk}

pub record Page : Type 0 where
  pub hosts : Option (List Host)
  pub containers : Option (List Container)
  pub params : SearchParams
  pub selected : List Text

pub data PageEvent : Type 0 where
  hosts_loaded : List Host → PageEvent
  containers_loaded : List Container → PageEvent
  view_set : ViewPatch → PageEvent
  host_set : Text → PageEvent
  tab_set : ResourceTab → PageEvent
  toggled : Container → PageEvent
  all_selected : PageEvent
  cleared : PageEvent
  acted : BulkAction → Bool → List (Text × HostReply) → PageEvent

abbrev pub start_page : SearchParams → Page
start_page q = record { hosts = none; containers = none; params = q; selected = [] }

-- `xs ?? []`
abbrev pub loaded : {A : Type 0} → Option (List A) → List A
loaded none = []
loaded (some xs) = xs

-- `hostCtrs`
abbrev pub host_ctrs : List Host → Text → List Container → List Container
host_ctrs hosts host_f cs =
    filter
      (λ c.
        any (λ (h : Host). text_eq h.id c.host_id) hosts
        && (is_empty host_f || text_eq c.host_id host_f))
      cs

-- The effect that drops what is no longer there.
abbrev pub prune_selected : List Container → List Text → List Text
prune_selected cs selected =
    let keep = filter (λ k. has k (map sel_key cs)) selected in
    if length keep == length selected then selected else keep

-- `toggle`
abbrev pub toggle : Text → List Text → List Text
toggle k s = if has k s then remove k s else add k s

module _ (locale_compare : Text → Text → Ordering) (epoch : Text → ℕ) (to_lower : Text → Text) where
  -- The containers whose cards are shown.
  abbrev pub shown_ctrs : Page → List Container
  shown_ctrs p =
      visible_containers locale_compare epoch to_lower
        (host_ctrs (loaded p.hosts) (param (txt "host") p.params) (loaded p.containers))
        (view_of p.params)

  -- A card is there to be toggled only where it is shown.
  abbrev pub toggle_card : Container → Page → Page
  toggle_card c p =
      if has (sel_key c) (map sel_key (shown_ctrs p))
      then record p { selected = toggle (sel_key c) p.selected }
      else p

  unfoldable pub page_step : PageEvent → Page → Page
  page_step (hosts_loaded hs) p = record p { hosts = some hs }
  page_step (containers_loaded cs) p = record p {
    containers = some cs;
    selected = prune_selected cs p.selected;
  }
  page_step (view_set v) p = record p { params = set_view v p.params }
  page_step (host_set h) p = record p { params = set_params ((txt "host", h) ∷ []) p.params }
  page_step (tab_set t) p = record p { params = set_tab t p.params; selected = [] }
  page_step (toggled c) p = toggle_card c p
  page_step all_selected p = record p { selected = to_set (map sel_key (shown_ctrs p)) }
  page_step cleared p = record p { selected = [] }
  page_step (acted a consent replies) p = record p {
    selected = (bulk a consent (loaded p.hosts) (loaded p.containers) p.selected replies).1;
  }

  unfoldable pub page_run : List PageEvent → Page → Page
  page_run [] p = p
  page_run (e ∷ es) p = page_run es (page_step e p)
