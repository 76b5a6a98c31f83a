-- ===== src/Resources/Tests.antt =====
-- Containers on two hosts and an address to try the page of all resources on, and the theorems applied
-- to them.
use app_dockhand.Resources.{set_params, set_param}
use app_dockhand.Types.Containers.{Container, ContainerState, Health}
use mathlib.Core.List.{[], ◌∷◌}
use app_dockhand.Base.{
  refl, Text, List, txt, some, ◌≡◌, text_eq, Ordering, length, ◌∷◌, [], none, true, false,
}
use app_dockhand.Resources.Bulk.{
  stop, group_all, HostReply, group_add, rejected, by_host, bulk, picked,
}
use app_dockhand.Resources.{ViewPatch, set_view, view_of, StatusFilter, SortKey}
use app_dockhand.Machines.Params.{SearchParams, set, delete}
use app_dockhand.Base.Sets.{IsDistinct, has}
use app_dockhand.Resources.Selection.{IsWell, page_run-IsWell}
use app_dockhand.Resources.Groups.{hosts_of, requested, on_host, ids_of, requested-bulk}
use app_dockhand.Resources.Page.{
  PageEvent, page_run, containers_loaded, toggled, start_page, all_selected,
}
use app_dockhand.Resources.View.{patched, view_of-set_view}

abbrev on : Text → Text → Container
on host name = record {
  id = name;
  short_id = name;
  host_id = host;
  name = name;
  image = txt "nginx:1";
  image_id = [];
  state = ContainerState.running;
  status = [];
  health = Health.healthy;
  exit_code = 0;
  stack = [];
  service = [];
  cpu = 5;
  mem_used = 10;
  mem_limit = 20;
  ports = [];
  created_at = txt "2026-01-01";
  started_at = none;
  finished_at = none;
  update = record { available = false; tag = []; checked_at = none };
}

abbrev three : List Container
three = on (txt "h1") (txt "web") ∷ on (txt "h2") (txt "db") ∷ on (txt "h1") (txt "job") ∷ []

abbrev two_keys : List Text
two_keys = txt "h1/job" ∷ txt "h1/web" ∷ []

abbrev replies : List (Text × HostReply)
replies = (txt "h1", rejected (txt "timeout")) ∷ []

abbrev crashed_named : ViewPatch
crashed_named = record {
  q = some (txt "web");
  status = some StatusFilter.crashed;
  stack = none;
  sort = some SortKey.status;
}

abbrev address : SearchParams
address =
    (txt "tab", txt "images")
    ∷ (txt "sort", txt "cpu")
    ∷ (txt "stack", txt "shop")
    ∷ (txt "q", txt "d")
    ∷ []

written :
    set_view crashed_named address
    ≡ (txt "tab", txt "images")
      ∷ (txt "stack", txt "shop")
      ∷ (txt "q", txt "web")
      ∷ (txt "status", txt "crashed")
      ∷ []
unfolding set_view set_params set_param text_eq set delete
written = refl

view_of-set_view_example :
    view_of (set_view crashed_named address) ≡ patched crashed_named (view_of address)
view_of-set_view_example = view_of-set_view crashed_named address

grouped : by_host three ≡ (txt "h1", txt "web" ∷ txt "job" ∷ []) ∷ (txt "h2", txt "db" ∷ []) ∷ []
unfolding group_all group_add text_eq
grouped = refl

requested-bulk_example :
    IsDistinct (hosts_of (requested (bulk stop true [] three two_keys replies).0))
    × (ids_of (txt "h1") (requested (bulk stop true [] three two_keys replies).0)
        ≡ on_host (txt "h1") (picked three two_keys))
    × ((bulk stop true [] three two_keys replies).1 ≡ [])
requested-bulk_example = requested-bulk stop true [] three two_keys replies (txt "h1")

asked_ids : on_host (txt "h1") (picked three two_keys) ≡ txt "web" ∷ txt "job" ∷ []
unfolding has text_eq
asked_ids = refl

abbrev no_order : Text → Text → Ordering
no_order a b = Ordering.eq

abbrev same : Text → Text
same s = s

abbrev visit : List PageEvent
visit =
    containers_loaded three
    ∷ toggled (on (txt "h1") (txt "web"))
    ∷ all_selected
    ∷ containers_loaded (on (txt "h1") (txt "web") ∷ [])
    ∷ []

page_run-IsWell_example : IsWell (page_run no_order length same visit (start_page address))
page_run-IsWell_example = page_run-IsWell no_order length same visit address
