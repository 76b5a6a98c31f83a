-- ===== src/Containers/Tests.antt =====
-- Containers to try the filters on, and the theorems applied to them.
use mathlib.Core.List.{Perm, Mem}
use app_dockhand.Base.{
  ℕ, ◌≡◌, refl, ◌↔◌, true, false, none, List, [], ◌∷◌, Text, txt, length, text_eq, includes,
}
use app_dockhand.Base.Sort.{text_compare, text_compare-IsConsistent}
use app_dockhand.Types.Containers.{Container, ContainerState, Health}
use app_dockhand.Containers.{
  StatusFilter, SortKey, ContainerView, matches_status, sort_by, visible_containers, status_rank,
  match_text,
}
use app_dockhand.Containers.Arranged.{sort_by-IsArranged, IsArranged}
use app_dockhand.Containers.Visible.{Selects, mem-visible_containers}

abbrev sample : Text → ContainerState → Health → ℕ → Text → Container
sample name state health code stack = record {
  id = name;
  short_id = name;
  host_id = txt "h1";
  name = name;
  image = txt "nginx:1";
  image_id = [];
  state = state;
  status = [];
  health = health;
  exit_code = code;
  stack = stack;
  service = [];
  cpu = 5;
  mem_used = 10;
  mem_limit = 20;
  ports = [];
  created_at = txt "2026-01-01";
  started_at = none;
  finished_at = none;
  update = record { available = false; tag = []; checked_at = none };
}

abbrev web : Container
web = sample (txt "web") ContainerState.running Health.healthy 0 (txt "shop")

abbrev batch : Container
batch = sample (txt "batch") ContainerState.exited Health.no_value 137 []

abbrev db : Container
db = sample (txt "db") ContainerState.running Health.starting 0 (txt "shop")

abbrev fleet : List Container
fleet = web ∷ batch ∷ db ∷ []

abbrev view : ContainerView
view = record {
  q = txt "ng";
  status = StatusFilter.running;
  stack = txt "shop";
  sort = SortKey.name;
}

abbrev same : Text → Text
same s = s

by_status : sort_by text_compare length fleet SortKey.status ≡ batch ∷ db ∷ web ∷ []
unfolding sort_by status_rank text_compare
by_status = refl

viewed : visible_containers text_compare length same fleet view ≡ db ∷ web ∷ []
unfolding visible_containers text_compare text_eq includes
viewed = refl

sort_by-IsArranged_example :
    Perm (sort_by text_compare length fleet SortKey.cpu) fleet
    × IsArranged text_compare length SortKey.cpu (sort_by text_compare length fleet SortKey.cpu)
sort_by-IsArranged_example = sort_by-IsArranged length text_compare-IsConsistent fleet SortKey.cpu

mem-visible_containers_example :
    Mem web (visible_containers text_compare length same fleet view) ↔ (
      Mem web fleet
      × (Selects (txt "shop") (txt "shop")
          × (matches_status web StatusFilter.running ≡ true)
          × (match_text same web (txt "ng") ≡ true)))
mem-visible_containers_example = mem-visible_containers text_compare length same fleet view web
