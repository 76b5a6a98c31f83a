-- ===== src/Resources/Selection.antt =====
-- What is selected on the page of all resources.

-- No container is selected twice, and each that is selected is one of those that are loaded.
use app_dockhand.Resources.{view_of}
use app_dockhand.Resources.Bulk.{start, stop, restart, bulk, BulkAction, HostReply}
use app_dockhand.Resources.Page.{
  Page, prune_selected, toggle, loaded, PageEvent, page_step, hosts_loaded, shown_ctrs,
  containers_loaded, page_run, view_set, start_page, host_set, tab_set, toggled, acted,
  all_selected, cleared,
}
use app_dockhand.Base.{
  Text, List, Bool, All, Ordering, map, length, ℕ, filter, ◌≡◌, ◌∷◌, Bool-cases, true, inl, arith,
  ◌==◌, All-filter, inr, ==_iff, text_eq_refl, not, length-filter-le, All-filter_self, All-map,
  text_eq, All-append,
}
use app_dockhand.Base.Sets.{
  has, IsDistinct, IsDistinct-filter, IsDistinct-snoc, has-All, add_all-IsDistinct, add_all-All,
}
use app_dockhand.Types.Containers.{Container}
use app_dockhand.Resources.Bulk.{sel_key}
use app_dockhand.Containers.{visible_containers, sort_by, cmp}
use app_dockhand.Machines.Params.{SearchParams}
use mathlib.Core.List.{[]}
use app_dockhand.Base.Sort.{sort-All}
use app_dockhand.Types.Hosts.{Host}
use mathlib.Core.Bool.{false}

pub record IsWell (p : Page) : Type 0 where
  pub distinct : IsDistinct p.selected
  pub present : All (λ k. has k (map sel_key (loaded p.containers)) ≡ true) p.selected

-- A filter that drops nothing has met only members that pass.
filter_full :
    (q : Text → Bool) (s : List Text) → length (filter q s) ≡ length s → All (λ k. q k ≡ true) s
filter_full q [] h = tt
filter_full q (k ∷ s) h = elim (Bool-cases (q k)) [
  | inl e ↦ (e, filter_full q s (ground arith))
  | inr e ↦ absurd (ground (arith, length-filter-le q s))
]

pruned :
    (cs : List Container) (s : List Text)
    → IsDistinct s
    → IsDistinct (prune_selected cs s)
      × All (λ k. has k (map sel_key cs) ≡ true) (prune_selected cs s)
pruned cs s d =
    let q = λ (k : Text). has k (map sel_key cs) in
    elim (Bool-cases (length (filter q s) == length s)) [
      | inl e ↦ rw e (d, filter_full q s ((==_iff _ _).0 e))
      | inr e ↦ rw e (IsDistinct-filter q s d, All-filter_self q s)
    ]

own_keys : (cs : List Container) → All (λ c. has (sel_key c) (map sel_key cs) ≡ true) cs
unfolding has
own_keys [] = tt
own_keys (c ∷ cs) = (
  ground (arith, text_eq_refl (sel_key c)),
  All-map (λ d. has (sel_key d) (map sel_key cs) ≡ true)
      (λ d. has (sel_key d) (map sel_key (c ∷ cs)) ≡ true) (λ d h. ground arith) cs (own_keys cs),
)

All_image :
    (P : Text → Type 0) (cs : List Container) → All (λ c. P (sel_key c)) cs → All P (map sel_key cs)
All_image P [] h = tt
All_image P (c ∷ cs) (p, h) = (p, All_image P cs h)

toggle-IsDistinct : (k : Text) (s : List Text) → IsDistinct s → IsDistinct (toggle k s)
toggle-IsDistinct k s h = elim (Bool-cases (has k s)) [
  | inl e ↦ rw e (IsDistinct-filter (λ x. not (text_eq x k)) s h)
  | inr e ↦ rw e (IsDistinct-snoc k s h e)
]

toggle-All : (P : Text → Type 0) (k : Text) (s : List Text) → P k → All P s → All P (toggle k s)
toggle-All P k s p h = elim (Bool-cases (has k s)) [
  | inl e ↦ rw e (All-filter P (λ x. not (text_eq x k)) s h)
  | inr e ↦ rw e (All-append P s (k ∷ []) h (p, tt))
]

-- After an action the selection is empty, or as it was.
rest-bulk :
    (P : List Text → Type 0) (a : BulkAction) (consent : Bool) (hosts : List Host)
    (cs : List Container) (s : List Text) (rs : List (Text × HostReply))
    → P []
    → P s
    → P (bulk a consent hosts cs s rs).1
unfolding bulk
rest-bulk P start consent hosts cs s rs n h = n
rest-bulk P restart consent hosts cs s rs n h = n
rest-bulk P stop true hosts cs s rs n h = n
rest-bulk P stop false hosts cs s rs n h = h

module _ (locale_compare : Text → Text → Ordering) (epoch : Text → ℕ) (to_lower : Text → Text) where
  abbrev step_here : PageEvent → Page → Page
  step_here = page_step locale_compare epoch to_lower

  shown-present :
      (p : Page)
      → All
          (λ k. has k (map sel_key (loaded p.containers)) ≡ true)
          (map sel_key (shown_ctrs locale_compare epoch to_lower p))
  unfolding visible_containers sort_by
  shown-present p =
      let P = λ (c : Container). has (sel_key c) (map sel_key (loaded p.containers)) ≡ true in
      All_image _ (shown_ctrs locale_compare epoch to_lower p) (
        sort-All (cmp locale_compare epoch (view_of p.params).sort) P _
          (All-filter P _ _ (All-filter P _ _ (own_keys (loaded p.containers)))))

  page_step-IsWell : (e : PageEvent) (p : Page) → IsWell p → IsWell (step_here e p)
  unfolding page_step
  page_step-IsWell (hosts_loaded hs) p w = record { distinct = w.distinct; present = w.present }
  page_step-IsWell (containers_loaded cs) p w =
      let (d, a) = pruned cs p.selected w.distinct in record { distinct = d; present = a }
  page_step-IsWell (view_set v) p w = record { distinct = w.distinct; present = w.present }
  page_step-IsWell (host_set h) p w = record { distinct = w.distinct; present = w.present }
  page_step-IsWell (tab_set t) p w = record { distinct = tt; present = tt }
  page_step-IsWell (toggled c) p w =
      elim (Bool-cases
        (has (sel_key c) (map sel_key (shown_ctrs locale_compare epoch to_lower p)))) [
          | inl e ↦ rw e (record {
            distinct = toggle-IsDistinct (sel_key c) p.selected w.distinct;
            present =
                toggle-All _ (sel_key c) p.selected (has-All _ (sel_key c) _ e (shown-present p))
                  w.present;
          })
          | inr e ↦ rw e w
        ]
  page_step-IsWell all_selected p w = record {
    distinct = add_all-IsDistinct (map sel_key (shown_ctrs locale_compare epoch to_lower p)) [] tt;
    present = add_all-All _ _ [] (shown-present p) tt;
  }
  page_step-IsWell cleared p w = record { distinct = tt; present = tt }
  page_step-IsWell (acted a consent rs) p w = record {
    distinct = rest-bulk IsDistinct a consent _ _ p.selected rs tt w.distinct;
    present =
        rest-bulk (All (λ k. has k (map sel_key (loaded p.containers)) ≡ true)) a consent _ _
          p.selected rs tt w.present;
  }

  page_run-from :
      (es : List PageEvent) (p : Page)
      → IsWell p
      → IsWell (page_run locale_compare epoch to_lower es p)
  unfolding page_run
  page_run-from [] p w = w
  page_run-from (e ∷ es) p w = page_run-from es (step_here e p) (page_step-IsWell e p w)

  -- Whatever is loaded, filtered, selected and done, from the start on: no container is selected twice,
  -- and each that is selected is one of those that are loaded.
  pub page_run-IsWell :
      (es : List PageEvent) (q : SearchParams)
      → IsWell (page_run locale_compare epoch to_lower es (start_page q))
  page_run-IsWell es q = page_run-from es (start_page q) (record { distinct = tt; present = tt })
