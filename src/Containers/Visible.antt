-- ===== src/Containers/Visible.antt =====
-- Which containers a view shows.
use mathlib.Core.List.{Mem}
use mathlib.Core.List.Perm
use app_dockhand.Base.{
  ℕ, ◌≡◌, ◌≢◌, ◌↔◌, ◌⊎◌, true, List, [], Text, arith, Ordering, mem-filter, filter, text_eq_iff,
}
use app_dockhand.Base.Sort.{sort-perm}
use app_dockhand.Types.Containers.{Container}
use app_dockhand.Containers.{
  ContainerView, no_stack, in_stack, matches_status, match_text, shown, cmp, sort_by,
  visible_containers,
}

-- What the stack of a view selects: "" everything, `NO_STACK` the containers outside compose, any
-- other text the stack of that name.
abbrev pub Selects : Text → Text → Type 0
Selects wanted stack =
    (wanted ≡ []) ⊎ ((wanted ≡ no_stack) × (stack ≡ [])) ⊎ ((wanted ≢ no_stack) × (stack ≡ wanted))

in_stack_iff : (v : ContainerView) (c : Container) → (in_stack v c ≡ true) ↔ Selects v.stack c.stack
unfolding in_stack
in_stack_iff v c = ground (arith, text_eq_iff v.stack no_stack, text_eq_iff c.stack v.stack)

module _ (locale_compare : Text → Text → Ordering) (epoch : Text → ℕ) (to_lower : Text → Text) where
  shown_iff :
      (v : ContainerView) (c : Container)
      → (shown to_lower v c ≡ true) ↔ (
          Selects v.stack c.stack
          × (matches_status c v.status ≡ true)
          × (match_text to_lower c v.q ≡ true))
  unfolding shown
  shown_iff v c = ground (arith, in_stack_iff v c)

  -- A view shows exactly the containers of the list that its stack, its status and its text all
  -- select, whatever it sorts by.
  pub mem-visible_containers :
      (list : List Container) (v : ContainerView) (c : Container)
      → Mem c (visible_containers locale_compare epoch to_lower list v) ↔ (
          Mem c list
          × (Selects v.stack c.stack
              × (matches_status c v.status ≡ true)
              × (match_text to_lower c v.q ≡ true)))
  unfolding visible_containers sort_by
  mem-visible_containers list v c =
      let p =
        Perm.mem_iff {a = c}
          (sort-perm (cmp locale_compare epoch v.sort) (filter (shown to_lower v) list)) in
      let f = mem-filter (shown to_lower v) c list in
      let s = shown_iff v c in
      (λ m. ((f.0 (p.0 m)).0, s.0 (f.0 (p.0 m)).1), λ m. p.1 (f.1 (m.0, s.1 m.1)))
