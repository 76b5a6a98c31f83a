-- ===== src/Resources/Groups.antt =====
-- Whom an action on the selected containers reaches.

-- The hosts of the groups, and the containers of one.
use app_dockhand.Base.Sets.{has, IsDistinct}
use app_dockhand.Base.{refl, true, false, text_eq_sound, length, Bool, not}
use mathlib.Core.List.{append-nil, append_assoc}
use app_dockhand.Base.{
  List, Text, map, ◌∷◌, ◌≡◌, ℕ, if◌then◌else◌, ◌++◌, filter, text_eq, Bool-cases, [], sym, ◌||◌,
  inl, ap, is_empty, arith, inr, text_eq_iff, ◌∙◌,
}
use app_dockhand.Resources.Bulk.{
  start, stop, restart, group_add, group_all, BulkAction, BulkEffect, request, bulk_toast,
  HostReply, ask, run_bulk, prune, by_host, toast, invalidate, bulk, tally, is_stop, picked,
  cleanup, targets, cleanup_jobs,
}
use app_dockhand.Types.Containers.{Container}
use app_dockhand.Types.Hosts.{Host}
use mathlib.Core.List.{[], append-nil, append_assoc}

abbrev pub hosts_of : List (Text × List Text) → List Text
hosts_of gs = map (λ (g : Text × List Text). g.0) gs

unfoldable pub ids_of : Text → List (Text × List Text) → List Text
ids_of h [] = []
ids_of h (g ∷ gs) = if text_eq g.0 h then g.1 else ids_of h gs

ids_of-group_add :
    (k id h : Text) (gs : List (Text × List Text))
    → ids_of h (group_add k id gs) ≡ ids_of h gs ++ (if text_eq k h then id ∷ [] else [])
unfolding ids_of group_add
ids_of-group_add k id h [] = ground arith
ids_of-group_add k id h ((j, ids) ∷ gs) = elim (Bool-cases (text_eq j k)) [
  | inl e ↦
      rw (e, text_eq_sound j k e)
        (elim (Bool-cases (text_eq k h)) [ inl p ↦ rw p | inr p ↦ rw (p, append-nil) ])
  | inr e ↦ rw e (elim (Bool-cases (text_eq j h)) [
    | inl p ↦
        let off : text_eq k h ≡ false =
          ground (arith, text_eq_iff j k, text_eq_iff j h, text_eq_iff k h) in
        rw (p, off, append-nil)
    | inr p ↦ rw p (ids_of-group_add k id h gs)
  ])
]

-- The ids of the containers on a host, in order.
abbrev pub on_host : Text → List Container → List Text
on_host h cs = map (λ (c : Container). c.id) (filter (λ (c : Container). text_eq c.host_id h) cs)

ids_of-group_all :
    (h : Text) (cs : List Container) (gs : List (Text × List Text))
    → ids_of h (group_all cs gs) ≡ ids_of h gs ++ on_host h cs
unfolding group_all
ids_of-group_all h [] gs = sym (append-nil (ids_of h gs))
ids_of-group_all h (c ∷ cs) gs =
    ids_of-group_all h cs (group_add c.host_id c.id gs)
    ∙ rw (ids_of-group_add c.host_id c.id h gs) (elim (Bool-cases (text_eq c.host_id h)) [
      | inl e ↦ rw e (append_assoc (ids_of h gs) (c.id ∷ []) (on_host h cs))
      | inr e ↦ rw (e, append-nil)
    ])

has-group_add :
    (k id h : Text) (gs : List (Text × List Text))
    → has h (hosts_of (group_add k id gs)) ≡ (text_eq k h || has h (hosts_of gs))
unfolding has group_add
has-group_add k id h [] = refl
has-group_add k id h (g ∷ gs) =
    ground (arith, has-group_add k id h gs, text_eq_iff g.0 k, text_eq_iff g.0 h, text_eq_iff k h)

group_add-IsDistinct :
    (k id : Text) (gs : List (Text × List Text))
    → IsDistinct (hosts_of gs)
    → IsDistinct (hosts_of (group_add k id gs))
unfolding group_add
group_add-IsDistinct k id [] h = unfold has in (refl, tt)
group_add-IsDistinct k id (g ∷ gs) (n, h) = elim (Bool-cases (text_eq g.0 k)) [
  | inl e ↦ rw e (n, h)
  | inr e ↦ rw e (
    ground (arith, has-group_add k id g.0 gs, text_eq_iff g.0 k, text_eq_iff k g.0),
    group_add-IsDistinct k id gs h,
  )
]

group_all-IsDistinct :
    (cs : List Container) (gs : List (Text × List Text))
    → IsDistinct (hosts_of gs)
    → IsDistinct (hosts_of (group_all cs gs))
unfolding group_all
group_all-IsDistinct [] gs h = h
group_all-IsDistinct (c ∷ cs) gs h =
    group_all-IsDistinct cs (group_add c.host_id c.id gs) (group_add-IsDistinct c.host_id c.id gs h)

-- The requests among effects, each with its host.
unfoldable pub requested : List BulkEffect → List (Text × List Text)
requested [] = []
requested (request h ids action ∷ es) = (h, ids) ∷ requested es
requested (ask _ _ ∷ es) = requested es
requested (prune _ _ ∷ es) = requested es
requested (toast _ _ _ ∷ es) = requested es
requested (invalidate _ ∷ es) = requested es

requested-map :
    (action : BulkAction) (gs : List (Text × List Text)) (es : List BulkEffect)
    → requested (map (λ (g : Text × List Text). request g.0 g.1 action) gs ++ es)
      ≡ gs ++ requested es
unfolding requested
requested-map action [] es = refl
requested-map action (g ∷ gs) es = ap (λ r. g ∷ r) (requested-map action gs es)

requested-toast :
    (action : BulkAction) (m n : ℕ) (t : ℕ × List Text) (es : List BulkEffect)
    → requested (bulk_toast action m n t ∷ es) ≡ requested es
unfolding requested
requested-toast action m n t es = elim (Bool-cases (is_empty t.1)) [ inl e ↦ rw e | inr e ↦ rw e ]

requested-run_bulk :
    (action : BulkAction) (hosts : List Host) (cs : List Container) (rs : List (Text × HostReply))
    → requested (run_bulk action hosts cs rs) ≡ by_host cs
requested-run_bulk action hosts cs rs =
    requested-map action (by_host cs) _
    ∙ ap (λ es. by_host cs ++ es)
        (requested-toast action (length cs) (length (by_host cs)) (tally hosts rs (0, [])) _)
    ∙ unfold requested in append-nil (by_host cs)

-- What the requests of a run ask for.
asked :
    (action : BulkAction) (hosts : List Host) (cs : List Container) (rs : List (Text × HostReply))
    (h : Text)
    → IsDistinct (hosts_of (requested (run_bulk action hosts cs rs)))
      × (ids_of h (requested (run_bulk action hosts cs rs)) ≡ on_host h cs)
asked action hosts cs rs h =
    rw (requested-run_bulk action hosts cs rs)
      (group_all-IsDistinct cs [] tt, unfold ids_of in ids_of-group_all h cs [])

-- With consent where it asks, an action asks each host at most once, and of each host exactly the
-- selected containers that are on it, in the order of the list; nothing is selected afterwards.
-- Without consent to stop, it requests nothing, and the selection stays.
pub requested-bulk :
    (action : BulkAction) (consent : Bool) (hosts : List Host) (cs : List Container)
    (selected : List Text) (rs : List (Text × HostReply)) (h : Text)
    → let (es, rest) = bulk action consent hosts cs selected rs in
      let allowed = not (is_stop action) || consent in
      IsDistinct (hosts_of (requested es))
      × (ids_of h (requested es) ≡ (if allowed then on_host h (picked cs selected) else []))
      × (rest ≡ (if allowed then [] else selected))
unfolding bulk requested ids_of
requested-bulk start consent hosts cs selected rs h =
    let (d, e) = asked start hosts (picked cs selected) rs h in (d, e, refl)
requested-bulk restart consent hosts cs selected rs h =
    let (d, e) = asked restart hosts (picked cs selected) rs h in (d, e, refl)
requested-bulk stop true hosts cs selected rs h =
    let (d, e) = asked stop hosts (picked cs selected) rs h in (d, e, refl)
requested-bulk stop false hosts cs selected rs h = (tt, refl, refl)

-- The hosts whose cleaning up is asked for.
unfoldable pub pruned : List BulkEffect → List Text
pruned [] = []
pruned (prune id name ∷ es) = id ∷ pruned es
pruned (ask _ _ ∷ es) = pruned es
pruned (request _ _ _ ∷ es) = pruned es
pruned (toast _ _ _ ∷ es) = pruned es
pruned (invalidate _ ∷ es) = pruned es

pruned-map :
    (hs : List Host)
    → pruned (map (λ (h : Host). prune h.id h.name) hs) ≡ map (λ (h : Host). h.id) hs
unfolding pruned
pruned-map [] = refl
pruned-map (h ∷ hs) = ap (λ r. h.id ∷ r) (pruned-map hs)

-- Cleaning up starts one job for each host of the filter that can be reached, and none without consent.
pub pruned-cleanup :
    (consent : Bool) (hosts : List Host) (host_f : Text)
    → pruned (cleanup consent hosts host_f)
      ≡ (if consent then map (λ (h : Host). h.id) (targets hosts host_f) else [])
unfolding cleanup
pruned-cleanup consent hosts host_f = jobs consent (targets hosts host_f)
  where
    jobs :
        (consent : Bool) (hs : List Host)
        → pruned (cleanup_jobs consent hs) ≡ (if consent then map (λ (h : Host). h.id) hs else [])
    jobs true [] = unfold pruned in refl
    jobs false [] = unfold pruned in refl
    jobs true (h ∷ hs) = unfold pruned in pruned-map (h ∷ hs)
    jobs false (h ∷ hs) = unfold pruned in refl
