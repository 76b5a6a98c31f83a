-- ===== src/Resources/View.antt =====
-- The view of the page of all resources, as it is read from the address and written to it.

-- The value that a change leaves under its key.
use mathlib.Core.Option
use app_dockhand.Machines.Params.{get-set, get-delete}
use app_dockhand.Base.{
  refl, Text, Option, List, some, text_eq, if◌then◌else◌, not, ◌∷◌, ◌≡◌, txt, ◌++◌, is_empty,
  Bool-cases, ◌∙◌, false, [], ap, arith, ◌&&◌, ◌&&◌, inl, text_eq_refl, inr, any,
}
use app_dockhand.Resources.{
  set_param, set_params, ViewPatch, status_named, sort_named, SearchParams, entry, entries,
  ContainerView, default_of, StatusFilter, SortKey, get, set_view, sort_value, status_value,
  view_of, param, set_tab, resource_tab, ResourceTab, tab_named, tab_entries, tab_value,
}
use mathlib.Core.Option.{none}
use mathlib.Core.List.{[], []}

abbrev pub kept : Text × Text → Option Text
kept e = if not (is_empty e.1) && not (text_eq e.1 (default_of e.0)) then some e.1 else none

get-set_param :
    (e : Text × Text) (k : Text) (q : SearchParams)
    → get k (set_param e q) ≡ (if text_eq e.0 k then kept e else get k q)
unfolding set_param
get-set_param e k q = elim (Bool-cases (not (is_empty e.1) && not (text_eq e.1 (default_of e.0)))) [
  | inl y ↦ rw y (get-set e.0 e.1 k q)
  | inr off ↦ rw off (get-delete e.0 k q)
]

abbrev pub changed : Text → List (Text × Text) → Option Text → Option Text
changed k [] o = o
changed k (e ∷ es) o = changed k es (if text_eq e.0 k then kept e else o)

pub get-set_params :
    (es : List (Text × Text)) (k : Text) (q : SearchParams)
    → get k (set_params es q) ≡ changed k es (get k q)
unfolding set_params
get-set_params [] k q = refl
get-set_params (e ∷ es) k q =
    get-set_params es k (set_param e q) ∙ ap (changed k es) (get-set_param e k q)

changed-append :
    (k : Text) (a b : List (Text × Text)) (o : Option Text)
    → changed k (a ++ b) o ≡ changed k b (changed k a o)
changed-append k [] b o = refl
changed-append k (e ∷ a) b o = changed-append k a b (if text_eq e.0 k then kept e else o)

-- What a field that may be there makes of the value under a key.
abbrev put : Text → Text → Option Text → Option Text → Option Text
put k j none o = o
put k j (some v) o = if text_eq j k then kept (j, v) else o

changed-entry : (k j : Text) (v o : Option Text) → changed k (entry j v) o ≡ put k j v o
changed-entry k j none o = refl
changed-entry k j (some v) o = refl

changed-entries :
    (k : Text) (p : ViewPatch) (o : Option Text)
    → changed k (entries p) o
      ≡ put k (txt "sort") (Option.map sort_value p.sort) (
          put k
            (txt "stack")
            p.stack
            (put k (txt "status") (Option.map status_value p.status) (put k (txt "q") p.q o)))
changed-entries k p o = simp (changed-append, changed-entry)

-- A key that the field does not stand under.
put_other : (k j : Text) (v o : Option Text) → text_eq j k ≡ false → put k j v o ≡ o
put_other k j none o h = refl
put_other k j (some v) o h = rw h

-- `{ ...view, ...p }`
abbrev pub patched : ViewPatch → ContainerView → ContainerView
patched p v = record {
  q = elim p.q [ none ↦ v.q | some s ↦ s ];
  status = elim p.status [ none ↦ v.status | some s ↦ s ];
  stack = elim p.stack [ none ↦ v.stack | some s ↦ s ];
  sort = elim p.sort [ none ↦ v.sort | some s ↦ s ];
}

abbrev text_of : Option Text → Text
text_of o = elim o [ none ↦ [] | some v ↦ v ]

put_text :
    (k : Text) (v o : Option Text)
    → default_of k ≡ []
    → text_of (put k k v o) ≡ elim v [ none ↦ text_of o | some s ↦ s ]
put_text k none o h = refl
put_text k (some []) o h = ground (arith, text_eq_refl k)
put_text k (some (c ∷ s)) o h = rw (text_eq_refl k, h) (unfold text_eq in refl)

put_status :
    (s : Option StatusFilter) (o : Option Text)
    → status_named (text_of (put (txt "status") (txt "status") (Option.map status_value s) o))
      ≡ elim s [ none ↦ status_named (text_of o) | some f ↦ f ]
unfolding status_named app_dockhand.Base.text_eq
put_status none o = refl
put_status (some StatusFilter.all) o = refl
put_status (some StatusFilter.running) o = refl
put_status (some StatusFilter.healthy) o = refl
put_status (some StatusFilter.unhealthy) o = refl
put_status (some StatusFilter.starting) o = refl
put_status (some StatusFilter.stopped) o = refl
put_status (some StatusFilter.crashed) o = refl
put_status (some StatusFilter.paused) o = refl
put_status (some StatusFilter.restarting) o = refl
put_status (some StatusFilter.updates) o = refl

put_sort :
    (s : Option SortKey) (o : Option Text)
    → sort_named (text_of (put (txt "sort") (txt "sort") (Option.map sort_value s) o))
      ≡ elim s [ none ↦ sort_named (text_of o) | some f ↦ f ]
unfolding sort_named app_dockhand.Base.text_eq
put_sort none o = refl
put_sort (some SortKey.status) o = refl
put_sort (some SortKey.name) o = refl
put_sort (some SortKey.cpu) o = refl
put_sort (some SortKey.mem) o = refl
put_sort (some SortKey.newest) o = refl
put_sort (some SortKey.oldest) o = refl

module _ (p : ViewPatch) (q : SearchParams) where
  param-set_view :
      (k : Text)
      → param k (set_view p q)
        ≡ text_of (
            put k (txt "sort") (Option.map sort_value p.sort) (
              put k (txt "stack") p.stack (
                put k
                  (txt "status")
                  (Option.map status_value p.status)
                  (put k (txt "q") p.q (get k q)))))
  unfolding set_view
  param-set_view k = ap text_of (get-set_params (entries p) k q ∙ changed-entries k p (get k q))

  param_q : param (txt "q") (set_view p q) ≡ elim p.q [ none ↦ param (txt "q") q | some s ↦ s ]
  unfolding app_dockhand.Base.text_eq
  param_q =
      param-set_view (txt "q") ∙ simp put_other (put_text (txt "q") p.q (get (txt "q") q) refl)

  param_stack :
      param (txt "stack") (set_view p q)
      ≡ elim p.stack [ none ↦ param (txt "stack") q | some s ↦ s ]
  unfolding app_dockhand.Base.text_eq
  param_stack =
      param-set_view (txt "stack")
      ∙ simp put_other (put_text (txt "stack") p.stack (get (txt "stack") q) refl)

  named_status :
      status_named (param (txt "status") (set_view p q))
      ≡ elim p.status [ none ↦ status_named (param (txt "status") q) | some s ↦ s ]
  unfolding app_dockhand.Base.text_eq
  named_status =
      ap status_named (param-set_view (txt "status"))
      ∙ simp put_other (put_status p.status (get (txt "status") q))

  named_sort :
      sort_named (param (txt "sort") (set_view p q))
      ≡ elim p.sort [ none ↦ sort_named (param (txt "sort") q) | some s ↦ s ]
  unfolding app_dockhand.Base.text_eq
  named_sort =
      ap sort_named (param-set_view (txt "sort"))
      ∙ simp put_other (put_sort p.sort (get (txt "sort") q))

-- Reading the view after a change of it gives the view with the changed fields, whatever else the
-- address holds.
pub view_of-set_view :
    (p : ViewPatch) (q : SearchParams) → view_of (set_view p q) ≡ patched p (view_of q)
unfolding view_of
view_of-set_view p q = λ i. record {
  q = param_q p q i;
  status = named_status p q i;
  stack = param_stack p q i;
  sort = named_sort p q i;
}

-- A change of the view leaves the tab, and whatever else the address holds, as it is.
pub get-set_view :
    (p : ViewPatch) (q : SearchParams) (k : Text)
    → any (λ j. text_eq j k) (txt "q" ∷ txt "status" ∷ txt "stack" ∷ txt "sort" ∷ []) ≡ false
    → get k (set_view p q) ≡ get k q
unfolding set_view
get-set_view p q k h =
    get-set_params (entries p) k q
    ∙ changed-entries k p (get k q)
    ∙ rw (
      put_other k (txt "sort") _ _ (ground arith),
      put_other k (txt "stack") _ _ (ground arith),
      put_other k (txt "status") _ _ (ground arith),
      put_other k (txt "q") _ _ (ground arith),
    )

tab_named-kept : (t : ResourceTab) → tab_named (text_of (kept (txt "tab", tab_value t))) ≡ t
unfolding tab_named app_dockhand.Base.text_eq
tab_named-kept ResourceTab.containers = refl
tab_named-kept ResourceTab.stacks = refl
tab_named-kept ResourceTab.images = refl
tab_named-kept ResourceTab.volumes = refl
tab_named-kept ResourceTab.networks = refl

-- The value under a key after a change of the tab.
param-set_tab :
    (t : ResourceTab) (q : SearchParams) (k : Text)
    → param k (set_tab t q) ≡ text_of (changed k (tab_entries t) (get k q))
unfolding set_tab
param-set_tab t q k = ap text_of (get-set_params (tab_entries t) k q)

-- Another tab is read back, with no filter but the text, which is as before.
pub view_of-set_tab :
    (t : ResourceTab) (q : SearchParams)
    → (resource_tab (set_tab t q) ≡ t)
      × (view_of (set_tab t q) ≡ record {
        q = param (txt "q") q;
        status = StatusFilter.all;
        stack = [];
        sort = SortKey.status;
      })
unfolding resource_tab view_of app_dockhand.Base.text_eq status_named sort_named
view_of-set_tab t q = (
  ap tab_named (param-set_tab t q (txt "tab")) ∙ tab_named-kept t,
  λ i. record {
    q = param-set_tab t q (txt "q") i;
    status = status_named (param-set_tab t q (txt "status") i);
    stack = param-set_tab t q (txt "stack") i;
    sort = sort_named (param-set_tab t q (txt "sort") i);
  },
)
