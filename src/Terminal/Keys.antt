-- ===== src/Terminal/Keys.antt =====
-- The invariant of the tabs of the terminal window.
use app_dockhand.Base.{
  refl, ℕ, Bool, List, ◌≡◌, text_eq, suc, Text, ◌∷◌, ◌≤◌, ◌-◌, Option, All, sym, false, true,
  filter, arith, find, none, ◌<◌, [], number-show, any, ◌++◌, All-filter, some, length, ◌∙◌,
  All-append, if◌then◌else◌, All-map, not, ap, text_eq_refl, text_eq_iff, number, drop, get_elem?,
  Bool-cases, is_empty, inl, ltb, text_eq_sound, inr,
}
use app_dockhand.Terminal.Tabs.{
  Tab, Tabs, key_of, TerminalTarget, add_tab, Request, is_key, add_or_focus, add_all, key_at,
  close_tab, focus_tab, open_requests, tab_step, TabEvent, is_active, request, tab_run, max_seq,
  plus, open_tabs, close, focus,
}
use Prim.Native.Nat.{zero, min}

-- No two tabs have the same key.
abbrev pub IsDistinct : List Tab → Type 0
IsDistinct [] = Unit
IsDistinct (t ∷ ts) = All (λ u. is_key t.key u ≡ false) ts × IsDistinct ts

-- The tab's key is one of the first n that were given out.
abbrev pub HasKey : ℕ → Tab → Type 0
HasKey n t = (m : ℕ) × (t.key ≡ key_of m) × (m ≤ n)

-- The active key is a tab's; there is none only without tabs.
abbrev pub IsActive : List Tab → Option Text → Type 0
IsActive ts none = ts ≡ []
IsActive ts (some k) = any (is_key k) ts ≡ true

pub record IsWell (s : Tabs) : Type 0 where
  pub distinct : IsDistinct s.tabs
  pub known : All (HasKey s.tab_seq) s.tabs
  pub shown : IsActive s.tabs s.active

key_of-injective : (m n : ℕ) → key_of m ≡ key_of n → m ≡ n
unfolding key_of
key_of-injective m n h = sym (number-show m) ∙ ap (λ s. number (drop 1 s)) h ∙ number-show n

key_of-fresh : (n : ℕ) (t : Tab) → HasKey n t → text_eq (key_of (suc n)) t.key ≡ false
key_of-fresh n t (m, e, l) = elim (Bool-cases (text_eq (key_of (suc n)) t.key)) [
  | inl y ↦ absurd (fresh (key_of-injective (suc n) m (text_eq_sound _ _ y ∙ e)))
  | inr off ↦ off
]
  where
    fresh : suc n ≡ m → ⊥
    fresh h = omega arith

any-snoc : (p : Tab → Bool) (ts : List Tab) (t : Tab) → p t ≡ true → any p (ts ++ t ∷ []) ≡ true
any-snoc p [] t h = ground arith
any-snoc p (u ∷ ts) t h = ground (arith, any-snoc p ts t h)

IsDistinct-snoc :
    (ts : List Tab) (t : Tab)
    → IsDistinct ts
    → All (λ u. text_eq t.key u.key ≡ false) ts
    → IsDistinct (ts ++ t ∷ [])
IsDistinct-snoc [] t d f = (tt, tt)
IsDistinct-snoc (u ∷ ts) t (f, d) (g, h) =
    (All-append (λ w. is_key u.key w ≡ false) ts (t ∷ []) f (g, tt), IsDistinct-snoc ts t d h)

IsDistinct-filter : (p : Tab → Bool) (ts : List Tab) → IsDistinct ts → IsDistinct (filter p ts)
IsDistinct-filter p [] d = tt
IsDistinct-filter p (t ∷ ts) (f, d) =
    ground (arith, All-filter (λ u. is_key t.key u ≡ false) p ts f, IsDistinct-filter p ts d)

HasKey-suc : (n : ℕ) (t : Tab) → HasKey n t → HasKey (suc n) t
HasKey-suc n t (m, e, l) = (m, e, omega arith)

-- What `find` gives is a tab of the list.
abbrev IsFound : List Tab → Option Tab → Type 0
IsFound ts none = Unit
IsFound ts (some t) = any (is_key t.key) ts ≡ true

find-IsFound : (p : Tab → Bool) (ts : List Tab) → IsFound ts (find p ts)
find-IsFound p [] = tt
find-IsFound p (t ∷ ts) = elim (p t) as (λ b. IsFound (t ∷ ts) (if b then some t else find p ts)) [
  | true ↦ ground (arith, text_eq_refl t.key)
  | false ↦ weaken (find p ts) (find-IsFound p ts)
]
  where
    weaken : (o : Option Tab) → IsFound ts o → IsFound (t ∷ ts) o
    weaken none h = tt
    weaken (some u) h = ground arith

add_or_focus-IsWell :
    (target : TerminalTarget) (o : Option Tab) (s : Tabs)
    → IsFound s.tabs o
    → IsWell s
    → IsWell (add_or_focus target o s)
add_or_focus-IsWell target (some t) s f h = record {
  distinct = h.distinct;
  known = h.known;
  shown = f;
}
add_or_focus-IsWell target none s f h = record {
  distinct =
      IsDistinct-snoc s.tabs _ h.distinct
        (All-map (HasKey s.tab_seq) _ (key_of-fresh s.tab_seq) s.tabs h.known);
  known =
      All-append (HasKey (suc s.tab_seq)) s.tabs _
        (All-map (HasKey s.tab_seq) _ (HasKey-suc s.tab_seq) s.tabs h.known)
        ((suc s.tab_seq, refl, omega arith), tt);
  shown = any-snoc _ s.tabs _ (text_eq_refl (key_of (suc s.tab_seq)));
}

pub add_tab-IsWell :
    (target : TerminalTarget) (force_new : Bool) (s : Tabs)
    → IsWell s
    → IsWell (add_tab target force_new s)
unfolding add_tab
add_tab-IsWell target true s h = add_or_focus-IsWell target none s tt h
add_tab-IsWell target false s h = add_or_focus-IsWell target _ s (find-IsFound _ s.tabs) h

add_all-IsWell : (rs : List Request) (s : Tabs) → IsWell s → IsWell (add_all rs s)
add_all-IsWell [] s h = h
add_all-IsWell (r ∷ rs) s h = add_all-IsWell rs _ (add_tab-IsWell r.target false s h)

get_elem?-any :
    (ts : List Tab) (i : ℕ)
    → i < length ts
    → (t : Tab) × (get_elem? ts i ≡ some t) × (any (is_key t.key) ts ≡ true)
get_elem?-any [] i h = absurd (omega arith)
get_elem?-any (t ∷ ts) zero h = (t, refl, ground (arith, text_eq_refl t.key))
get_elem?-any (t ∷ ts) (suc i) h =
    let (u, e, a) = get_elem?-any ts i (omega arith) in (u, e, ground arith)

key_at-IsActive : (ts : List Tab) (i : ℕ) → i < length ts → IsActive ts (key_at ts i)
key_at-IsActive ts i h = let (t, e, a) = get_elem?-any ts i h in rw (e, IsActive) a

-- A tab with another key than the closed one stays.
any-filter_other :
    (k key : Text) (ts : List Tab)
    → text_eq k key ≡ false
    → any (is_key k) (filter (λ t. not (is_key key t)) ts) ≡ any (is_key k) ts
any-filter_other k key [] h = refl
any-filter_other k key (t ∷ ts) h =
    ground (arith, any-filter_other k key ts h, text_eq_iff t.key k, text_eq_iff t.key key)

unless_empty :
    (ts : List Tab)
    → is_empty ts ≡ false
    → (i : ℕ) → IsActive ts (key_at ts (min i (length ts - 1)))
unless_empty [] h i = cc
unless_empty (t ∷ ts) h i = key_at-IsActive (t ∷ ts) _ (omega arith)

-- The active tab after another one, or the active one itself, is closed.
close-IsActive :
    (key : Text) (ts : List Tab) (active : Option Text) (i : ℕ)
    → IsActive ts active
    → is_empty (filter (λ t. not (is_key key t)) ts) ≡ false
    → IsActive (filter (λ t. not (is_key key t)) ts) (
        if is_active key active
        then key_at
            (filter (λ t. not (is_key key t)) ts)
            (min i (length (filter (λ t. not (is_key key t)) ts) - 1))
        else active)
close-IsActive key ts none i h e = rw h refl
close-IsActive key ts (some k) i h e = elim (Bool-cases (text_eq k key)) [
  | inl y ↦ rw y (unless_empty (filter (λ t. not (is_key key t)) ts) e i)
  | inr off ↦ rw off (any-filter_other k key ts off ∙ h)
]

close_tab-IsWell : (key : Text) (s : Tabs) → IsWell s → IsWell (close_tab key s)
unfolding close_tab
close_tab-IsWell key s h = elim (Bool-cases (is_empty (filter (λ t. not (is_key key t)) s.tabs))) [
  | inl y ↦ rw y (record { distinct = h.distinct; known = h.known; shown = h.shown })
  | inr off ↦ rw off (record {
    distinct = IsDistinct-filter _ s.tabs h.distinct;
    known = All-filter (HasKey s.tab_seq) _ s.tabs h.known;
    shown = close-IsActive key s.tabs s.active _ h.shown off;
  })
]

focus_tab-IsWell : (key : Text) (s : Tabs) → IsWell s → IsWell (focus_tab key s)
unfolding focus_tab
focus_tab-IsWell key s h = elim (Bool-cases (any (is_key key) s.tabs)) [
  | inl y ↦ rw y (record { distinct = h.distinct; known = h.known; shown = y })
  | inr off ↦ rw off h
]

open_requests-IsWell : (rs : List Request) (s : Tabs) → IsWell s → IsWell (open_requests rs s)
unfolding open_requests
open_requests-IsWell rs s h =
    let fresh = filter (λ (r : Request). ltb s.seen r.seq) rs in
    let k =
      add_all-IsWell fresh (record s { seen = max_seq s.seen fresh })
        (record { distinct = h.distinct; known = h.known; shown = h.shown }) in
    elim (Bool-cases (is_empty fresh)) [
      | inl y ↦ rw y h
      | inr off ↦ rw off (record { distinct = k.distinct; known = k.known; shown = k.shown })
    ]

if-IsWell : (b : Bool) (s t : Tabs) → IsWell s → IsWell t → IsWell (if b then s else t)
if-IsWell true s t h k = h
if-IsWell false s t h k = k

tab_step-IsWell : (e : TabEvent) (s : Tabs) → IsWell s → IsWell (tab_step e s)
unfolding tab_step
tab_step-IsWell e s h = if-IsWell s.closed s _ h (live e)
  where
    live :
        (e : TabEvent)
        → IsWell (elim e [
          | request rs ↦ open_requests rs s
          | plus target force_new ↦ add_tab target force_new s
          | close key ↦ close_tab key s
          | focus key ↦ focus_tab key s
        ])
    live (request rs) = open_requests-IsWell rs s h
    live (plus target force_new) =
        let k = add_tab-IsWell target force_new s h in
        record { distinct = k.distinct; known = k.known; shown = k.shown }
    live (close key) = close_tab-IsWell key s h
    live (focus key) = focus_tab-IsWell key s h

tab_run-IsWell_from : (es : List TabEvent) (s : Tabs) → IsWell s → IsWell (tab_run s es)
tab_run-IsWell_from [] s h = h
tab_run-IsWell_from (e ∷ es) s h = tab_run-IsWell_from es (tab_step e s) (tab_step-IsWell e s h)

-- Whatever tabs are requested, opened, chosen and closed, from a window without tabs on: no two tabs
-- have the same key, every key is one that the counter has given out, and a tab is active unless
-- there is none.
pub tab_run-IsWell : (n : ℕ) (es : List TabEvent) → IsWell (tab_run (open_tabs n) es)
tab_run-IsWell n es =
    tab_run-IsWell_from es (open_tabs n) (record { distinct = tt; known = tt; shown = refl })
