-- ===== src/Terminal/Targets.antt =====
-- Which targets the tabs of the terminal window show.
use app_dockhand.Base.{
  refl, ℕ, Bool, Text, List, ◌≡◌, text_eq, Option, find, ◌∷◌, All, true, arith, ◌&&◌, some,
  Option-cases, false, none, filter, ◌≤◌, text_eq_iff, text_eq_sound, any, text_eq_refl, inl, ◌++◌,
  ltb, inr, All-append, Bool-cases, max, suc, is_empty,
}
use app_dockhand.Terminal.Tabs.{
  Tab, same_target, TerminalTarget, add_tab, open_requests, is_key, Tabs, Request, add_or_focus,
  add_all, shell, max_seq, exec, key_of, logs, ssh,
}
use mathlib.Core.List.{[], [], []}

same_target_refl : (a : TerminalTarget) → same_target a a ≡ true
unfolding same_target
same_target_refl (shell h) = text_eq_refl h
same_target_refl (exec h c n) = ground (arith, text_eq_refl h, text_eq_refl c)
same_target_refl (logs h c n) = ground (arith, text_eq_refl h, text_eq_refl c)
same_target_refl (ssh i c) = text_eq_refl i

text_eq_sym : (s t : Text) → text_eq s t ≡ text_eq t s
text_eq_sym s t = ground (arith, text_eq_iff s t, text_eq_iff t s)

ap2_and : {a b c d : Bool} → a ≡ b → c ≡ d → (a && c) ≡ (b && d)
ap2_and h k = cc

same_target_sym : (a b : TerminalTarget) → same_target a b ≡ same_target b a
unfolding same_target
same_target_sym (shell h) (shell k) = text_eq_sym h k
same_target_sym (exec h c n) (exec k d m) = ap2_and (text_eq_sym h k) (text_eq_sym c d)
same_target_sym (logs h c n) (logs k d m) = ap2_and (text_eq_sym h k) (text_eq_sym c d)
same_target_sym (ssh i c) (ssh j d) = text_eq_sym i j
same_target_sym (shell h) (exec k d m) = refl
same_target_sym (shell h) (logs k d m) = refl
same_target_sym (shell h) (ssh j d) = refl
same_target_sym (exec h c n) (shell k) = refl
same_target_sym (exec h c n) (logs k d m) = refl
same_target_sym (exec h c n) (ssh j d) = refl
same_target_sym (logs h c n) (shell k) = refl
same_target_sym (logs h c n) (exec k d m) = refl
same_target_sym (logs h c n) (ssh j d) = refl
same_target_sym (ssh i c) (shell k) = refl
same_target_sym (ssh i c) (exec k d m) = refl
same_target_sym (ssh i c) (logs k d m) = refl

same_target_trans :
    (a b c : TerminalTarget)
    → same_target a b ≡ true
    → same_target b c ≡ true
    → same_target a c ≡ true
unfolding same_target
same_target_trans a b c h k = grind (arith, text_eq_sound, text_eq_refl)

-- Showing the same target is an equivalence.
same_target_equivalence :
    (a b c : TerminalTarget)
    → (same_target a a ≡ true)
      × (same_target a b ≡ same_target b a)
      × (same_target a b ≡ true → same_target b c ≡ true → same_target a c ≡ true)
same_target_equivalence a b c = (same_target_refl a, same_target_sym a b, same_target_trans a b c)

-- The tab with the key shows the target.
abbrev pub shows : Text → TerminalTarget → Tab → Bool
shows key target t = is_key key t && same_target t.target target

abbrev pub Shown : TerminalTarget → List Tab → Option Text → Type 0
Shown target ts none = ⊥
Shown target ts (some key) = any (shows key target) ts ≡ true

find-Shown :
    (target : TerminalTarget) (ts : List Tab) (t : Tab)
    → find (λ (u : Tab). same_target u.target target) ts ≡ some t
    → any (shows t.key target) ts ≡ true
find-Shown target [] t h = cc
find-Shown target (u ∷ ts) t h =
    ground (arith, text_eq_refl t.key, text_eq_refl u.key, find-Shown target ts t)

any-snoc : (p : Tab → Bool) (ts : List Tab) (t : Tab) → p t ≡ true → any p (ts ++ t ∷ []) ≡ true
any-snoc p [] t h = ground arith
any-snoc p (u ∷ ts) t h = ground (arith, any-snoc p ts t h)

added :
    (target : TerminalTarget) (s : Tabs)
    → Shown target (add_or_focus target none s).tabs (add_or_focus target none s).active
added target s =
    any-snoc _ s.tabs _
      (ground (arith, text_eq_refl (key_of (suc s.tab_seq)), same_target_refl target))

-- After a target is asked for, with or without a new tab, the active tab is one that shows it.
pub add_tab-Shown :
    (target : TerminalTarget) (force_new : Bool) (s : Tabs)
    → Shown target (add_tab target force_new s).tabs (add_tab target force_new s).active
unfolding add_tab
add_tab-Shown target true s = added target s
add_tab-Shown target false s =
    elim (Option-cases (find (λ (t : Tab). same_target t.target target) s.tabs)) [
      | inl e ↦ rw e (added target s)
      | inr (t, e) ↦ rw e (find-Shown target s.tabs t e)
    ]

-- No two tabs show the same target.
abbrev pub IsApart : List Tab → Type 0
IsApart [] = Unit
IsApart (t ∷ ts) = All (λ (u : Tab). same_target t.target u.target ≡ false) ts × IsApart ts

find-none :
    (target : TerminalTarget) (ts : List Tab)
    → find (λ (u : Tab). same_target u.target target) ts ≡ none
    → All (λ (u : Tab). same_target u.target target ≡ false) ts
find-none target [] h = tt
find-none target (u ∷ ts) h = ground (arith, find-none target ts)

IsApart-snoc :
    (ts : List Tab) (t : Tab)
    → IsApart ts
    → All (λ (u : Tab). same_target u.target t.target ≡ false) ts
    → IsApart (ts ++ t ∷ [])
IsApart-snoc [] t d f = (tt, tt)
IsApart-snoc (u ∷ ts) t (f, d) (g, h) = (
  All-append (λ (w : Tab). same_target u.target w.target ≡ false) ts (t ∷ []) f (g, tt),
  IsApart-snoc ts t d h,
)

add_tab-IsApart :
    (target : TerminalTarget) (s : Tabs) → IsApart s.tabs → IsApart (add_tab target false s).tabs
unfolding add_tab
add_tab-IsApart target s h =
    elim (Option-cases (find (λ (t : Tab). same_target t.target target) s.tabs)) [
      | inl e ↦ rw e (IsApart-snoc s.tabs _ h (find-none target s.tabs e))
      | inr (t, e) ↦ rw e h
    ]

add_all-IsApart : (rs : List Request) (s : Tabs) → IsApart s.tabs → IsApart (add_all rs s).tabs
add_all-IsApart [] s h = h
add_all-IsApart (r ∷ rs) s h = add_all-IsApart rs _ (add_tab-IsApart r.target s h)

-- Requests from elsewhere on the page never open a second tab for a target: if no two tabs show the
-- same target, that is so after them.
pub open_requests-IsApart :
    (rs : List Request) (s : Tabs) → IsApart s.tabs → IsApart (open_requests rs s).tabs
unfolding open_requests
open_requests-IsApart rs s h =
    let fresh = filter (λ (r : Request). ltb s.seen r.seq) rs in
    elim (Bool-cases (is_empty fresh)) [
      | inl y ↦ rw y h
      | inr off ↦ rw off (add_all-IsApart fresh (record s { seen = max_seq s.seen fresh }) h)
    ]

max_seq-le : (n : ℕ) (rs : List Request) → n ≤ max_seq n rs
max_seq-le n [] = omega arith
max_seq-le n (r ∷ rs) = omega (arith, max_seq-le (max n r.seq) rs)

max_seq-bounds : (n : ℕ) (rs : List Request) → All (λ (r : Request). r.seq ≤ max_seq n rs) rs
max_seq-bounds n [] = tt
max_seq-bounds n (r ∷ rs) =
    (omega (arith, max_seq-le (max n r.seq) rs), max_seq-bounds (max n r.seq) rs)
