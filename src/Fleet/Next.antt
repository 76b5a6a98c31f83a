-- ===== src/Fleet/Next.antt =====
-- Which suggestions of the fleet page are shown, and in which order.
use app_dockhand.Base.{
  refl, ℕ, Bool, Text, ◌≡◌, List, text_eq, true, any, split_first, false, filter, ◌&&◌, is_empty,
  ◌∷◌, ◌++◌, ◌||◌, is_free_of, txt, not, arith, text_eq_sound, text_eq_refl, Bool-cases, [],
  split_first_free, ap, inl, text_eq_iff, All-filter, ◌∙◌, inr, ◌==◌,
}
use app_dockhand.Base.Sort.{
  sort, insert, by_key, IsSorted, sort-IsSorted, Comparator, by_key-IsConsistent,
}
use app_dockhand.Types.Hosts.{Host}
use app_dockhand.Types.Containers.{Container}
use app_dockhand.Types.Machines.{Machine}
use app_dockhand.Types.Alerts.{Alert}
use app_dockhand.Fleet.Pulse.{online}
use app_dockhand.Fleet.Suggestions.{
  covered, shown, all_suggestions, Snoozed, written, rank, is_snoozed, ticking,
}
use app_dockhand.Fleet.Offers.{Suggestion, of_host, flat_map, of_machine}

abbrev pub has_id : Text → Suggestion → Bool
has_id id s = text_eq s.id id

-- A test that is the same for all that have the property.
any-filter :
    {A : Type 0} (p q : A → Bool) (b : Bool)
    → ((x : A) → p x ≡ true → q x ≡ b)
    → (xs : List A) → any p (filter q xs) ≡ (any p xs && b)
any-filter p q b h [] = refl
any-filter p q b h (x ∷ xs) = ground (arith, h x, any-filter p q b h xs)

any-app : {A : Type 0} (p : A → Bool) (xs ys : List A) → any p (xs ++ ys) ≡ (any p xs || any p ys)
any-app p [] ys = refl
any-app p (x ∷ xs) ys = ground (arith, any-app p xs ys)

module _ {A : Type 0} (cmp : Comparator A) (p : A → Bool) where
  any-insert : (x : A) (ys : List A) → any p (insert cmp x ys) ≡ (p x || any p ys)
  unfolding insert
  any-insert x [] = refl
  any-insert x (y ∷ ys) = ground (arith, any-insert x ys)

  any-sort : (xs : List A) → any p (sort cmp xs) ≡ any p xs
  unfolding sort
  any-sort [] = refl
  any-sort (x ∷ xs) = ground (arith, any-insert x (sort cmp xs), any-sort xs)

any-flat_map :
    {A B : Type 0} (p : B → Bool) (f : A → List B) (before : List A) (x : A) (after : List A)
    → any p (f x) ≡ true
    → any p (flat_map f (before ++ x ∷ after)) ≡ true
any-flat_map p f [] x after h = ground (arith, any-app p (f x) (flat_map f after))
any-flat_map p f (y ∷ ys) x after h =
    ground (arith, any-app p (f y) (flat_map f (ys ++ x ∷ after)), any-flat_map p f ys x after h)

covered-offline :
    (alerts : List Alert) (h : Host) (s : Suggestion)
    → is_free_of b':' h.id ≡ true
    → has_id (txt "offline:" ++ h.id) s ≡ true
    → covered alerts s ≡ ticking alerts (txt "host_down:" ++ h.id)
unfolding covered text_eq split_first
covered-offline alerts h s f e =
    let same : s.id ≡ txt "offline:" ++ h.id = text_eq_sound s.id _ e in
    rw (same, split_first_free b':' h.id f) refl

is_snoozed_same :
    (m : Snoozed) (id : Text) (s : Suggestion)
    → has_id id s ≡ true
    → is_snoozed m s ≡ any (λ (p : Text × Text). text_eq p.0 id && not (is_empty p.1)) m
is_snoozed_same m id s e = rw (text_eq_sound s.id id e) refl

-- The test for an urgent suggestion with an id.
abbrev pub is_urgent : Text → Suggestion → Bool
is_urgent id s = has_id id s && (rank s.severity == 0)

module _ (to_fixed : ℕ → ℕ → ℕ → Text) (cs : List Container) (h : Host) (e : online h ≡ false) where
  offline-has_id : any (has_id (txt "offline:" ++ h.id)) (of_host to_fixed cs h) ≡ true
  unfolding of_host
  offline-has_id = rw (e, text_eq_refl (txt "offline:" ++ h.id)) refl

  offline-is_urgent : any (is_urgent (txt "offline:" ++ h.id)) (of_host to_fixed cs h) ≡ true
  unfolding of_host
  offline-is_urgent = rw (e, text_eq_refl (txt "offline:" ++ h.id)) refl

-- Whether the suggestion for a host that is not online should be there.
abbrev pub is_due : List Alert → Snoozed → Host → Bool
is_due alerts m h =
    not (ticking alerts (txt "host_down:" ++ h.id))
    && not (any (λ (p : Text × Text). text_eq p.0 (txt "offline:" ++ h.id) && not (is_empty p.1)) m)

-- A test that only suggestions with the id of the host's pass, and one of the host's does.
shown-offline_by :
    (to_fixed : ℕ → ℕ → ℕ → Text) (before after : List Host) (h : Host) (cs : List Container)
    → (ms : List Machine) (alerts : List Alert) (m : Snoozed) (p : Suggestion → Bool)
    → is_free_of b':' h.id ≡ true
    → ((s : Suggestion) → p s ≡ true → has_id (txt "offline:" ++ h.id) s ≡ true)
    → any p (of_host to_fixed cs h) ≡ true
    → any p (shown m (all_suggestions to_fixed (before ++ h ∷ after) cs ms alerts))
      ≡ is_due alerts m h
unfolding shown all_suggestions
shown-offline_by to_fixed before after h cs ms alerts m p f named here =
    let id = txt "offline:" ++ h.id in
    let found = flat_map (of_host to_fixed cs) (before ++ h ∷ after) in
    any-filter p (λ s. not (is_snoozed m s)) _ (λ s k. ap not (is_snoozed_same m id s (named s k)))
      (sort (by_key (λ (s : Suggestion). rank s.severity))
        (filter (λ s. not (covered alerts s)) (found ++ flat_map of_machine ms)))
    ∙ rw
        (
          any-sort (by_key (λ (s : Suggestion). rank s.severity)) p
              (filter (λ s. not (covered alerts s)) (found ++ flat_map of_machine ms)),
          any-filter p (λ s. not (covered alerts s)) _
              (λ s k. ap not (covered-offline alerts h s f (named s k)))
              (found ++ flat_map of_machine ms),
          any-app p found (flat_map of_machine ms),
          any-flat_map p (of_host to_fixed cs) before h after here,
        )
        refl

-- Among all suggestions, that of a host that is not online is there exactly if it is due, if the host's
-- id has no ":".
pub shown-offline :
    (to_fixed : ℕ → ℕ → ℕ → Text) (before after : List Host) (h : Host) (cs : List Container)
    → (ms : List Machine) (alerts : List Alert) (m : Snoozed) → online h ≡ false
    → is_free_of b':' h.id ≡ true
    → let list = shown m (all_suggestions to_fixed (before ++ h ∷ after) cs ms alerts) in
      (any (has_id (txt "offline:" ++ h.id)) list ≡ is_due alerts m h)
      × (any (is_urgent (txt "offline:" ++ h.id)) list ≡ is_due alerts m h)
shown-offline to_fixed before after h cs ms alerts m e f = (
  shown-offline_by to_fixed before after h cs ms alerts m _ f (λ s k. k)
      (offline-has_id to_fixed cs h e),
  shown-offline_by to_fixed before after h cs ms alerts m _ f (λ s k. ground arith)
      (offline-is_urgent to_fixed cs h e),
)

filter-IsSorted :
    {A : Type 0} (cmp : Comparator A) (p : A → Bool) (xs : List A)
    → IsSorted cmp xs
    → IsSorted cmp (filter p xs)
filter-IsSorted cmp p [] h = tt
filter-IsSorted cmp p (x ∷ xs) (below, h) = elim (Bool-cases (p x)) [
  | inl y ↦ rw y (All-filter _ p xs below, filter-IsSorted cmp p xs h)
  | inr off ↦ rw off (filter-IsSorted cmp p xs h)
]

-- What is shown comes in the order of its severity, the worst first.
pub shown-IsSorted :
    (to_fixed : ℕ → ℕ → ℕ → Text) (hs : List Host) (cs : List Container) (ms : List Machine)
    → (alerts : List Alert) (m : Snoozed)
    → IsSorted
        (by_key (λ (s : Suggestion). rank s.severity))
        (shown m (all_suggestions to_fixed hs cs ms alerts))
unfolding shown all_suggestions
shown-IsSorted to_fixed hs cs ms alerts m =
    filter-IsSorted _ _ _ (sort-IsSorted _ (by_key-IsConsistent _) _)

snoozed-other :
    (m : Snoozed) (id : Text) (s : Suggestion)
    → text_eq id s.id ≡ false
    → is_snoozed (filter (λ (p : Text × Text). not (text_eq p.0 id)) m) s ≡ is_snoozed m s
snoozed-other [] id s h = refl
snoozed-other (p ∷ m) id s h =
    ground (arith, snoozed-other m id s h, text_eq_iff p.0 id, text_eq_iff p.0 s.id)

filter-filter :
    {A : Type 0} (p q r : A → Bool)
    → ((x : A) → r x ≡ (p x && q x))
    → (xs : List A) → filter r xs ≡ filter q (filter p xs)
filter-filter p q r h [] = refl
filter-filter p q r h (x ∷ xs) = ground (arith, h x, filter-filter p q r h xs)

-- To snooze a suggestion hides those with its id and no other; to reset shows all again.
pub shown-written :
    (id until : Text) (m : Snoozed) (all : List Suggestion)
    → is_empty id ≡ false
    → is_empty until ≡ false
    → (shown (written id until m) all ≡ filter (λ s. not (text_eq id s.id)) (shown m all))
      × (shown (written [] until m) all ≡ all)
unfolding shown written
shown-written id until m all h k = rw h (filter-filter _ _ _ (λ s. one s) all, filter-all all)
  where
    one :
        (s : Suggestion)
        → not (is_snoozed ((id, until) ∷ filter (λ (p : Text × Text). not (text_eq p.0 id)) m) s)
          ≡ (not (is_snoozed m s) && not (text_eq id s.id))
    one s = ground (arith, snoozed-other m id s)

    filter-all : (xs : List Suggestion) → filter (λ s. not (is_snoozed [] s)) xs ≡ xs
    filter-all [] = refl
    filter-all (x ∷ xs) = ap (λ ys. x ∷ ys) (filter-all xs)
