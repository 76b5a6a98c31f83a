-- ===== src/Fleet/Listed.antt =====
-- Which suggestions the page lists, in full and in short.
use app_dockhand.Base.{
  refl, Text, ◌≡◌, ◌≢◌, List, Bool, All, any, ◌≤◌, arith, true, false, ◌∷◌, take, Bool-cases, ◌⊎◌,
  inl, length, inr, ap, is_free_of, ◌++◌, txt, ◌∙◌,
}
use app_dockhand.Base.Sort.{by_key, IsSorted}
use app_dockhand.Types.Machines.{Machine}
use app_dockhand.Types.Alerts.{Alert}
use app_dockhand.Fleet.Pulse.{online}
use app_dockhand.Fleet.Next.{shown-offline, shown-IsSorted, has_id, is_urgent, is_due}
use app_dockhand.Fleet.Suggestions.{listed, shown, all_suggestions, rank, Snoozed}
use Prim.Native.Nat.{zero, ℕ, Ordering, suc}
use app_dockhand.Fleet.Offers.{Suggestion}
use app_dockhand.Types.Hosts.{Host}
use app_dockhand.Types.Containers.{Container}
use mathlib.Core.List.{[]}

abbrev pub IsUrgent : Suggestion → Type 0
IsUrgent s = rank s.severity ≡ 0

abbrev by_rank : Suggestion → Suggestion → Ordering
by_rank s t = by_key (λ (u : Suggestion). rank u.severity) s t

not_above-rank : (s t : Suggestion) → by_rank s t ≢ Ordering.gt → rank s.severity ≤ rank t.severity
not_above-rank s t h = ground arith

-- What is not above an urgent suggestion is urgent.
IsUrgent-first :
    (id : Text) (s : Suggestion) (xs : List Suggestion)
    → All (λ t. by_rank s t ≢ Ordering.gt) xs
    → any (is_urgent id) xs ≡ true
    → IsUrgent s
IsUrgent-first id s [] h e = absurd (cc)
IsUrgent-first id s (t ∷ xs) (a, h) e = elim (Bool-cases (is_urgent id t)) [
  | inl y ↦ ground (arith, not_above-rank s t a)
  | inr y ↦ IsUrgent-first id s xs h (rw y at e)
]

-- Of a sorted list with an urgent suggestion, the first `n` have it or are all urgent.
take-IsUrgent :
    (id : Text) (n : ℕ) (xs : List Suggestion)
    → IsSorted by_rank xs
    → any (is_urgent id) xs ≡ true
    → (any (has_id id) (take n xs) ≡ true) ⊎ ((length (take n xs) ≡ n) × All IsUrgent (take n xs))
take-IsUrgent id zero xs h e = inr (refl, tt)
take-IsUrgent id (suc n) [] h e = absurd (cc)
take-IsUrgent id (suc n) (s ∷ xs) (below, h) e = elim (Bool-cases (is_urgent id s)) [
  | inl y ↦ inl (ground arith)
  | inr y ↦
      let rest : any (is_urgent id) xs ≡ true = rw y at e in
      elim (take-IsUrgent id n xs h rest) [
        | inl z ↦ inl (ground arith)
        | inr (l, a) ↦ inr (ap suc l, (IsUrgent-first id s xs below rest, a))
      ]
]

any-take :
    (p : Suggestion → Bool) (n : ℕ) (xs : List Suggestion)
    → any p xs ≡ false
    → any p (take n xs) ≡ false
any-take p zero xs h = refl
any-take p (suc n) [] h = refl
any-take p (suc n) (s ∷ xs) h = ground (arith, any-take p n xs)

-- For a host that is not online and whose id has no ":", with "due" for: no alert that it is down is
-- shown already, and its suggestion is not snoozed. The full list of the fleet page has the suggestion
-- exactly if it is due. The short list has none if it is not due; if it is due, the short list has it, or
-- is four urgent suggestions.
pub listed-offline :
    (to_fixed : ℕ → ℕ → ℕ → Text) (before after : List Host) (h : Host) (cs : List Container)
    → (ms : List Machine) (alerts : List Alert) (m : Snoozed) → online h ≡ false
    → is_free_of b':' h.id ≡ true
    → let list = shown m (all_suggestions to_fixed (before ++ h ∷ after) cs ms alerts) in
      let named = has_id (txt "offline:" ++ h.id) in
      (any named (listed true list) ≡ is_due alerts m h)
      × (is_due alerts m h ≡ false → any named (listed false list) ≡ false)
      × (is_due alerts m h ≡ true
          → (any named (listed false list) ≡ true)
            ⊎ ((length (listed false list) ≡ 4) × All IsUrgent (listed false list)))
unfolding listed
listed-offline to_fixed before after h cs ms alerts m e f =
    let list = shown m (all_suggestions to_fixed (before ++ h ∷ after) cs ms alerts) in
    let id = txt "offline:" ++ h.id in
    let (a, b) = shown-offline to_fixed before after h cs ms alerts m e f in
    (
      a,
      λ d. any-take (has_id id) 4 list (a ∙ d),
      λ d.
          take-IsUrgent id 4 list (shown-IsSorted to_fixed (before ++ h ∷ after) cs ms alerts m)
            (b ∙ d),
    )
