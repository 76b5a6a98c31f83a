-- ===== src/Fleet/Pulse.antt =====
-- `FleetPulse` of web/components/fleet/FleetPulse.tsx: its averages, its headline and its rows.
use app_dockhand.Base.{
  none, some, refl, ℕ, Bool, Text, if◌then◌else◌, false, List, Option, txt, leb, true, filter, ◌∷◌,
  is_empty, length, ◌-◌, ltb, ◌+◌, ◌≤◌, ◌≡◌, All, ◌++◌, not, arith, [], show, All-map, Bool-cases,
  inl, inr, ◌∙◌, ap,
}
use app_dockhand.Base.Sort.{
  sort, Comparator, by_key_down, then_by, IsSorted, sort-IsSorted, unsort-All,
  by_key_down-IsConsistent, sort-All,
}
use mathlib.Core.Path.{subst}
use app_dockhand.Types.Hosts.{Host, HostStatus}
use app_dockhand.Format.{Colour, plural, round_quotient}
use mathlib.Core.List.{[], []}

pub data Metric : Type 0 where
  cpu mem disk : Metric

unfoldable pub metric_name : Metric → Text
metric_name cpu = txt "cpu"
metric_name mem = txt "memory"
metric_name disk = txt "disk"

abbrev pub hot_from : ℕ
hot_from = 85

abbrev pub warm_from : ℕ
warm_from = 70

unfoldable pub level : ℕ → Colour
level v = if leb hot_from v then Colour.crit else if leb warm_from v then Colour.warn else Colour.ok

abbrev pub val : Metric → Host → ℕ
val cpu h = h.cpu
val mem h = h.mem
val disk h = h.disk

abbrev pub online : Host → Bool
online h = elim h.status [ HostStatus.offline ↦ false | HostStatus.pending ↦ false | _ ↦ true ]

unfoldable pub live : List Host → List Host
live hs = filter online hs

abbrev pub total : Metric → List Host → ℕ
total m [] = 0
total m (h ∷ hs) = val m h + total m hs

-- `Math.round(avg(m))`
unfoldable pub rounded_average : Metric → List Host → ℕ
rounded_average m hs =
    if is_empty (live hs) then 0 else round_quotient (total m (live hs)) (length (live hs))

abbrev pub by_value : Metric → Comparator Host
by_value m = by_key_down (val m)

abbrev pub first_of : List Host → Option Host
first_of [] = none
first_of (h ∷ hs) = some h

unfoldable pub busiest : Metric → List Host → Option Host
busiest m hs = first_of (sort (by_value m) (live hs))

abbrev pub at_least : ℕ → Metric → List Host → ℕ
at_least n m hs = length (filter (λ h. leb n (val m h)) hs)

unfoldable pub hot : Metric → List Host → ℕ
hot m hs = at_least hot_from m (live hs)

unfoldable pub warm : Metric → List Host → ℕ
warm m hs = at_least warm_from m (live hs) - hot m hs

abbrev pub over : ℕ → ℕ → Metric → Option Host → Text
over n from m b =
    plural n (txt "host") none
    ++ (txt " over " ++ (show from ++ (txt "% " ++ (metric_name m ++ busy b))))
  where
    busy : Option Host → Text
    busy none = txt "."
    busy (some h) = txt " — " ++ (h.name ++ (txt " at " ++ (show (val m h) ++ txt "%.")))

abbrev pub comfortable : Metric → Option Host → Text
comfortable m none = txt "No hosts are reachable right now."
comfortable m (some h) =
    txt "Everything comfortable — busiest is "
    ++ (h.name ++ (txt " at " ++ (show (val m h) ++ txt "%.")))

unfoldable pub headline : Metric → List Host → Text
headline m hs =
    if ltb 0 (hot m hs)
    then over (hot m hs) hot_from m (busiest m hs)
    else if ltb 0 (warm m hs)
    then over (warm m hs) warm_from m (busiest m hs)
    else comfortable m (busiest m hs)

abbrev pub online_number : Host → ℕ
online_number h = if online h then 1 else 0

abbrev pub row_order : Metric → Comparator Host
row_order m a b = then_by (by_key_down online_number a b) (by_value m a b)

unfoldable pub rows : Metric → List Host → List Host
rows m hs = sort (row_order m) hs

-- The hosts that are neither hot nor warm.
abbrev pub calm : Metric → List Host → ℕ
calm m hs = length (filter (λ h. not (leb warm_from (val m h))) (live hs))

at_least-partition :
    (m : Metric) (hs : List Host)
    → at_least warm_from m hs + length (filter (λ h. not (leb warm_from (val m h))) hs) ≡ length hs
at_least-partition m [] = omega arith
at_least-partition m (h ∷ hs) = ground (arith, at_least-partition m hs)

at_least-le : (m : Metric) (hs : List Host) → at_least hot_from m hs ≤ at_least warm_from m hs
at_least-le m [] = omega arith
at_least-le m (h ∷ hs) = ground (arith, at_least-le m hs)

-- Each host that is online is counted once: as hot, as warm or as neither.
pub hot-warm-calm :
    (m : Metric) (hs : List Host) → hot m hs + warm m hs + calm m hs ≡ length (live hs)
unfolding hot warm
hot-warm-calm m hs = omega (arith, at_least-partition m (live hs), at_least-le m (live hs))

-- The host is the busiest of the list, and of all only if the list is empty there is none.
abbrev pub IsBusiest : Metric → List Host → Option Host → Type 0
IsBusiest m hs none = hs ≡ []
IsBusiest m hs (some b) = All (λ h. val m h ≤ val m b) hs

at_least-none :
    (n : ℕ) (m : Metric) (hs : List Host)
    → at_least n m hs ≡ 0
    → All (λ h. leb n (val m h) ≡ false) hs
at_least-none n m [] e = tt
at_least-none n m (h ∷ hs) e = ground (arith, at_least-none n m hs)

at_least-below :
    (n : ℕ) (m : Metric) (hs : List Host) (b : Host)
    → All (λ h. val m h ≤ val m b) hs
    → leb n (val m b) ≡ false
    → at_least n m hs ≡ 0
at_least-below n m [] b h e = refl
at_least-below n m (g ∷ hs) b (l, h) e = ground (arith, at_least-below n m hs b h e)

sorted-IsBusiest :
    (m : Metric) (hs : List Host) → IsSorted (by_value m) hs → IsBusiest m hs (first_of hs)
sorted-IsBusiest m [] h = refl
sorted-IsBusiest m (b ∷ hs) (below, h) =
    (omega arith, All-map _ (λ g. val m g ≤ val m b) (λ g k. ground arith) hs below)

first-All : (P : Host → Type 0) (hs : List Host) (b : Host) → first_of hs ≡ some b → All P hs → P b
first-All P [] b e h = cc
first-All P (g ∷ hs) b e (p, h) = let same : g ≡ b = cc in subst P same p

busiest-All :
    (m : Metric) (hs : List Host) (b : Host)
    → first_of (sort (by_value m) hs) ≡ some b
    → All (λ h. val m h ≤ val m b) hs
busiest-All m hs b e = unsort-All (by_value m) _ hs (
    subst (IsBusiest m (sort (by_value m) hs)) e
      (sorted-IsBusiest m _ (sort-IsSorted _ (by_key_down-IsConsistent (val m)) hs)))

-- With a busiest host, some host reaches a load exactly if that one does.
at_least-busiest :
    (n : ℕ) (m : Metric) (hs : List Host) (b : Host)
    → first_of (sort (by_value m) hs) ≡ some b
    → ltb 0 (at_least n m hs) ≡ leb n (val m b)
at_least-busiest n m hs b e = elim (Bool-cases (leb n (val m b))) [
  | inl y ↦ rw y (elim (Bool-cases (ltb 0 (at_least n m hs))) [
    | inl z ↦ z
    | inr off ↦
        let zero_of : at_least n m hs ≡ 0 = ground arith in
        let below =
          first-All (λ h. leb n (val m h) ≡ false) _ b e
            (sort-All (by_value m) _ hs (at_least-none n m hs zero_of)) in
        ground (arith, below, y)
  ])
  | inr off ↦ rw (off, at_least-below n m hs b (busiest-All m hs b e) off) refl
]

choice_eq :
    {A : Type 0} (p q r s : Bool) (x y z : A)
    → p ≡ r
    → (p ≡ false → q ≡ s)
    → (if p then x else if q then y else z) ≡ (if r then x else if s then y else z)
choice_eq true q true s x y z e h = refl
choice_eq true q false s x y z e h = cc
choice_eq false q true s x y z e h = cc
choice_eq false q false s x y z e h = rw (h refl) refl

-- What is over a number, when nothing is to be taken away.
ltb-minus : (a k : ℕ) (v : Bool) → ltb 0 k ≡ false → ltb 0 a ≡ v → ltb 0 (a - k) ≡ v
ltb-minus a k v h e = ground arith

-- With hosts online, the headline is decided by the busiest one: hosts over 85 % if it is, else hosts
-- over 70 % if it is, else all are comfortable; and no host online is busier.
pub headline-busiest :
    (m : Metric) (hs : List Host) (b : Host)
    → busiest m hs ≡ some b
    → (headline m hs ≡ (
        if leb hot_from (val m b)
        then over (hot m hs) hot_from m (some b)
        else if leb warm_from (val m b)
        then over (warm m hs) warm_from m (some b)
        else comfortable m (some b)))
      × All (λ h. val m h ≤ val m b) (live hs)
unfolding headline busiest hot warm
headline-busiest m hs b e = (
  choice_eq _ _ _ _ _ _ _ (at_least-busiest hot_from m (live hs) b e)
        (λ h. ltb-minus _ _ _ h (at_least-busiest warm_from m (live hs) b e))
      ∙ ap
          (λ o.
            if leb hot_from (val m b)
            then over (hot m hs) hot_from m o
            else if leb warm_from (val m b)
            then over (warm m hs) warm_from m o
            else comfortable m o)
          e,
  busiest-All m (live hs) b e,
)
