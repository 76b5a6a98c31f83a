-- ===== src/Machines.antt =====
-- `Machines` of web/app/(app)/machines/page.tsx: what the page takes from its address, which machine it
-- shows, and its numbers.
pub mod Params
mod Tests
use app_dockhand.Base.{
  none, some, refl, ℕ, Bool, Text, if◌then◌else◌, false, Option, List, true, [], text_eq, ◌∷◌, find,
  length, txt, ◌==◌, ◌≡◌, ◌+◌, filter, show, ◌++◌, arith, any, not, Option-cases, inl, inr, sym, ap,
  ◌∙◌,
}
use mathlib.Core.Path.{subst}
use app_dockhand.Types.Hosts.{HostStatus}
use app_dockhand.Types.Machines.{Machine, MachineCheck, CheckStatus, Baseline}
use app_dockhand.Format.{Colour, plural}
use app_dockhand.Machines.Params.{SearchParams, get}

pub data View : Type 0 where
  hosts baselines : View

pub data MachineTab : Type 0 where
  updates security services : MachineTab

abbrev pub param : Text → SearchParams → Text
param k q = elim (get k q) [ none ↦ [] | some v ↦ v ]

unfoldable pub view_of : SearchParams → View
view_of q = if text_eq (param (txt "view") q) (txt "baselines") then baselines else hosts

unfoldable pub tab_of : SearchParams → MachineTab
tab_of q =
    if text_eq (param (txt "tab") q) (txt "security")
    then security
    else if text_eq (param (txt "tab") q) (txt "services")
    then services
    else updates

abbrev pub is_reachable : Machine → Bool
is_reachable m = elim m.status [
  | HostStatus.offline ↦ false
  | HostStatus.pending ↦ false
  | _ ↦ true
]

-- `a ?? b`
abbrev pub otherwise : {A : Type 0} → Option A → Option A → Option A
otherwise none b = b
otherwise (some a) b = some a

abbrev pub first_of : {A : Type 0} → List A → Option A
first_of [] = none
first_of (x ∷ xs) = some x

-- `cur`
unfoldable pub current : List Machine → Text → Option Machine
current ms selected =
    otherwise (find (λ (m : Machine). text_eq m.host_id selected) ms)
      (otherwise (find is_reachable ms) (first_of ms))

unfoldable pub current_baseline : List Baseline → Text → Option Baseline
current_baseline bs selected =
    otherwise (find (λ (b : Baseline). text_eq b.id selected) bs) (first_of bs)

abbrev pub sum_of : (Machine → ℕ) → List Machine → ℕ
sum_of f [] = 0
sum_of f (m ∷ ms) = f m + sum_of f ms

abbrev pub is_failing : MachineCheck → Bool
is_failing c = elim c.status [ CheckStatus.bad ↦ true | CheckStatus.warn ↦ true | _ ↦ false ]

abbrev pub update_count : List Machine → ℕ
update_count ms = sum_of (λ (m : Machine). length m.packages) ms

abbrev pub security_count : List Machine → ℕ
security_count ms = sum_of (λ (m : Machine). m.security) ms

abbrev pub failing_count : List Machine → ℕ
failing_count ms = sum_of (λ (m : Machine). length (filter is_failing m.checks)) ms

abbrev pub reboot_count : List Machine → ℕ
reboot_count ms = length (filter (λ (m : Machine). m.reboot) ms)

pub record Stat : Type 0 where
  pub k : Text
  pub v : ℕ
  pub sub : Text
  pub color : Option Colour

-- A colour that is missing is that of the text.
unfoldable pub stats : List Machine → List Stat
stats ms =
    record {
      k = txt "Hosts";
      v = length ms;
      sub = show (length (filter is_reachable ms)) ++ txt " reachable";
      color = none;
    }
    ∷ record {
      k = txt "Updates";
      v = update_count ms;
      sub =
          if security_count ms == 0
          then txt "no security updates"
          else show (security_count ms) ++ txt " security";
      color =
          if not (security_count ms == 0)
          then some Colour.crit
          else if update_count ms == 0
          then some Colour.ok
          else some Colour.warn;
    }
    ∷ record {
      k = txt "Reboots";
      v = reboot_count ms;
      sub = if reboot_count ms == 0 then txt "none pending" else txt "pending after updates";
      color = if reboot_count ms == 0 then some Colour.ok else some Colour.warn;
    }
    ∷ record {
      k = txt "Hardening";
      v = failing_count ms;
      sub = if failing_count ms == 0 then txt "all checks pass" else txt "checks failing";
      color = if failing_count ms == 0 then some Colour.ok else some Colour.crit;
    }
    ∷ []

abbrev pub s_of : ℕ → Text
s_of n = if n == 1 then [] else txt "s"

unfoldable pub summary : Option (List Machine) → Text
summary none = txt "Reading your machines…"
summary (some ms) =
    txt "Your "
    ++ (plural (length ms) (txt "host") none
        ++ (txt " from the operating system side · "
            ++ (show (update_count ms)
                ++ (txt " update"
                    ++ (s_of (update_count ms)
                        ++ (txt " waiting · "
                            ++ (show (failing_count ms)
                                ++ (txt " check"
                                    ++ (s_of (failing_count ms) ++ txt " failing")))))))))

find-holds : {A : Type 0} (p : A → Bool) (xs : List A) (x : A) → find p xs ≡ some x → p x ≡ true
find-holds p [] x h = cc
find-holds p (y ∷ ys) x h = ground (arith, find-holds p ys x)

find-none : {A : Type 0} (p : A → Bool) (xs : List A) → find p xs ≡ none → any p xs ≡ false
find-none p [] h = refl
find-none p (y ∷ ys) h = ground (arith, find-none p ys)

find-some : {A : Type 0} (p : A → Bool) (xs : List A) (x : A) → find p xs ≡ some x → any p xs ≡ true
find-some p [] x h = cc
find-some p (y ∷ ys) x h = ground (arith, find-some p ys x)

some-injective : {A : Type 0} {x y : A} → some x ≡ some y → x ≡ y
some-injective h = cc

-- The machine that the page shows is one that the address names, if such a one is in the list; else a
-- reachable one, if there is one.
current-cases :
    (ms : List Machine) (selected : Text) (m : Machine)
    → current ms selected ≡ some m
    → (any (λ (n : Machine). text_eq n.host_id selected) ms ≡ true
        → text_eq m.host_id selected ≡ true)
      × (any (λ (n : Machine). text_eq n.host_id selected) ms ≡ false
          → any is_reachable ms ≡ true
          → is_reachable m ≡ true)
unfolding current
current-cases ms selected m h =
    let p : Machine → Bool = λ n. text_eq n.host_id selected in
    let near = find is_reachable ms in
    elim (Option-cases (find p ms)) [
      | inl e ↦ elim (Option-cases (find is_reachable ms)) [
        | inl f ↦ (
          λ a. ground (arith, find-none p ms e),
          λ a b. ground (arith, find-none is_reachable ms f),
        )
        | inr (n, f) ↦
            let same : some n ≡ some m =
              sym (
                ap (λ o. otherwise o (otherwise near (first_of ms))) e
                ∙ ap (λ o. otherwise o (first_of ms)) f)
              ∙ h in
            (
              λ a. ground (arith, find-none p ms e),
              λ a b.
                  subst (λ k. is_reachable k ≡ true) (some-injective same)
                    (find-holds is_reachable ms n f),
            )
      ]
      | inr (n, e) ↦
          let same : some n ≡ some m =
            sym (ap (λ o. otherwise o (otherwise near (first_of ms))) e) ∙ h in
          (
            λ a. subst (λ k. p k ≡ true) (some-injective same) (find-holds p ms n e),
            λ a b. ground (arith, find-some p ms n e),
          )
    ]
