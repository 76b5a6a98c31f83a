-- ===== src/Shell/Confirm.antt =====
-- `confirm` and `ConfirmDialog` of web/components/shell/AppShell.tsx, and `ConfirmInput` of
-- shell/context.tsx, its text and icon as texts. A promise is the number of the call that made it.
use app_dockhand.Base.{
  none, some, refl, ℕ, Bool, Text, Option, suc, false, [], List, ◌≡◌, All, true, ◌∷◌, if◌then◌else◌,
  ◌≤◌, arith, Bool-cases, is_empty, ◌<◌, inl, ◌||◌, inr, text_eq,
}

pub record ConfirmInput : Type 0 where
  pub title : Text
  pub text : Text
  pub confirm_label : Text
  pub danger : Bool
  pub icon : Option Text
  pub details : List (Text × Text)
  pub type_to_confirm : Option Text

-- An answered promise, with what had been asked and typed.
pub record Answer : Type 0 where
  pub promise : ℕ
  pub input : ConfirmInput
  pub typed : Text
  pub value : Bool

-- `confirmState`, the calls so far, the state of the dialog, and the answers, the last one first.
pub record Confirms : Type 0 where
  pub confirm_state : Option (ConfirmInput × ℕ)
  pub calls : ℕ
  pub typed : Text
  pub answers : List Answer

unfoldable pub is_ok : ConfirmInput → Text → Bool
is_ok c typed = elim c.type_to_confirm [ none ↦ true | some s ↦ is_empty s || text_eq typed s ]

abbrev pub typed_at_start : Option (ConfirmInput × ℕ) → Text → Text
typed_at_start none typed = []
typed_at_start (some p) typed = typed

-- A dialog that is shown already stays mounted, with the text typed so far.
unfoldable pub confirm : ConfirmInput → Confirms → Confirms
confirm c s = record s {
  confirm_state = some (c, suc s.calls);
  calls = suc s.calls;
  typed = typed_at_start s.confirm_state s.typed;
}

-- `confirmState.resolve(v)`
unfoldable pub close : Bool → Option (ConfirmInput × ℕ) → Confirms → Confirms
close v none s = s
close v (some (c, n)) s = record s {
  confirm_state = none;
  answers = record { promise = n; input = c; typed = s.typed; value = v } ∷ s.answers;
}

-- The button does nothing while it is disabled.
unfoldable pub press : Option (ConfirmInput × ℕ) → Confirms → Confirms
press none s = s
press (some (c, n)) s = if is_ok c s.typed then close true (some (c, n)) s else s

pub data ConfirmEvent : Type 0 where
  ask : ConfirmInput → ConfirmEvent
  type_text : Text → ConfirmEvent
  accept cancel : ConfirmEvent

unfoldable pub confirm_step : ConfirmEvent → Confirms → Confirms
confirm_step (ask c) s = confirm c s
confirm_step (type_text t) s = record s { typed = t }
confirm_step accept s = press s.confirm_state s
confirm_step cancel s = close false s.confirm_state s

abbrev pub no_confirms : Confirms
no_confirms = record { confirm_state = none; calls = 0; typed = []; answers = [] }

abbrev pub confirm_run : Confirms → List ConfirmEvent → Confirms
confirm_run s [] = s
confirm_run s (e ∷ es) = confirm_run (confirm_step e s) es

-- Consent was given with the text that the dialog asks for.
abbrev pub IsConsent : Answer → Type 0
IsConsent a = a.value ≡ true → is_ok a.input a.typed ≡ true

-- Each answer is of an earlier call than the one before it in the list, and than the n-th.
abbrev pub IsBefore : ℕ → List Answer → Type 0
IsBefore n [] = Unit
IsBefore n (a ∷ more) = (a.promise < n) × IsBefore a.promise more

-- The dialog is the one of the last call.
abbrev pub IsLast : Option (ConfirmInput × ℕ) → ℕ → List Answer → Type 0
IsLast none n more = IsBefore (suc n) more
IsLast (some (c, m)) n more = (m ≡ n) × IsBefore n more

pub record IsWell (s : Confirms) : Type 0 where
  pub consents : All IsConsent s.answers
  pub once : IsLast s.confirm_state s.calls s.answers

IsBefore-weaken : (m n : ℕ) (more : List Answer) → m ≤ n → IsBefore m more → IsBefore n more
IsBefore-weaken m n [] l h = tt
IsBefore-weaken m n (a ∷ more) l (h, k) = (omega arith, k)

IsLast-IsBefore :
    (o : Option (ConfirmInput × ℕ)) (n : ℕ) (more : List Answer)
    → IsLast o n more
    → IsBefore (suc n) more
IsLast-IsBefore none n more h = h
IsLast-IsBefore (some (c, m)) n more (e, h) = IsBefore-weaken n (suc n) more (omega arith) h

close-IsWell :
    (v : Bool) (o : Option (ConfirmInput × ℕ)) (s : Confirms)
    → (v ≡ true → (c : ConfirmInput) (n : ℕ) → o ≡ some (c, n) → is_ok c s.typed ≡ true)
    → IsLast o s.calls s.answers
    → IsWell s
    → IsWell (close v o s)
unfolding close
close-IsWell v none s ok l h = h
close-IsWell v (some (c, n)) s ok (m, l) h = record {
  consents = (λ t. ok t c n refl, h.consents);
  once = (omega (arith, m), rw m l);
}

press-IsWell :
    (o : Option (ConfirmInput × ℕ)) (s : Confirms)
    → IsLast o s.calls s.answers
    → IsWell s
    → IsWell (press o s)
unfolding press
press-IsWell none s l h = h
press-IsWell (some (c, n)) s l h = elim (Bool-cases (is_ok c s.typed)) [
  | inl y ↦ rw y (close-IsWell true (some (c, n)) s (λ t d m q. ground (arith, y, q)) l h)
  | inr off ↦ rw off h
]

confirm_step-IsWell : (e : ConfirmEvent) (s : Confirms) → IsWell s → IsWell (confirm_step e s)
unfolding confirm_step confirm
confirm_step-IsWell (ask c) s h = record {
  consents = h.consents;
  once = (refl, IsLast-IsBefore s.confirm_state s.calls s.answers h.once);
}
confirm_step-IsWell (type_text t) s h = record { consents = h.consents; once = h.once }
confirm_step-IsWell accept s h = press-IsWell s.confirm_state s h.once h
confirm_step-IsWell cancel s h = close-IsWell false s.confirm_state s (λ t c n q. cc) h.once h

run-IsWell : (s : Confirms) (es : List ConfirmEvent) → IsWell s → IsWell (confirm_run s es)
run-IsWell s [] h = h
run-IsWell s (e ∷ es) h = run-IsWell (confirm_step e s) es (confirm_step-IsWell e s h)

-- Whatever is asked, typed, accepted and cancelled: a call is answered with consent only if the text
-- that it asks for had been typed, no call is answered twice, and the open dialog is that of the last
-- call, which is not answered yet.
pub confirm_run-IsWell : (es : List ConfirmEvent) → IsWell (confirm_run no_confirms es)
confirm_run-IsWell es = run-IsWell no_confirms es (record { consents = tt; once = tt })
