-- ===== src/Shell/Toasts.antt =====
-- `toast` of web/components/shell/AppShell.tsx and `ToastInput` of shell/context.tsx. `on_action` is a
-- number for the function to call.
use app_dockhand.Base.{
  none, some, ℕ, Bool, Text, List, Option, ◌==◌, suc, filter, if◌then◌else◌, [], length, arith,
  Bool-cases, drop, some, ◌++◌, not, any, ◌∷◌, ltb, ◌≤◌, All, length-append, length-filter-le, ◌≡◌,
  ◌-◌, true, ◌<◌, All-filter, All-append, length-drop, false, inl, All-map, inr,
}
use Prim.Native.Nat.{zero, zero}

pub data ToastKind : Type 0 where
  ok error info warn : ToastKind

pub record ToastInput : Type 0 where
  pub title : Text
  pub text : Option Text
  pub kind : Option ToastKind
  pub action : Option Text
  pub on_action : Option ℕ
  pub timeout : Option ℕ

pub record ToastItem : Type 0 where
  pub input : ToastInput
  pub id : ℕ

-- `toasts`, `toastId` and the timers that are set: for which toast, and how long.
pub record Toasts : Type 0 where
  pub toasts : List ToastItem
  pub toast_id : ℕ
  pub timers : List (ℕ × ℕ)

-- `ts.slice(-3)`
abbrev pub last_three : List ToastItem → List ToastItem
last_three ts = drop (length ts - 3) ts

abbrev pub is_error : Option ToastKind → Bool
is_error (some ToastKind.error) = true
is_error _ = false

abbrev pub timeout_of : ToastInput → ℕ
timeout_of t = elim t.timeout [ none ↦ if is_error t.kind then 7000 else 4500 | some n ↦ n ]

abbrev pub has_id : ℕ → ToastItem → Bool
has_id n t = t.id == n

unfoldable pub toast : ToastInput → Toasts → Toasts
toast t s =
    let id = suc s.toast_id in
    record {
      toasts = last_three s.toasts ++ record { input = t; id = id } ∷ [];
      toast_id = id;
      timers = if ltb 0 (timeout_of t) then (id, timeout_of t) ∷ s.timers else s.timers;
    }

unfoldable pub dismiss : ℕ → Toasts → Toasts
dismiss id s = record s { toasts = filter (λ t. not (has_id id t)) s.toasts }

-- The timer for the toast runs out, if it is set.
unfoldable pub fire : ℕ → Toasts → Toasts
fire id s =
    if any (λ (t : ℕ × ℕ). t.0 == id) s.timers
    then record {
      toasts = filter (λ t. not (has_id id t)) s.toasts;
      toast_id = s.toast_id;
      timers = filter (λ (t : ℕ × ℕ). not (t.0 == id)) s.timers;
    }
    else s

pub data ToastEvent : Type 0 where
  show_toast : ToastInput → ToastEvent
  dismiss_toast fire_timer : ℕ → ToastEvent

unfoldable pub toast_step : ToastEvent → Toasts → Toasts
toast_step (show_toast t) s = toast t s
toast_step (dismiss_toast id) s = dismiss id s
toast_step (fire_timer id) s = fire id s

abbrev pub no_toasts : Toasts
no_toasts = record { toasts = []; toast_id = 0; timers = [] }

abbrev pub toast_run : Toasts → List ToastEvent → Toasts
toast_run s [] = s
toast_run s (e ∷ es) = toast_run (toast_step e s) es

-- The ids rise along the list and are at most n.
abbrev pub IsRising : List ToastItem → ℕ → Type 0
IsRising [] n = Unit
IsRising (t ∷ ts) n = (t.id ≤ n) × All (λ (u : ToastItem). t.id < u.id) ts × IsRising ts n

-- A toast that goes away by itself has its timer set.
abbrev pub IsTimed : List (ℕ × ℕ) → ToastItem → Type 0
IsTimed timers t =
    ltb 0 (timeout_of t.input) ≡ true → any (λ (u : ℕ × ℕ). u.0 == t.id) timers ≡ true

pub record IsWell (s : Toasts) : Type 0 where
  pub few : length s.toasts ≤ 4
  pub rising : IsRising s.toasts s.toast_id
  pub timed : All (IsTimed s.timers) s.toasts

IsRising-filter :
    (p : ToastItem → Bool) (ts : List ToastItem) (n : ℕ) → IsRising ts n → IsRising (filter p ts) n
IsRising-filter p [] n h = tt
IsRising-filter p (t ∷ ts) n (le, below, h) =
    ground (arith, All-filter (λ (u : ToastItem). t.id < u.id) p ts below, IsRising-filter p ts n h)

All-drop : {A : Type 0} (P : A → Type 0) (k : ℕ) (xs : List A) → All P xs → All P (drop k xs)
All-drop P zero xs h = h
All-drop P (suc k) [] h = tt
All-drop P (suc k) (x ∷ xs) (p, h) = All-drop P k xs h

IsRising-drop : (k : ℕ) (ts : List ToastItem) (n : ℕ) → IsRising ts n → IsRising (drop k ts) n
IsRising-drop zero ts n h = h
IsRising-drop (suc k) [] n h = tt
IsRising-drop (suc k) (t ∷ ts) n (le, below, h) = IsRising-drop k ts n h

IsRising-snoc :
    (ts : List ToastItem) (t : ToastInput) (n : ℕ)
    → IsRising ts n
    → IsRising (ts ++ record { input = t; id = suc n } ∷ []) (suc n)
IsRising-snoc [] t n h = (omega arith, tt, tt)
IsRising-snoc (u ∷ us) t n (le, below, h) = (
  omega arith,
  All-append (λ (w : ToastItem). u.id < w.id) us _ below (omega arith, tt),
  IsRising-snoc us t n h,
)

toast-IsWell : (t : ToastInput) (s : Toasts) → IsWell s → IsWell (toast t s)
unfolding toast
toast-IsWell t s h = record {
  few = omega (
    arith,
    length-append (last_three s.toasts) (record { input = t; id = suc s.toast_id } ∷ []),
    length-drop (length s.toasts - 3) s.toasts,
    h.few,
  );
  rising =
      IsRising-snoc (last_three s.toasts) t s.toast_id
        (IsRising-drop _ s.toasts s.toast_id h.rising);
  timed =
      All-append _ (last_three s.toasts) _
        (All-drop _ _ s.toasts
          (All-map (IsTimed s.timers) _ (λ u k e. ground (arith, k e)) s.toasts h.timed))
        (λ e. ground arith, tt);
}

dismiss-IsWell : (id : ℕ) (s : Toasts) → IsWell s → IsWell (dismiss id s)
unfolding dismiss
dismiss-IsWell id s h = record {
  few = omega (arith, h.few, length-filter-le (λ t. not (has_id id t)) s.toasts);
  rising = IsRising-filter _ s.toasts s.toast_id h.rising;
  timed = All-filter _ _ s.toasts h.timed;
}

any-other :
    (timers : List (ℕ × ℕ)) (id n : ℕ)
    → (n == id) ≡ false
    → any (λ (u : ℕ × ℕ). u.0 == n) timers ≡ true
    → any (λ (u : ℕ × ℕ). u.0 == n) (filter (λ (t : ℕ × ℕ). not (t.0 == id)) timers) ≡ true
any-other [] id n h k = k
any-other ((m, d) ∷ ts) id n h k = ground (arith, any-other ts id n h)

-- The toasts that stay after a timer ran out are timed by the others.
fired-IsTimed :
    (timers : List (ℕ × ℕ)) (id : ℕ) (ts : List ToastItem)
    → All (IsTimed timers) ts
    → All
        (IsTimed (filter (λ (t : ℕ × ℕ). not (t.0 == id)) timers))
        (filter (λ t. not (has_id id t)) ts)
fired-IsTimed timers id [] h = tt
fired-IsTimed timers id (t ∷ ts) (k, h) = elim (Bool-cases (has_id id t)) [
  | inl y ↦ rw y (fired-IsTimed timers id ts h)
  | inr off ↦ rw off (λ e. any-other timers id t.id off (k e), fired-IsTimed timers id ts h)
]

fire-IsWell : (id : ℕ) (s : Toasts) → IsWell s → IsWell (fire id s)
unfolding fire
fire-IsWell id s h = elim (Bool-cases (any (λ (t : ℕ × ℕ). t.0 == id) s.timers)) [
  | inl y ↦ rw y (record {
    few = omega (arith, h.few, length-filter-le (λ t. not (has_id id t)) s.toasts);
    rising = IsRising-filter _ s.toasts s.toast_id h.rising;
    timed = fired-IsTimed s.timers id s.toasts h.timed;
  })
  | inr off ↦ rw off h
]

toast_step-IsWell : (e : ToastEvent) (s : Toasts) → IsWell s → IsWell (toast_step e s)
unfolding toast_step
toast_step-IsWell (show_toast t) s h = toast-IsWell t s h
toast_step-IsWell (dismiss_toast id) s h = dismiss-IsWell id s h
toast_step-IsWell (fire_timer id) s h = fire-IsWell id s h

run-IsWell : (s : Toasts) (es : List ToastEvent) → IsWell s → IsWell (toast_run s es)
run-IsWell s [] h = h
run-IsWell s (e ∷ es) h = run-IsWell (toast_step e s) es (toast_step-IsWell e s h)

-- Whatever toasts come and go, at most four are shown, in the order in which they came, each with an
-- id of its own, and each that is to go away by itself has a timer that will take it away.
pub toast_run-IsWell : (es : List ToastEvent) → IsWell (toast_run no_toasts es)
toast_run-IsWell es =
    run-IsWell no_toasts es (record { few = omega arith; rising = tt; timed = tt })
