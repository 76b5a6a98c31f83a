-- ===== src/Compose/Current.antt =====
-- Of what text the shown result of the check is.
use mathlib.Core.List.{[]}
use Prim.Native.Nat.{zero}
use mathlib.Core.Option.{none}
use app_dockhand.Compose.Validation.{
  change, fire, settle, send, drop_request, validation_step, ValidationEvent, is_valid,
  receive_answer, validation_run, mounted, bool_eq, before_mount,
}
use app_dockhand.Base.{
  refl, ℕ, Text, Bool, ◌==◌, ◌||◌, ◌⊎◌, any, ◌≤◌, All, List, if◌then◌else◌, ◌≡◌, suc, inl, true,
  Bool-cases, false, inr, get_elem?, Option, arith, some, ◌∷◌, text_eq, ap, ◌&&◌, sym, ◌∙◌,
}
use app_dockhand.Compose.Validation.{
  Validation, ValidationState, rechecking, run_effect, is_on, state_of,
}
use app_dockhand.Types.Stacks.{ComposeValidation}

abbrev pub is_of : ℕ → ℕ × Text → Bool
is_of seq (n, content) = n == seq

-- Whether the last run of the effect waits, for its timer or for its answer.
abbrev pub is_waiting : Validation → Bool
is_waiting s = s.timer || any (is_of s.seq) s.in_flight

module _ (server : Text → ComposeValidation ⊎ Text) where
  -- What is shown for a text once its check has ended.
  abbrev pub final : Text → Bool → ValidationState
  final content enabled =
      if is_on content enabled then state_of (server content) else ValidationState.idle

  -- A request with the number of the last run has its text, which is checked; none is of a later run.
  abbrev IsFor : ℕ → Text → Bool → ℕ × Text → Type 0
  IsFor seq content enabled (n, k) =
      (n ≤ seq) × (n ≡ seq → (k ≡ content) × (is_on content enabled ≡ true))

  -- What is shown is the answer to some text, if it is an answer.
  abbrev IsAnswer : ValidationState → Type 0
  IsAnswer ValidationState.idle = Unit
  IsAnswer ValidationState.checking = Unit
  IsAnswer (ValidationState.done r) = (content : Text) × (server content ≡ inl r)
  IsAnswer (ValidationState.failed e) = Unit

  record IsCurrent (s : Validation) : Type 0 where
    requests : All (IsFor s.seq s.content s.enabled) s.in_flight
    asked : s.timer ≡ true → is_on s.content s.enabled ≡ true
    off : is_on s.content s.enabled ≡ false → s.state ≡ ValidationState.idle
    settled : is_waiting s ≡ false → s.state ≡ final s.content s.enabled
    answer : IsAnswer s.state

  aged :
      (seq : ℕ) (k k' : Text) (b b' : Bool) (xs : List (ℕ × Text))
      → All (IsFor seq k b) xs
      → All (IsFor (suc seq) k' b') xs
  aged seq k k' b b' [] h = tt
  aged seq k k' b b' ((n, t) ∷ xs) ((a, f), h) =
      ((omega arith, λ e. absurd (omega arith)), aged seq k k' b b' xs h)

  rechecking-IsAnswer : (s : ValidationState) → IsAnswer s → IsAnswer (rechecking s)
  rechecking-IsAnswer ValidationState.idle h = tt
  rechecking-IsAnswer ValidationState.checking h = tt
  rechecking-IsAnswer (ValidationState.done r) h = h
  rechecking-IsAnswer (ValidationState.failed e) h = tt

  run_effect-IsCurrent :
      (content : Text) (enabled : Bool) (s : Validation)
      → All (IsFor s.seq s.content s.enabled) s.in_flight
      → IsAnswer s.state
      → IsCurrent (run_effect content enabled s)
  run_effect-IsCurrent content enabled s h a = elim (Bool-cases (is_on content enabled)) [
    | inl y ↦ simp y (record {
      requests = aged s.seq s.content content s.enabled enabled s.in_flight h;
      asked = λ t. y;
      off = λ n. absurd (cc);
      settled = λ n. absurd (cc);
      answer = rechecking-IsAnswer s.state a;
    })
    | inr y ↦ simp y (record {
      requests = aged s.seq s.content content s.enabled enabled s.in_flight h;
      asked = λ t. absurd (cc);
      off = λ n. refl;
      settled = λ n. rw y;
      answer = tt;
    })
  ]

  send-IsCurrent : (s : Validation) → IsCurrent s → IsCurrent (send s)
  send-IsCurrent s h = elim (Bool-cases s.timer) [
    | inl y ↦ simp y (record {
      requests = ((omega arith, λ e. (refl, h.asked y)), h.requests);
      asked = λ t. absurd (cc);
      off = h.off;
      settled = λ n. absurd (ground arith);
      answer = h.answer;
    })
    | inr y ↦ simp y h
  ]

  get_elem?-IsFor :
      (seq : ℕ) (k : Text) (b : Bool) (xs : List (ℕ × Text)) (i n : ℕ) (t : Text)
      → All (IsFor seq k b) xs
      → get_elem? xs i ≡ some (n, t)
      → IsFor seq k b (n, t)
  get_elem?-IsFor seq k b [] i n t h e = cc
  get_elem?-IsFor seq k b (x ∷ xs) zero n t (a, h) e = ground (arith, a)
  get_elem?-IsFor seq k b (x ∷ xs) (suc i) n t (a, h) e = get_elem?-IsFor seq k b xs i n t h e

  drop_request-All :
      (P : ℕ × Text → Type 0) (i : ℕ) (xs : List (ℕ × Text)) → All P xs → All P (drop_request i xs)
  drop_request-All P i [] h = tt
  drop_request-All P zero (x ∷ xs) (a, h) = h
  drop_request-All P (suc i) (x ∷ xs) (a, h) = (a, drop_request-All P i xs h)

  -- Another request than that of the last run may go without notice.
  any-drop_request :
      (seq i : ℕ) (xs : List (ℕ × Text))
      → ((x : ℕ × Text) → get_elem? xs i ≡ some x → is_of seq x ≡ false)
      → any (is_of seq) (drop_request i xs) ≡ any (is_of seq) xs
  any-drop_request seq i [] h = refl
  any-drop_request seq zero (x ∷ xs) h = rw (h x refl)
  any-drop_request seq (suc i) (x ∷ xs) h = ap (λ b. is_of seq x || b) (any-drop_request seq i xs h)

  -- The end of a request that is not of the last run.
  dropped-IsCurrent :
      (i : ℕ) (s : Validation)
      → ((x : ℕ × Text) → get_elem? s.in_flight i ≡ some x → is_of s.seq x ≡ false)
      → IsCurrent s
      → IsCurrent (record s { in_flight = drop_request i s.in_flight })
  dropped-IsCurrent i s old h = record {
    requests = drop_request-All (IsFor s.seq s.content s.enabled) i s.in_flight h.requests;
    asked = h.asked;
    off = h.off;
    settled = λ n.
        h.settled (ap (λ b. s.timer || b) (sym (any-drop_request s.seq i s.in_flight old)) ∙ n);
    answer = h.answer;
  }

  state_of-IsAnswer :
      (k : Text) (o : ComposeValidation ⊎ Text) → server k ≡ o → IsAnswer (state_of o)
  state_of-IsAnswer k (inl r) e = (k, e)
  state_of-IsAnswer k (inr x) e = tt

  answered-IsCurrent :
      (i n : ℕ) (k : Text) (s : Validation)
      → get_elem? s.in_flight i ≡ some (n, k)
      → IsCurrent s
      → IsCurrent (record (receive_answer server (some (n, k)) s) {
        in_flight = drop_request i s.in_flight;
      })
  answered-IsCurrent i n k s e h =
      let (a, f) = get_elem?-IsFor s.seq s.content s.enabled s.in_flight i n k h.requests e in
      elim (Bool-cases (n == s.seq)) [
        | inl y ↦
            let (p, on) = f (ground arith) in
            simp y (record {
              requests =
                  drop_request-All (IsFor s.seq s.content s.enabled) i s.in_flight h.requests;
              asked = h.asked;
              off = λ g. absurd (cc);
              settled = λ g. rw (p, on);
              answer = state_of-IsAnswer k (server k) refl;
            })
        | inr y ↦ simp y (dropped-IsCurrent i s (λ (m, t) g. ground arith) h)
      ]

  settle-IsCurrent :
      (i : ℕ) (s : Validation) (o : Option (ℕ × Text))
      → get_elem? s.in_flight i ≡ o
      → IsCurrent s
      → IsCurrent (record (receive_answer server o s) { in_flight = drop_request i s.in_flight })
  settle-IsCurrent i s none e h = dropped-IsCurrent i s (λ x g. absurd (cc)) h
  settle-IsCurrent i s (some (n, k)) e h = answered-IsCurrent i n k s e h

  step-IsCurrent :
      (e : ValidationEvent) (s : Validation) → IsCurrent s → IsCurrent (validation_step server e s)
  unfolding validation_step
  step-IsCurrent (change content enabled) s h =
      elim (Bool-cases (text_eq content s.content && bool_eq enabled s.enabled)) [
        | inl y ↦ rw y h
        | inr y ↦ rw y (run_effect-IsCurrent content enabled s h.requests h.answer)
      ]
  step-IsCurrent fire s h = send-IsCurrent s h
  step-IsCurrent (settle i) s h = settle-IsCurrent i s _ refl h

  run-IsCurrent :
      (es : List ValidationEvent) (s : Validation)
      → IsCurrent s
      → IsCurrent (validation_run server es s)
  run-IsCurrent [] s h = h
  run-IsCurrent (e ∷ es) s h = run-IsCurrent es (validation_step server e s) (step-IsCurrent e s h)

  is_valid-answer :
      (s : ValidationState)
      → IsAnswer s
      → is_valid s ≡ true
      → (k : Text) × (r : ComposeValidation) × (server k ≡ inl r) × (r.ok ≡ true)
  unfolding is_valid
  is_valid-answer ValidationState.idle a h = absurd (cc)
  is_valid-answer ValidationState.checking a h = absurd (cc)
  is_valid-answer (ValidationState.done r) (k, e) h = (k, r, e, h)
  is_valid-answer (ValidationState.failed x) a h = absurd (cc)

  -- However the text changes, the check is turned on and off, and in whatever order the requests end:
  -- while the last run of the effect waits for nothing, what is shown is the server's answer to the
  -- present text, and nothing for a blank one or while the check is off; and a file is only called
  -- valid if the server has called some text valid.
  pub validation_run-final :
      (content : Text) (enabled : Bool) (es : List ValidationEvent)
      → let s = validation_run server es (mounted content enabled) in
        (is_waiting s ≡ false → s.state ≡ final s.content s.enabled)
        × (is_on s.content s.enabled ≡ false → s.state ≡ ValidationState.idle)
        × (is_valid s.state ≡ true
            → (k : Text) × (r : ComposeValidation) × (server k ≡ inl r) × (r.ok ≡ true))
  validation_run-final content enabled es =
      let h =
        run-IsCurrent es (mounted content enabled)
          (run_effect-IsCurrent content enabled (before_mount content enabled) tt tt) in
      (h.settled, h.off, is_valid-answer _ h.answer)
