-- ===== src/Deploy/Check.antt =====
-- web/components/deploy/shared.tsx: the pre-flight check of a deployment. The server is a parameter:
-- its answer to an input, or none if the request fails.
use app_dockhand.Base.{
  refl, ℕ, Bool, suc, Text, [], if◌then◌else◌, List, Option, none, text_eq, false, take, is_empty,
  ◌∷◌, ◌++◌, some, get_elem?, ◌≤◌, All, true, drop, ◌==◌, ◌≡◌, arith, Bool-cases, All-append, inl,
  All-take, inr, All-drop, Option-cases,
}
use app_dockhand.Types.Deploy.{DeployCheckResult}
use Prim.Native.Nat.{zero}

-- `key` is the input as JSON, empty for no input. A request that is under way has the number and the
-- input of the run of the effect that sent it.
pub record DeployCheck : Type 0 where
  pub key : Text
  pub result : Option DeployCheckResult
  pub checking : Bool
  pub seq : ℕ
  pub timer : Bool
  pub in_flight : List (ℕ × Text)

abbrev pub start_check : DeployCheck
start_check = record {
  key = [];
  result = none;
  checking = false;
  seq = 1;
  timer = false;
  in_flight = [];
}

-- `settle i` is the end of the i-th request under way.
pub data CheckEvent : Type 0 where
  input : Text → CheckEvent
  fire : CheckEvent
  settle : ℕ → CheckEvent

-- The effect runs when the key changes.
unfoldable pub change_input : Text → DeployCheck → DeployCheck
change_input key s =
    if text_eq key s.key
    then s
    else if is_empty key
    then record s { key = key; seq = suc s.seq; timer = false; result = none; checking = false }
    else record s { key = key; seq = suc s.seq; timer = true; checking = true }

unfoldable pub send_check : DeployCheck → DeployCheck
send_check s =
    if s.timer then record s { timer = false; in_flight = (s.seq, s.key) ∷ s.in_flight } else s

abbrev pub without : ℕ → List (ℕ × Text) → List (ℕ × Text)
without i xs = take i xs ++ drop (suc i) xs

module _ (server : Text → Option DeployCheckResult) where
  abbrev pub answer_check : Option (ℕ × Text) → DeployCheck → DeployCheck
  answer_check none s = s
  answer_check (some (n, key)) s =
      if n == s.seq then record s { result = server key; checking = false } else s

  unfoldable pub check_step : CheckEvent → DeployCheck → DeployCheck
  check_step (input key) s = change_input key s
  check_step fire s = send_check s
  check_step (settle i) s = record (answer_check (get_elem? s.in_flight i) s) {
    in_flight = without i s.in_flight;
  }

  abbrev pub check_run : DeployCheck → List CheckEvent → DeployCheck
  check_run s [] = s
  check_run s (e ∷ es) = check_run (check_step e s) es

  -- A request with the number of the last run has its input, which is not empty, and the timer of
  -- the run is over; no number is above that of the last run.
  abbrev pub IsFor : ℕ → Text → Bool → ℕ × Text → Type 0
  IsFor seq key timer (n, k) =
      (n ≤ seq) × (n ≡ seq → (k ≡ key) × (is_empty key ≡ false) × (timer ≡ false))

  pub record IsCurrent (s : DeployCheck) : Type 0 where
    pub requests : All (IsFor s.seq s.key s.timer) s.in_flight
    pub asked : s.timer ≡ true → is_empty s.key ≡ false
    pub settled :
        s.checking ≡ false
        → (s.timer ≡ false) × (s.result ≡ (if is_empty s.key then none else server s.key))

  aged :
      (seq : ℕ) (key key' : Text) (t t' : Bool) (xs : List (ℕ × Text))
      → All (IsFor seq key t) xs
      → All (IsFor (suc seq) key' t') xs
  aged seq key key' t t' [] h = tt
  aged seq key key' t t' ((n, k) ∷ xs) (a, h) =
      ((omega arith, λ e. absurd (omega arith)), aged seq key key' t t' xs h)

  fired-All :
      (seq : ℕ) (key : Text) (t : Bool) (xs : List (ℕ × Text))
      → All (IsFor seq key t) xs
      → All (IsFor seq key false) xs
  fired-All seq key t [] h = tt
  fired-All seq key t ((n, k) ∷ xs) ((a, f), h) =
      ((a, λ e. ((f e).0, (f e).1, refl)), fired-All seq key t xs h)

  get_elem?-IsFor :
      (seq : ℕ) (key : Text) (t : Bool) (xs : List (ℕ × Text)) (i n : ℕ) (k : Text)
      → All (IsFor seq key t) xs
      → get_elem? xs i ≡ some (n, k)
      → IsFor seq key t (n, k)
  get_elem?-IsFor seq key t [] i n k h e = cc
  get_elem?-IsFor seq key t (x ∷ xs) zero n k (a, h) e = ground (arith, a)
  get_elem?-IsFor seq key t (x ∷ xs) (suc i) n k (a, h) e = get_elem?-IsFor seq key t xs i n k h e

  change_input-IsCurrent :
      (key : Text) (s : DeployCheck) → IsCurrent s → IsCurrent (change_input key s)
  unfolding change_input
  change_input-IsCurrent key s h = elim (Bool-cases (text_eq key s.key)) [
    | inl y ↦ rw y h
    | inr off ↦ rw off (elim (Bool-cases (is_empty key)) [
      | inl gone ↦ rw gone (record {
        requests = aged s.seq s.key key s.timer false s.in_flight h.requests;
        asked = λ t. cc;
        settled = λ c. (refl, rw gone refl);
      })
      | inr here ↦ rw here (record {
        requests = aged s.seq s.key key s.timer true s.in_flight h.requests;
        asked = λ t. here;
        settled = λ c. cc;
      })
    ])
  ]

  send_check-IsCurrent : (s : DeployCheck) → IsCurrent s → IsCurrent (send_check s)
  unfolding send_check
  send_check-IsCurrent s h = elim (Bool-cases s.timer) [
    | inl y ↦ simp y (record {
      requests = (
        (omega arith, λ e. (refl, h.asked y, refl)),
        fired-All s.seq s.key s.timer s.in_flight h.requests,
      );
      asked = λ t. cc;
      settled = λ c. (refl, (h.settled c).1);
    })
    | inr off ↦ simp off h
  ]

  without-All :
      (i : ℕ) (s : DeployCheck)
      → IsCurrent s
      → All (IsFor s.seq s.key s.timer) (without i s.in_flight)
  without-All i s h =
      All-append (IsFor s.seq s.key s.timer) (take i s.in_flight) _
        (All-take (IsFor s.seq s.key s.timer) i s.in_flight h.requests)
        (All-drop (IsFor s.seq s.key s.timer) (suc i) s.in_flight h.requests)

  answered-IsCurrent :
      (n : ℕ) (k : Text) (i : ℕ) (s : DeployCheck)
      → IsCurrent s
      → IsFor s.seq s.key s.timer (n, k)
      → IsCurrent (record (answer_check (some (n, k)) s) { in_flight = without i s.in_flight })
  answered-IsCurrent n k i s h (a, f) = elim (Bool-cases (n == s.seq)) [
    | inl y ↦ simp y (record {
      requests = without-All i s h;
      asked = h.asked;
      settled =
          λ c. ((f (ground arith)).2, ground (arith, (f (ground arith)).0, (f (ground arith)).1));
    })
    | inr off ↦
        simp off (record { requests = without-All i s h; asked = h.asked; settled = h.settled })
  ]

  settle-IsCurrent :
      (i : ℕ) (s : DeployCheck)
      → IsCurrent s
      → IsCurrent
          (record (answer_check (get_elem? s.in_flight i) s) { in_flight = without i s.in_flight })
  settle-IsCurrent i s h = elim (Option-cases (get_elem? s.in_flight i)) [
    | inl e ↦ simp e (record { requests = without-All i s h; asked = h.asked; settled = h.settled })
    | inr ((n, k), e) ↦ simp e (
        answered-IsCurrent n k i s h
          (get_elem?-IsFor s.seq s.key s.timer s.in_flight i n k h.requests e))
  ]

  check_step-IsCurrent :
      (e : CheckEvent) (s : DeployCheck) → IsCurrent s → IsCurrent (check_step e s)
  unfolding check_step
  check_step-IsCurrent (input key) s h = change_input-IsCurrent key s h
  check_step-IsCurrent fire s h = send_check-IsCurrent s h
  check_step-IsCurrent (settle i) s h = settle-IsCurrent i s h

  run-IsCurrent :
      (es : List CheckEvent) (s : DeployCheck) → IsCurrent s → IsCurrent (check_run s es)
  run-IsCurrent [] s h = h
  run-IsCurrent (e ∷ es) s h = run-IsCurrent es (check_step e s) (check_step-IsCurrent e s h)

  -- However the input changes and in whatever order the requests end: while no check is under way,
  -- the result is the server's answer to the present input, and there is none without an input.
  pub result-check_run :
      (es : List CheckEvent)
      → (check_run start_check es).checking ≡ false
      → (check_run start_check es).result ≡ (
          if is_empty (check_run start_check es).key
          then none
          else server (check_run start_check es).key)
  result-check_run es c =
      let h : IsCurrent (check_run start_check es) =
        run-IsCurrent es start_check
          (record { requests = tt; asked = λ t. cc; settled = λ c. (refl, refl) }) in
      (h.settled c).1
