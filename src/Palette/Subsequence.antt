-- ===== src/Palette/Subsequence.antt =====
-- What the score of web/components/shell/CommandPalette.tsx finds, as compared with subsequences.
use app_dockhand.Base.{
  none, some, refl, ℕ, Bool, Option, Text, ◌||◌, true, starts_with, ◌∷◌, ◌==◌, length, filter, ◌≡◌,
  false, ◌&&◌, not, arith, ◌∙◌, Bool-cases, inl, inr, sym, ltb, ◌≤◌,
}
use app_dockhand.Base.Int.{ℤ, pos, negsuc}
use mathlib.Core.List.{[], [], []}
use app_dockhand.Palette.Score.{
  index_of, one_further, find_unit, add_score, after_found, score_units, units_score, score_found,
  score, next_run, unit_score, one_later,
}

-- The units of the query other than blanks occur in the text, in their order.
abbrev pub is_subsequence : Text → Text → Bool
is_subsequence [] t = true
is_subsequence (c ∷ q) [] = false
is_subsequence (c ∷ q) (d ∷ t) =
    let here = is_subsequence q t in let later = is_subsequence (c ∷ q) t in c == d && here || later

abbrev pub no_blanks : Text → Text
no_blanks q = filter (λ c. not (c == 32)) q

subsequence-drop :
    (c : ℕ) (q t : Text) → is_subsequence (c ∷ q) t ≡ true → is_subsequence q t ≡ true
subsequence-drop c q [] h = cc
subsequence-drop c [] (d ∷ t) h = refl
subsequence-drop c (e ∷ q) (d ∷ t) h =
    ground (arith, subsequence-drop c (e ∷ q) t, subsequence-drop e q t)

subsequence-more :
    (q t : Text) (d : ℕ) → is_subsequence q t ≡ true → is_subsequence q (d ∷ t) ≡ true
subsequence-more [] t d h = refl
subsequence-more (c ∷ q) t d h = ground arith

-- What is left of the text after the first such unit.
abbrev after_unit : Option (ℕ × Option ℕ × Text) → Text → Bool
after_unit none q = false
after_unit (some (n, p, t)) q = is_subsequence q t

after_further :
    (o : Option (ℕ × Option ℕ × Text)) (q : Text) → after_unit (one_further o) q ≡ after_unit o q
after_further none q = refl
after_further (some x) q = refl

find_unit-subsequence :
    (c : ℕ) (q : Text) (prev : Option ℕ) (t : Text)
    → is_subsequence (c ∷ q) t ≡ after_unit (find_unit c prev t) q
unfolding find_unit
find_unit-subsequence c q prev [] = refl
find_unit-subsequence c q prev (d ∷ t) = ground (
  arith,
  find_unit-subsequence c q (some d) t,
  subsequence-drop c q t,
  after_further (find_unit c (some d) t) q,
)

abbrev is_found : Option ℕ → Bool
is_found none = false
is_found (some s) = true

found-add_score : (n : ℕ) (o : Option ℕ) → is_found (add_score n o) ≡ is_found o
found-add_score n none = refl
found-add_score n (some s) = refl

found-after_found :
    (o : Option (ℕ × Option ℕ × Text)) (ch run : ℕ) (q : Text)
    → (k : Option ℕ → Text → ℕ → Option ℕ)
    → ((p : Option ℕ) (t : Text) (r : ℕ) → is_found (k p t r) ≡ is_subsequence q t)
    → is_found (after_found o ch run k) ≡ after_unit o q
found-after_found none ch run q k h = refl
found-after_found (some (gap, prev, t)) ch run q k h =
    found-add_score _ (k (some ch) t (next_run gap run)) ∙ h (some ch) t (next_run gap run)

-- The loop takes the first place for each unit, and misses nothing by it.
pub score_units-subsequence :
    (q : Text) (prev : Option ℕ) (t : Text) (run : ℕ)
    → is_found (score_units q prev t run) ≡ is_subsequence (no_blanks q) t
unfolding score_units
score_units-subsequence [] prev t run = refl
score_units-subsequence (c ∷ q) prev t run = elim (Bool-cases (c == 32)) [
  | inl y ↦ rw y (score_units-subsequence q prev t run)
  | inr off ↦ rw off (
      found-after_found (find_unit c prev t) c run (no_blanks q) (score_units q)
        (score_units-subsequence q)
      ∙ sym (find_unit-subsequence c (no_blanks q) prev t))
]

abbrev pub is_positive : ℤ → Bool
is_positive (pos n) = ltb 0 n
is_positive (negsuc n) = false

-- Something that is found counts for something.
positive-add_score :
    (gap run : ℕ) (prev : Option ℕ) (o : Option ℕ)
    → is_positive (units_score (add_score (unit_score gap run prev) o)) ≡ is_found o
positive-add_score gap run prev none = refl
positive-add_score gap run prev (some s) = ground arith

positive-after_found :
    (o : Option (ℕ × Option ℕ × Text)) (ch run : ℕ) (k : Option ℕ → Text → ℕ → Option ℕ)
    → is_positive (units_score (after_found o ch run k)) ≡ is_found (after_found o ch run k)
positive-after_found none ch run k = refl
positive-after_found (some (gap, prev, t)) ch run k =
    positive-add_score gap (next_run gap run) prev (k (some ch) t (next_run gap run))
    ∙ sym (found-add_score _ (k (some ch) t (next_run gap run)))

positive-units :
    (c : ℕ) (q : Text) (t : Text)
    → (c == 32) ≡ false
    → is_positive (units_score (score_units (c ∷ q) none t 0))
      ≡ is_found (score_units (c ∷ q) none t 0)
unfolding score_units
positive-units c q t h = rw h (positive-after_found (find_unit c none t) c 0 (score_units q))

starts-subsequence : (q t : Text) → starts_with t q ≡ true → is_subsequence (no_blanks q) t ≡ true
unfolding starts_with
starts-subsequence [] t h = refl
starts-subsequence (c ∷ q) [] h = cc
starts-subsequence (c ∷ q) (d ∷ t) h =
    ground (arith, starts-subsequence q t, subsequence-more (no_blanks q) t d)

abbrev IsInside : Text → Text → Option (ℕ × Option ℕ) → Type 0
IsInside q t none = Unit
IsInside q t (some (i, p)) = (is_subsequence (no_blanks q) t ≡ true) × (i ≤ length t)

index_of-IsInside : (q : Text) (prev : Option ℕ) (t : Text) → IsInside q t (index_of q prev t)
unfolding index_of
index_of-IsInside q prev [] = elim (Bool-cases (starts_with [] q)) [
  | inl y ↦ rw y (starts-subsequence q [] y, omega arith)
  | inr off ↦ rw off tt
]
index_of-IsInside q prev (d ∷ t) = elim (Bool-cases (starts_with (d ∷ t) q)) [
  | inl y ↦ rw y (starts-subsequence q (d ∷ t) y, omega arith)
  | inr off ↦ rw off (later (index_of q (some d) t) (index_of-IsInside q (some d) t))
]
  where
    later : (o : Option (ℕ × Option ℕ)) → IsInside q t o → IsInside q (d ∷ t) (one_later o)
    later none h = tt
    later (some (i, p)) (h, l) = (subsequence-more (no_blanks q) t d h, omega arith)

score_found-positive :
    (c : ℕ) (q t : Text) (o : Option (ℕ × Option ℕ))
    → (c == 32) ≡ false
    → length t ≤ 400
    → IsInside (c ∷ q) t o
    → is_positive (score_found (c ∷ q) t o) ≡ is_subsequence (no_blanks (c ∷ q)) t
score_found-positive c q t none h l k =
    positive-units c q t h ∙ score_units-subsequence (c ∷ q) none t 0
score_found-positive c q t (some (i, p)) h l (k, m) = rw k (ground arith)

-- A query that does not begin with a blank scores above zero, in a text of at most 400 units, exactly
-- if its units other than blanks occur in the text in their order.
pub score-positive :
    (c : ℕ) (q t : Text)
    → (c == 32) ≡ false
    → length t ≤ 400
    → is_positive (score (c ∷ q) t) ≡ is_subsequence (no_blanks (c ∷ q)) t
unfolding score
score-positive c q t h l =
    score_found-positive c q t (index_of (c ∷ q) none t) h l (index_of-IsInside (c ∷ q) none t)
