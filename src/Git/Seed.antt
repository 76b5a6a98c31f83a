-- ===== src/Git/Seed.antt =====
-- The variables of the form after they are seeded, and what is sent of them.
use app_dockhand.Base.{
  refl, Text, List, Option, ◌≡◌, find, Bool, map, none, any, true, some, ◌++◌, ◌∷◌, false, filter,
  ◌∙◌, arith, Bool-cases, text_eq, inl, inr, text_eq_sound, not, ◌≢◌, All, ◌&&◌, is_empty, trim,
  ne_of_not-is_empty,
}
use app_dockhand.Git.{
  seed_env, EnvRow, has_key, typed_value, deploy, Kv, post, clean_env, warn, missing,
}
use mathlib.Core.List.{[]}

abbrev pub row : Text → List EnvRow → Option EnvRow
row k env = find (has_key k) env

abbrev pub seeded_row : List EnvRow → EnvRow → EnvRow
seeded_row cur e = record e { v = typed_value cur e.k e.v }

abbrev pub some_seeded : List EnvRow → Option EnvRow → Option EnvRow
some_seeded cur none = none
some_seeded cur (some e) = some (seeded_row cur e)

-- `a ?? b`
abbrev pub or_row : Option EnvRow → Option EnvRow → Option EnvRow
or_row none r = r
or_row (some e) r = some e

abbrev extra : List EnvRow → List EnvRow → List EnvRow
extra env cur = filter (λ (e : EnvRow). not (any (has_key e.k) env)) cur

find-append :
    (p : EnvRow → Bool) (a b : List EnvRow) → find p (a ++ b) ≡ or_row (find p a) (find p b)
find-append p [] b = refl
find-append p (e ∷ a) b = ground (arith, find-append p a b)

row-seeded :
    (cur : List EnvRow) (k : Text) (env : List EnvRow)
    → row k (map (seeded_row cur) env) ≡ some_seeded cur (row k env)
row-seeded cur k [] = refl
row-seeded cur k (e ∷ env) = elim (Bool-cases (text_eq e.k k)) [
  | inl y ↦ rw y
  | inr y ↦ rw y (row-seeded cur k env)
]

any-row : (k : Text) (env : List EnvRow) → row k env ≡ none → any (has_key k) env ≡ false
any-row k [] h = refl
any-row k (e ∷ env) h = elim (Bool-cases (text_eq e.k k)) [
  | inl y ↦ let no : some e ≡ none = rw y at h in absurd (cc)
  | inr y ↦ rw y (any-row k env (rw y at h))
]

-- A filter by the key that lets a key pass leaves the row under it.
row-filter :
    (k : Text) (q : Text → Bool) (cur : List EnvRow)
    → q k ≡ true
    → row k (filter (λ (e : EnvRow). q e.k) cur) ≡ row k cur
row-filter k q [] h = refl
row-filter k q (e ∷ cur) h = elim (Bool-cases (text_eq e.k k)) [
  | inl y ↦ let p : q e.k ≡ true = rw (← (text_eq_sound e.k k y)) at h in rw (p, y)
  | inr y ↦ elim (Bool-cases (q e.k)) [
    | inl p ↦ rw (p, y) (row-filter k q cur h)
    | inr p ↦ rw (p, y) (row-filter k q cur h)
  ]
]

-- The row under a key: the one of the file, with the value from before if there was one; else the one from
-- before.
pub row-seed_env :
    (k : Text) (env cur : List EnvRow)
    → row k (seed_env env cur) ≡ or_row (some_seeded cur (row k env)) (row k cur)
unfolding seed_env
row-seed_env k env cur =
    find-append (has_key k) (map (seeded_row cur) env) (extra env cur)
    ∙ rw (row-seeded cur k env) (given (row k env) refl)
  where
    given :
        (o : Option EnvRow)
        → row k env ≡ o
        → or_row (some_seeded cur o) (row k (extra env cur))
          ≡ or_row (some_seeded cur o) (row k cur)
    given none e = row-filter k (λ j. not (any (has_key j) env)) cur (rw (any-row k env e))
    given (some e) h = refl

is_empty-filter :
    (q : EnvRow → Bool) (env : List EnvRow)
    → is_empty (filter q env) ≡ true
    → All (λ e. q e ≡ false) env
is_empty-filter q [] h = tt
is_empty-filter q (e ∷ env) h = elim (Bool-cases (q e)) [
  | inl y ↦ let no : false ≡ true = rw y at h in absurd (cc)
  | inr y ↦ (y, is_empty-filter q env (rw y at h))
]

-- A deployment is sent only for a host, a file and a value in each required variable; then all variables
-- with a key are sent.
pub deploy_lem :
    (host : Option Text) (file path : Text) (env : List EnvRow) (h f p : Text) (vars : List Kv)
    → deploy host file path env ≡ post h f p vars
    → (host ≡ some h)
      × (f ≢ [])
      × All (λ (e : EnvRow). (e.required && is_empty (trim e.v)) ≡ false) env
      × (vars ≡ clean_env env)
unfolding deploy
deploy_lem none file path env h f p vars e = absurd (cc (e))
deploy_lem (some host) file path env h f p vars e = elim (Bool-cases (is_empty file)) [
  | inl y ↦ let no : warn _ _ ≡ post h f p vars = rw y at e in absurd (cc)
  | inr y ↦ elim (Bool-cases (is_empty (missing env))) [
    | inl z ↦
        let sent : post host file (trim path) (clean_env env) ≡ post h f p vars = rw (y, z) at e in
        (
          cc,
          λ n. ne_of_not-is_empty file y (cc),
          unfold missing in is_empty-filter (λ x. x.required && is_empty (trim x.v)) env z,
          cc,
        )
    | inr z ↦ let no : warn _ _ ≡ post h f p vars = rw (y, z) at e in absurd (cc)
  ]
]
