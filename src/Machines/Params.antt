-- ===== src/Machines/Params.antt =====
-- `setParams` of web/app/(app)/machines/page.tsx, and what it uses of URLSearchParams: `get` gives the
-- first value of a key, `set` puts a value in its place and removes the others, `delete` removes all.
use app_dockhand.Base.{
  none, some, refl, List, Text, Option, filter, ◌∷◌, if◌then◌else◌, ◌≡◌, text_eq, not, is_empty,
  ◌∙◌, arith, Bool-cases, ap, text_eq_iff, inl, inr,
}
use mathlib.Core.List.{[]}

abbrev pub SearchParams : Type 0
SearchParams = List (Text × Text)

unfoldable pub get : Text → SearchParams → Option Text
get k [] = none
get k (p ∷ q) = if text_eq p.0 k then some p.1 else get k q

unfoldable pub delete : Text → SearchParams → SearchParams
delete k q = filter (λ (p : Text × Text). not (text_eq p.0 k)) q

unfoldable pub set : Text → Text → SearchParams → SearchParams
set k v [] = (k, v) ∷ []
set k v (p ∷ q) = let rest = set k v q in if text_eq p.0 k then (k, v) ∷ delete k q else p ∷ rest

abbrev pub set_param : Text × Text → SearchParams → SearchParams
set_param e q = if is_empty e.1 then delete e.0 q else set e.0 e.1 q

unfoldable pub set_params : List (Text × Text) → SearchParams → SearchParams
set_params [] q = q
set_params (e ∷ es) q = set_params es (set_param e q)

pub get-delete :
    (k j : Text) (q : SearchParams) → get j (delete k q) ≡ (if text_eq k j then none else get j q)
unfolding get delete
get-delete k j [] = ground arith
get-delete k j (p ∷ q) =
    ground (arith, get-delete k j q, text_eq_iff p.0 k, text_eq_iff p.0 j, text_eq_iff k j)

pub get-set :
    (k v j : Text) (q : SearchParams)
    → get j (set k v q) ≡ (if text_eq k j then some v else get j q)
unfolding get set
get-set k v j [] = ground arith
get-set k v j (p ∷ q) = ground (
  arith,
  get-set k v j q,
  get-delete k j q,
  text_eq_iff p.0 k,
  text_eq_iff p.0 j,
  text_eq_iff k j,
)

-- The value of a key after the changes, each of which counts for its own key; an empty one is none.
abbrev pub changed : Text → List (Text × Text) → Option Text → Option Text
changed k [] o = o
changed k (e ∷ es) o =
    changed k es (if text_eq e.0 k then if is_empty e.1 then none else some e.1 else o)

get-set_param :
    (e : Text × Text) (k : Text) (q : SearchParams)
    → get k (set_param e q)
      ≡ (if text_eq e.0 k then if is_empty e.1 then none else some e.1 else get k q)
get-set_param e k q = elim (Bool-cases (is_empty e.1)) [
  | inl y ↦ rw y (get-delete e.0 k q)
  | inr off ↦ rw off (get-set e.0 e.1 k q)
]

-- Setting the parameters of the address is a change of a map: each key that is given has its new
-- value, or none if that is empty, and every other key has its value from before.
pub get-set_params :
    (es : List (Text × Text)) (k : Text) (q : SearchParams)
    → get k (set_params es q) ≡ changed k es (get k q)
unfolding set_params
get-set_params [] k q = refl
get-set_params (e ∷ es) k q =
    get-set_params es k (set_param e q) ∙ ap (changed k es) (get-set_param e k q)
