-- ===== src/Deploy/Merge.antt =====
-- web/components/deploy/shared.tsx: the merge of variables into rows of any kind.
use app_dockhand.Base.{
  refl, Text, Option, List, ◌≡◌, none, ◌∷◌, find, if◌then◌else◌, text_eq, [], ◌∙◌, some, arith, ap,
  text_eq_iff,
}
use app_dockhand.Types.Containers.{Kv}
use mathlib.Core.List.{[]}

module _ {ℓ} {T : Type ℓ} (key : T → Text) (set : Option T → Kv → T) where
  -- The first row with the key is set anew; without one a row is pushed.
  unfoldable pub merge_one : List T → Kv → List T
  merge_one [] kv = set none kv ∷ []
  merge_one (r ∷ rs) kv =
      let rest = merge_one rs kv in if text_eq (key r) kv.k then set (some r) kv ∷ rs else r ∷ rest

  unfoldable pub merge_kv : List T → List Kv → List T
  merge_kv rows [] = rows
  merge_kv rows (kv ∷ vars) = merge_kv (merge_one rows kv) vars

  -- The first row with a key.
  abbrev pub row_of : Text → List T → Option T
  row_of k rows = find (λ r. text_eq (key r) k) rows

  -- What the variables make of the row with the key: each of that key sets it, in turn.
  abbrev pub updates : Text → Option T → List Kv → Option T
  updates k row [] = row
  updates k row (kv ∷ vars) = updates k (if text_eq kv.k k then some (set row kv) else row) vars

  row_of-merge_one :
      ((row : Option T) (kv : Kv) → key (set row kv) ≡ kv.k)
      → (k : Text) (rows : List T) (kv : Kv)
      → row_of k (merge_one rows kv) ≡ updates k (row_of k rows) (kv ∷ [])
  unfolding merge_one
  row_of-merge_one sets k [] kv = rw (sets none kv) refl
  row_of-merge_one sets k (r ∷ rs) kv = ground (
    arith,
    sets (some r) kv,
    row_of-merge_one sets k rs kv,
    text_eq_iff (key r) k,
    text_eq_iff (key r) kv.k,
    text_eq_iff kv.k k,
  )

  -- If setting a row gives it the variable's key, the merge is one of maps: the first row of a key is
  -- the one from before, set by each of the variables with that key in turn, and new if there was
  -- none; a row of another key is as before.
  pub row_of-merge_kv :
      ((row : Option T) (kv : Kv) → key (set row kv) ≡ kv.k)
      → (k : Text) (rows : List T) (vars : List Kv)
      → row_of k (merge_kv rows vars) ≡ updates k (row_of k rows) vars
  unfolding merge_kv
  row_of-merge_kv sets k rows [] = refl
  row_of-merge_kv sets k rows (kv ∷ vars) =
      row_of-merge_kv sets k (merge_one rows kv) vars
      ∙ ap (λ row. updates k row vars) (row_of-merge_one sets k rows kv)
