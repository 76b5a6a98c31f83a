-- ===== src/Settings/Merge.antt =====
-- Merging a patch into the settings is a change of a map of two keys.
use app_dockhand.Base.{refl, map, All}
use app_dockhand.Base.Sets.{has, IsDistinct}
use app_dockhand.Settings.{
  field, spread, assign, SettingsData, section, Section, merge_into, merge_settings,
}
use app_dockhand.Base.{
  Text, List, ◌≡◌, Option, ◌∷◌, if◌then◌else◌, text_eq, ◌∙◌, some, ap, Bool-cases, inl,
  text_eq_sound, arith, inr, false, text_eq_iff,
}
use mathlib.Core.List.{[], []}
use mathlib.Core.Option.{none}

module _ {A : Type 0} where
  pub field-assign :
      (k : Text) (v : A) (j : Text) (o : List (Text × A))
      → field j (assign k v o) ≡ (if text_eq k j then some v else field j o)
  unfolding field assign
  field-assign k v j [] = refl
  field-assign k v j ((i, w) ∷ o) = elim (Bool-cases (text_eq i k)) [
    | inl e ↦ rw (e, text_eq_sound i k e) (ground arith)
    | inr e ↦ rw e (elim (Bool-cases (text_eq i j)) [
      | inl p ↦
          let off : text_eq k j ≡ false =
            ground (arith, text_eq_iff i k, text_eq_iff i j, text_eq_iff k j) in
          rw (p, off)
      | inr p ↦ rw p (field-assign k v j o)
    ])
  ]

  -- The last value of a key in a list of entries.
  abbrev pub last_field : Text → List (Text × A) → Option A → Option A
  last_field j [] o = o
  last_field j (e ∷ p) o = last_field j p (if text_eq e.0 j then some e.1 else o)

  field-spread :
      (j : Text) (o p : List (Text × A)) → field j (spread o p) ≡ last_field j p (field j o)
  unfolding spread
  field-spread j o [] = refl
  field-spread j o (e ∷ p) =
      field-spread j (assign e.0 e.1 o) p ∙ ap (last_field j p) (field-assign e.0 e.1 j o)

-- The keys of an object.
abbrev pub keys : {A : Type 0} → List (Text × A) → List Text
keys o = map (λ e. e.0) o

module _ {A : Type 0} where
  last_field_absent :
      (j : Text) (p : List (Text × A)) (o : Option A)
      → has j (keys p) ≡ false
      → last_field j p o ≡ o
  unfolding has
  last_field_absent j [] o h = refl
  last_field_absent j (e ∷ p) o h =
      let off : text_eq e.0 j ≡ false = ground arith in
      rw off (last_field_absent j p o (ground arith))

  -- `a ?? b`
  abbrev pub or_else : Option A → Option A → Option A
  or_else none o = o
  or_else (some v) o = some v

  last_field_distinct :
      (j : Text) (p : List (Text × A)) (o : Option A)
      → IsDistinct (keys p)
      → last_field j p o ≡ or_else (field j p) o
  unfolding field
  last_field_distinct j [] o h = refl
  last_field_distinct j ((i, v) ∷ p) o (n, h) = elim (Bool-cases (text_eq i j)) [
    | inl e ↦ rw e (last_field_absent j p (some v) (rw (text_eq_sound i j e) at n))
    | inr e ↦ rw e (last_field_distinct j p o h)
  ]

  pub field_spread_distinct :
      (j : Text) (o p : List (Text × A))
      → IsDistinct (keys p)
      → field j (spread o p) ≡ or_else (field j p) (field j o)
  field_spread_distinct j o p h = field-spread j o p ∙ last_field_distinct j p (field j o) h

module _ {V : Type 0} (s : SettingsData V) where
  -- What the loop assigns for an entry of the patch.
  abbrev merged : Text × Section V → Text × Section V
  merged e = (e.0, spread (section (field e.0 s)) e.1)

  merge_into_lem : (out p : SettingsData V) → merge_into s out p ≡ spread out (map merged p)
  unfolding merge_into spread
  merge_into_lem out [] = refl
  merge_into_lem out (e ∷ p) =
      merge_into_lem (assign e.0 (spread (section (field e.0 s)) e.1) out) p

  keys-merged : (p : SettingsData V) → keys (map merged p) ≡ keys p
  keys-merged [] = refl
  keys-merged (e ∷ p) = ap (λ r. e.0 ∷ r) (keys-merged p)

  field-merged :
      (k : Text) (p : SettingsData V)
      → field k (map merged p)
        ≡ elim (field k p) [ none ↦ none | some v ↦ some (spread (section (field k s)) v) ]
  unfolding field
  field-merged k [] = refl
  field-merged k ((i, v) ∷ p) = elim (Bool-cases (text_eq i k)) [
    | inl e ↦ rw (e, text_eq_sound i k e)
    | inr e ↦ rw e (field-merged k p)
  ]

-- A field of the settings: the keys of a section and of a field in it.
unfoldable pub at_path : {V : Type 0} → Text → Text → SettingsData V → Option V
at_path k f d = field f (section (field k d))

-- Every section of a patch has each key once.
abbrev pub IsTidy : {V : Type 0} → SettingsData V → Type 0
IsTidy p = IsDistinct (keys p) × All (λ e. IsDistinct (keys e.1)) p

section_tidy :
    {V : Type 0} (k : Text) (p : SettingsData V)
    → All (λ e. IsDistinct (keys e.1)) p
    → IsDistinct (keys (section (field k p)))
unfolding field
section_tidy k [] h = tt
section_tidy k (e ∷ p) (d, h) = elim (Bool-cases (text_eq e.0 k)) [
  | inl y ↦ rw y d
  | inr y ↦ rw y (section_tidy k p h)
]

-- Merging a patch changes each field that the patch gives to the value that it gives, and no other, for
-- patches that are objects, in which no key stands twice.
pub at_path-merge_settings :
    {W : Type 0} (s p : SettingsData W) (k f : Text)
    → IsTidy p
    → at_path k f (merge_settings s p) ≡ or_else (at_path k f p) (at_path k f s)
unfolding at_path merge_settings
at_path-merge_settings {W} s p k f (d, h) =
    ap (λ o. field f (section o))
      (ap (field k) (merge_into_lem s s p)
        ∙ field_spread_distinct k s (map (merged s) p) (rw (keys-merged s p) d)
        ∙ ap (λ o. or_else o (field k s)) (field-merged s k p))
    ∙ given (field k p) (section_tidy k p h)
  where
    given :
        (o : Option (Section W))
        → IsDistinct (keys (section o))
        → field f (
            section (
              or_else
                (elim o [ none ↦ none | some v ↦ some (spread (section (field k s)) v) ])
                (field k s)))
          ≡ or_else (field f (section o)) (field f (section (field k s)))
    given none n = unfold field in refl
    given (some v) n = field_spread_distinct f (section (field k s)) v n
