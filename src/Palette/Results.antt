-- ===== src/Palette/Results.antt =====
-- `results` and `flat` of web/components/shell/CommandPalette.tsx. A score counts in hundredths here:
-- that of the label ten times its tenths, that of the whole entry six times. `toLowerCase` is a parameter.
use app_dockhand.Base.{
  none, some, ℕ, Bool, List, true, ◌*◌, Text, Ordering, ◌∷◌, false, suc, Option, compare,
  if◌then◌else◌, filter, trim, [], ◌-◌, is_empty, map, take, ◌++◌, ◌+◌, not,
}
use app_dockhand.Base.Int.{ℤ, pos, negsuc, pos_part, max_ℤ, leb_ℤ, neg_part}
use app_dockhand.Base.Sort.{sort, Comparator}
use app_dockhand.Palette.Score.{score}
use app_dockhand.Palette.Items.{Item, Group}

abbrev pub group_order : List Group
group_order = Group.navigation ∷ Group.hosts ∷ Group.containers ∷ Group.actions ∷ []

abbrev pub group_limit : Group → ℕ
group_limit Group.actions = 10
group_limit _ = 8

abbrev pub is_group : Group → Group → Bool
is_group Group.navigation Group.navigation = true
is_group Group.hosts Group.hosts = true
is_group Group.containers Group.containers = true
is_group Group.actions Group.actions = true
is_group _ _ = false

abbrev pub times : ℕ → ℤ → ℤ
times k (pos n) = pos (k * n)
times k (negsuc n) = negsuc (k * suc n - 1)

-- The whole entry as a text.
abbrev pub whole_text : Item → Text
whole_text it = it.label ++ (b' ' ∷ (or_empty it.sub ++ (b' ' ∷ or_empty it.keywords)))
  where
    or_empty : Option Text → Text
    or_empty none = []
    or_empty (some s) = s

pub record Scored : Type 0 where
  pub it : Item
  pub s : ℤ

pub record ResultGroup : Type 0 where
  pub group : Group
  pub items : List Scored

abbrev pub compare_ℤ : ℤ → ℤ → Ordering
compare_ℤ a b = compare (pos_part a + neg_part b) (pos_part b + neg_part a)

abbrev pub by_score : Comparator Scored
by_score a b = compare_ℤ b.s a.s

-- `Math.max` of the scores of what a group shows; it is never empty.
abbrev pub best : List Scored → ℤ
best [] = negsuc 0
best (x ∷ []) = x.s
best (x ∷ y ∷ xs) = max_ℤ x.s (best (y ∷ xs))

abbrev pub by_best : Comparator ResultGroup
by_best a b = compare_ℤ (best b.items) (best a.items)

abbrev pub keep_shown : Text → Scored → Bool
keep_shown query x = if is_empty query then leb_ℤ (pos 0) x.s else not (leb_ℤ x.s (pos 0))

-- What the group shows.
unfoldable pub top : Text → List Scored → Group → List Scored
top query xs g =
    let arr = filter (λ (x : Scored). is_group x.it.group g) xs in
    take (group_limit g) (if is_empty query then arr else sort by_score arr)

abbrev pub groups : Text → List Scored → List Group → List ResultGroup
groups query xs [] = []
groups query xs (g ∷ gs) =
    let rest = groups query xs gs in
    if is_empty (top query xs g) then rest else record { group = g; items = top query xs g } ∷ rest

module _ (to_lower : Text → Text) where
  unfoldable pub item_score : Text → Item → ℤ
  item_score query it =
      if is_empty query
      then if it.search_only then negsuc 99 else pos 0
      else max_ℤ (times 10 (score query (to_lower it.label)))
          (times 6 (score query (to_lower (whole_text it))))

  unfoldable pub scored : Text → List Item → List Scored
  scored query items =
      filter (keep_shown query) (map (λ it. record { it = it; s = item_score query it }) items)

  unfoldable pub results : List Item → Text → List ResultGroup
  results items q =
      let query = to_lower (trim q) in
      let gs = groups query (scored query items) group_order in
      if is_empty query then gs else sort by_best gs

  abbrev pub flatten : List ResultGroup → List Item
  flatten [] = []
  flatten (g ∷ gs) = map (λ (x : Scored). x.it) g.items ++ flatten gs

  unfoldable pub flat : List Item → Text → List Item
  flat items q = flatten (results items q)
