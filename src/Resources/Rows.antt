-- ===== src/Resources/Rows.antt =====
-- The lists of stacks, images, volumes and networks on web/app/(app)/resources/page.tsx: which rows they
-- have, and how many of them are shown. `toLowerCase` is a parameter.

-- An item of `FleetList<T>`.
use app_dockhand.Base.{refl, ap, length-take}
use Prim.Native.Nat.{ℕ, suc, zero, zero}
use app_dockhand.Base.{
  Text, List, ◌∷◌, ◌++◌, Bool, Option, if◌then◌else◌, take, ◌≡◌, length, txt, map, [], trim,
  text_eq, ltb, ◌+◌, ◌≤◌, is_empty, some, filter, arith, ◌*◌, ◌||◌, ◌==◌, not, ◌-◌, ◌&&◌, includes,
}
use app_dockhand.Types.Stacks.{Stack, StackService}
use app_dockhand.Types.Storage.{Image, Volume, Network, NetworkMember}
use app_dockhand.Base.Int.{ℤ, pos, negsuc}
use mathlib.Core.List.{[]}
use mathlib.Core.Option.{none}

pub record FleetItem (T : Type 0) : Type 0 where
  pub host_id : Text
  pub host_name : Text
  pub item : T

-- `join(" ")`
abbrev pub join_blank : List Text → Text
join_blank [] = []
join_blank (a ∷ []) = a
join_blank (a ∷ b ∷ as') = a ++ b' ' ∷ join_blank (b ∷ as')

-- The texts in which `q` is looked for.
unfoldable pub stack_text : Stack → Text
stack_text s = join_blank (
    s.name
    ∷ s.repo
    ∷ join_blank (map (λ (x : StackService). x.name ++ b' ' ∷ x.image) s.services)
    ∷ [])

unfoldable pub image_text : Image → Text
image_text i = i.repo ++ b':' ∷ (i.tag ++ b' ' ∷ i.short_id)

unfoldable pub volume_text : Volume → Text
volume_text v = join_blank (v.name ∷ v.driver ∷ join_blank v.containers ∷ [])

unfoldable pub network_text : Network → Text
network_text n = join_blank (
    n.name
    ∷ n.driver
    ∷ n.subnet
    ∷ join_blank (map (λ (m : NetworkMember). m.name ++ b' ' ∷ m.ip) n.members)
    ∷ [])

module _ (to_lower : Text → Text) {T : Type 0} (text : T → Text) where
  -- The test of `useRows`.
  unfoldable pub is_row : Text → Text → FleetItem T → Bool
  is_row host_f q r =
      let s = to_lower (trim q) in
      (is_empty host_f || text_eq r.host_id host_f)
      && (is_empty s || includes (to_lower (text r.item ++ b' ' ∷ r.host_name)) s)

  -- `useRows`, with no `extra`, which no list gives; `none` is a list that has not been loaded.
  unfoldable pub use_rows : Option (List (FleetItem T)) → Text → Text → List (FleetItem T)
  use_rows none host_f q = []
  use_rows (some items) host_f q = filter (is_row host_f q) items

-- The rows that a chip leaves.
unfoldable pub image_rows : Text → List (FleetItem Image) → List (FleetItem Image)
image_rows only all =
    if text_eq only (txt "unused")
    then filter (λ (r : FleetItem Image). r.item.containers == 0) all
    else if text_eq only (txt "dangling")
    then filter (λ (r : FleetItem Image). r.item.dangling) all
    else all

unfoldable pub volume_rows : Text → List (FleetItem Volume) → List (FleetItem Volume)
volume_rows only all =
    if text_eq only (txt "unused")
    then filter (λ (r : FleetItem Volume). is_empty r.item.containers) all
    else all

unfoldable pub network_rows : Text → List (FleetItem Network) → List (FleetItem Network)
network_rows only all =
    if text_eq only (txt "system")
    then all
    else filter (λ (r : FleetItem Network). not r.item.system) all

-- `size` of the images, and `known` of the volumes, where -1 is a size that is not known.
abbrev pub image_size : List (FleetItem Image) → ℕ
image_size [] = 0
image_size (r ∷ rs) = r.item.size + image_size rs

abbrev pub known_size : ℤ → ℕ
known_size (pos n) = n
known_size (negsuc n) = 0

abbrev pub volume_size : List (FleetItem Volume) → ℕ
volume_size [] = 0
volume_size (r ∷ rs) = known_size r.item.size + volume_size rs

-- `PAGE`, and the limit of `Frame` after some clicks on "Show more".
abbrev pub page_size : ℕ
page_size = 150

unfoldable pub limit_after : ℕ → ℕ
limit_after zero = page_size
limit_after (suc clicks) = limit_after clicks + page_size * 2

-- What `Frame` shows of the rows, and the number on the button, which is there only if some are left.
unfoldable pub frame_rows : {A : Type 0} → ℕ → List A → List A
frame_rows limit rows = take limit rows

unfoldable pub frame_left : {A : Type 0} → ℕ → List A → Option ℕ
frame_left limit rows = if ltb limit (length rows) then some (length rows - limit) else none

limit_after-eq : (clicks : ℕ) → limit_after clicks ≡ 150 + 300 * clicks
unfolding limit_after
limit_after-eq zero = omega arith
limit_after-eq (suc clicks) = omega (arith, limit_after-eq clicks)

take-all : {A : Type 0} (n : ℕ) (rows : List A) → length rows ≤ n → take n rows ≡ rows
take-all zero [] h = refl
take-all zero (x ∷ rows) h = absurd (omega arith)
take-all (suc n) [] h = refl
take-all (suc n) (x ∷ rows) h = ap (λ r. x ∷ r) (take-all n rows (omega arith))

-- What is shown and what is left are together all rows; the button is there until all are shown, and
-- with enough clicks they are.
pub frame_complete :
    {A : Type 0} (rows : List A) (clicks : ℕ)
    → (length (frame_rows (limit_after clicks) rows)
          + elim (frame_left (limit_after clicks) rows) [ none ↦ 0 | some n ↦ n ]
        ≡ length rows)
      × (length rows ≤ 300 * clicks + 150 → frame_rows (limit_after clicks) rows ≡ rows)
unfolding frame_rows frame_left
frame_complete rows clicks = (
  ground (arith, length-take (limit_after clicks) rows),
  λ h. take-all (limit_after clicks) rows (omega (arith, limit_after-eq clicks)),
)

-- The size of what the images without a container take is part of that of all images.
pub image_size-unused :
    (all : List (FleetItem Image)) → image_size (image_rows (txt "unused") all) ≤ image_size all
unfolding image_rows app_dockhand.Base.text_eq
image_size-unused [] = omega arith
image_size-unused (r ∷ rs) = ground (arith, image_size-unused rs)
