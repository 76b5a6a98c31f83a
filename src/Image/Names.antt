-- ===== src/Image/Names.antt =====
-- What the helpers for image names make of a name.
use app_dockhand.Base.{
  refl, Bool, Text, trim_start, trim_end, trim, split_last, true, ◌≡◌, is_empty, any, all, ◌++◌,
  ◌∷◌, false, none, txt, if◌then◌else◌, ◌||◌, not, arith, trim_end-append, some, map, ◌==◌,
  is_space, trim_end_word, Bool-cases, split_first, inl, inr, split_last-tail, any-append, Option,
  is_some-split_last, split_first-none, split_first-join, split_last-append,
}
use app_dockhand.Image.{
  has_tag, last_part, with_tag, split_registry, default_name, repo_of, is_name_unit, cut_tag,
  registry_parts, before_digest,
}
use mathlib.Core.List.{[]}

starts_clean : Text → Bool
starts_clean [] = true
starts_clean (c ∷ s) = not (is_space c)

trim_start-starts_clean : (s : Text) → starts_clean (trim_start s) ≡ true
unfolding trim_start starts_clean
trim_start-starts_clean [] = refl
trim_start-starts_clean (c ∷ s) = ground (arith, trim_start-starts_clean s)

trim_end-starts_clean : (s : Text) → starts_clean s ≡ true → starts_clean (trim_end s) ≡ true
unfolding trim_end starts_clean
trim_end-starts_clean [] h = refl
trim_end-starts_clean (c ∷ s) h = ground arith

trim_start_clean : (s : Text) → starts_clean s ≡ true → trim_start s ≡ s
unfolding trim_start starts_clean
trim_start_clean [] h = refl
trim_start_clean (c ∷ s) h = ground arith

append-starts_clean :
    (s t : Text) → is_empty s ≡ false → starts_clean s ≡ true → starts_clean (s ++ t) ≡ true
unfolding starts_clean
append-starts_clean [] t e h = cc
append-starts_clean (c ∷ s) t e h = h

-- Text with a tag put behind it is not trimmed.
trim-tagged :
    (s : Text)
    → is_empty s ≡ false
    → starts_clean s ≡ true
    → trim (s ++ txt ":latest") ≡ s ++ txt ":latest"
unfolding trim is_space
trim-tagged s e h =
    rw (trim_start_clean (s ++ txt ":latest") (append-starts_clean s (txt ":latest") e h))
      (trim_end-append s (txt ":latest") (λ q. cc) (trim_end_word (txt ":latest") refl))

trim-starts_clean : (s : Text) → starts_clean (trim s) ≡ true
unfolding trim
trim-starts_clean s = trim_end-starts_clean (trim_start s) (trim_start-starts_clean s)

trim_end_idem : (s : Text) → trim_end (trim_end s) ≡ trim_end s
unfolding trim_end
trim_end_idem [] = refl
trim_end_idem (c ∷ s) = ground (arith, trim_end_idem s)

trim_idem : (s : Text) → trim (trim s) ≡ trim s
unfolding trim
trim_idem s =
    rw
      (trim_start_clean (trim_end (trim_start s))
        (trim_end-starts_clean (trim_start s) (trim_start-starts_clean s)))
      (trim_end_idem (trim_start s))

last_part-tagged : (s : Text) → last_part (s ++ txt ":latest") ≡ last_part s ++ txt ":latest"
unfolding last_part
last_part-tagged s =
    ground (arith, split_last-tail b'/' s (txt ":latest") (unfold split_last in refl))

has_tag-tagged : (s : Text) → has_tag (s ++ txt ":latest") ≡ true
unfolding has_tag
has_tag-tagged s =
    rw (last_part-tagged s, any-append (λ c. c == b':') (last_part s) (txt ":latest"))
      (ground arith)

-- A name with a tag has one, and is not changed again.
pub with_tag_stable :
    (img : Text)
    → (with_tag (with_tag img) ≡ with_tag img)
      × (is_empty (trim img) ≡ false → has_tag (with_tag img) ≡ true)
unfolding with_tag
with_tag_stable img = elim (Bool-cases (is_empty (trim img) || has_tag (trim img))) [
  | inl y ↦ rw y (rw (trim_idem img, y) (refl, λ e. ground arith))
  | inr off ↦ rw off (
      rw (trim-tagged (trim img) (ground arith) (trim-starts_clean img), has_tag-tagged (trim img))
        (ground arith, λ e. refl))
]

-- What `cut_tag` does not cut.
abbrev keeps : Option (Text × Text) → Bool
keeps none = true
keeps (some (a, b)) = any (λ c. c == b'/') b

cut_tag-whole : (s : Text) (o : Option (Text × Text)) → keeps o ≡ true → cut_tag s o ≡ s
cut_tag-whole s none h = refl
cut_tag-whole s (some (a, b)) h = rw h refl

split_last-keeps :
    (s : Text) → any (λ c. c == b':') (last_part s) ≡ false → keeps (split_last b':' s) ≡ true
unfolding last_part split_last
split_last-keeps [] h = refl
split_last-keeps (c ∷ s) h =
    ground (arith, split_last-keeps s, is_some-split_last b'/' s, is_some-split_last b':' s)

before_digest_whole : (s : Text) → any (λ c. c == b'@') s ≡ false → before_digest s ≡ s
unfolding before_digest
before_digest_whole s h = ground (arith, split_first-none b'@' s h)

repo_of-tagged : (s : Text) → has_tag s ≡ false → repo_of (s ++ txt ":latest") ≡ repo_of s
unfolding repo_of has_tag
repo_of-tagged s h =
    rw
      (
        before_digest_whole s (ground arith),
        before_digest_whole (s ++ txt ":latest")
            (rw (any-append (λ c. c == b'@') s (txt ":latest")) (ground arith)),
        split_last-append b':' s (txt "latest") refl,
        cut_tag-whole s (split_last b':' s) (split_last-keeps s (ground arith)),
      )
      refl

-- The default tag does not change the repository.
repo_of-with_tag : (img : Text) → repo_of (with_tag img) ≡ repo_of (trim img)
unfolding with_tag repo_of
repo_of-with_tag img = elim (Bool-cases (is_empty (trim img) || has_tag (trim img))) [
  | inl y ↦ rw y refl
  | inr off ↦ rw off (repo_of-tagged (trim img) (ground arith))
]

registry_parts-join :
    (img : Text) (o : Option (Text × Text))
    → ((a b : Text) → o ≡ some (a, b) → img ≡ a ++ b'/' ∷ b)
    → img ≡ (
        if is_empty (registry_parts img o).0
        then (registry_parts img o).1
        else (registry_parts img o).0 ++ b'/' ∷ (registry_parts img o).1)
registry_parts-join img none h = refl
registry_parts-join img (some (a, b)) h = ground (arith, h a b refl)

-- A registry that is split off stands in front of the rest; without one the name is whole.
pub split_registry-join :
    (img : Text)
    → img ≡ (
        if is_empty (split_registry img).0
        then (split_registry img).1
        else (split_registry img).0 ++ b'/' ∷ (split_registry img).1)
unfolding split_registry
split_registry-join img = registry_parts-join img (split_first b'/' img) (split_first-join b'/' img)

map-all : (s : Text) → all is_name_unit (map (λ c. if is_name_unit c then c else b'-') s) ≡ true
map-all [] = refl
map-all (c ∷ s) = ground (arith, map-all s)

-- The default name of a container is not empty and has only lower-case letters, digits, "_", "." and
-- "-".
pub default_name-all :
    (to_lower : Text → Text) (img : Text)
    → (all is_name_unit (default_name to_lower img) ≡ true)
      × (is_empty (default_name to_lower img) ≡ false)
unfolding default_name
default_name-all to_lower img =
    let s = map (λ c. if is_name_unit c then c else b'-') (to_lower (last_part (repo_of img))) in
    ground (arith, map-all (to_lower (last_part (repo_of img))))
