-- ===== src/Image.antt =====
-- web/components/deploy/ImageFlow.tsx: names of images, and the form that runs one. `toLowerCase` is a
-- parameter.
pub mod Names
pub mod Quote
pub mod Command
pub mod Parts
pub mod Argv
pub mod Form
mod Tests
use app_dockhand.Base.{
  refl, ℕ, Bool, Text, leb, split_first, split_last, any, trim, Option, ◌&&◌, if◌then◌else◌, map,
  ◌==◌, is_empty, some, ◌||◌, ◌++◌, is_digit, txt, [], not, text_eq,
}
use mathlib.Core.Option.{none}

-- Split "ghcr.io/org/app:tag" into "ghcr.io" and "org/app:tag".
abbrev pub registry_parts : Text → Option (Text × Text) → Text × Text
registry_parts img none = ([], img)
registry_parts img (some (first, rest)) =
    if not (is_empty first)
      && (any (λ c. c == b'.') first
          || any (λ c. c == b':') first
          || text_eq first (txt "localhost"))
    then (first, rest)
    else ([], img)

unfoldable pub split_registry : Text → Text × Text
split_registry img = registry_parts img (split_first b'/' img)

-- `s.split("/").pop()`
unfoldable pub last_part : Text → Text
last_part s = elim (split_last b'/' s) [ none ↦ s | some (before, after) ↦ after ]

unfoldable pub has_tag : Text → Bool
has_tag img = any (λ c. c == b':') (last_part img) || any (λ c. c == b'@') img

unfoldable pub with_tag : Text → Text
with_tag img = let s = trim img in if is_empty s || has_tag s then s else s ++ txt ":latest"

-- `img.split("@")[0]`
unfoldable pub before_digest : Text → Text
before_digest img = elim (split_first b'@' img) [ none ↦ img | some (before, after) ↦ before ]

-- The last ":" ends the repository if no "/" comes after it.
abbrev pub cut_tag : Text → Option (Text × Text) → Text
cut_tag s none = s
cut_tag s (some (before, after)) = if any (λ c. c == b'/') after then s else before

unfoldable pub repo_of : Text → Text
repo_of img = cut_tag (before_digest img) (split_last b':' (before_digest img))

-- `[a-z0-9_.-]`
abbrev pub is_name_unit : ℕ → Bool
is_name_unit c = (leb b'a' c && leb c b'z') || is_digit c || c == b'_' || c == b'.' || c == b'-'

abbrev pub or_app : Text → Text
or_app s = if is_empty s then txt "app" else s

unfoldable pub default_name : (Text → Text) → Text → Text
default_name to_lower img =
    or_app (map (λ c. if is_name_unit c then c else b'-') (to_lower (last_part (repo_of img))))
