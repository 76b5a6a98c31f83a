-- ===== src/Pull.antt =====
-- web/components/dialogs/PullDialog.tsx: the image and the tag that are pulled, the hosts, and the menu of
-- tags.
mod Tests
pub mod Whole
use app_dockhand.Git.{or_text}
use app_dockhand.Base.Sets.{has}
use app_dockhand.Base.{
  Text, Bool, Option, trim, txt, List, [], split_last, split_first, ◌++◌, if◌then◌else◌, take, some,
  ◌∷◌, is_empty, filter, ◌&&◌, any, not, ◌==◌, text_eq, includes,
}
use mathlib.Core.Option.{none}

-- The last ":" begins a tag if no "/" comes after it.
abbrev pub tag_parts : Text → Option (Text × Text) → Text × Text
tag_parts s none = (s, [])
tag_parts s (some (before, after)) = if any (λ c. c == b'/') after then (s, []) else (before, after)

-- A digest after "@", unless the "@" comes first.
abbrev pub digest_parts : Text → Option (Text × Text) → Text × Text
digest_parts s none = tag_parts s (split_last b':' s)
digest_parts s (some (before, after)) =
    if is_empty before then tag_parts s (split_last b':' s) else (before, after)

unfoldable pub split_tag : Text → Text × Text
split_tag img = let s = trim img in digest_parts s (split_first b'@' s)

abbrev pub pulled_tag : Text → Text → Text
pulled_tag embedded tag = or_text embedded (or_text (trim tag) (txt "latest"))

-- `full`
unfoldable pub full_name : Text → Text → Text
full_name image tag =
    let (part, embedded) = split_tag image in
    or_text part (txt "image") ++ b':' ∷ pulled_tag embedded tag

-- `start` up to its request.
pub data PullEffect : Type 0 where
  set_err : Text → PullEffect
  post_pull : Text → Text → List Text → PullEffect

unfoldable pub start_pull : Text → Text → List Text → List PullEffect
start_pull image tag selected =
    let (part, embedded) = split_tag image in
    if is_empty (trim image)
    then set_err [] ∷ set_err (txt "Enter an image name.") ∷ []
    else if is_empty selected
    then set_err [] ∷ set_err (txt "Pick at least one host.") ∷ []
    else set_err [] ∷ post_pull part (pulled_tag embedded tag) selected ∷ []

-- `onToggle` of the hosts.
abbrev pub toggle_host : Text → List Text → List Text
toggle_host id selected =
    if has id selected then filter (λ x. not (text_eq x id)) selected else selected ++ id ∷ []

-- The tags that the menu shows.
abbrev pub shown_tags : Bool → Text → List Text → List Text
shown_tags typed value tags =
    take 50 (if typed && not (is_empty value) then filter (λ t. includes t value) tags else tags)
