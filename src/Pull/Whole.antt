-- ===== src/Pull/Whole.antt =====
-- What is shown and pulled of a name that has a tag.
use app_dockhand.Git.{or_text}
use mathlib.Core.List.{[]}
use app_dockhand.Base.{
  refl, Text, ◌≢◌, trim, ◌≡◌, ◌∷◌, ◌++◌, any, ◌==◌, ◌==◌, false, is_free_of, true, split_first-none,
  txt, split_last-append,
}
use app_dockhand.Pull.{split_tag, full_name}

or_text_some : (a b : Text) → a ≢ [] → or_text a b ≡ a
or_text_some [] b h = absurd (h refl)
or_text_some (c ∷ a) b h = refl

split_tag-tagged :
    (img a b : Text)
    → trim img ≡ a ++ b':' ∷ b
    → any (λ c. c == b'@') (a ++ b':' ∷ b) ≡ false
    → any (λ c. c == b'/') b ≡ false
    → is_free_of b':' b ≡ true
    → split_tag img ≡ (a, b)
unfolding split_tag
split_tag-tagged img a b e at slash colon =
    rw (e, split_first-none b'@' (a ++ b':' ∷ b) at, split_last-append b':' a b colon, slash)

-- A name that is typed with a tag, neither of whose parts is empty, and without a digest is shown whole,
-- whatever is chosen in the field for the tag.
pub full_name-tagged :
    (img tag a b : Text)
    → trim img ≡ a ++ b':' ∷ b
    → any (λ c. c == b'@') (a ++ b':' ∷ b) ≡ false
    → any (λ c. c == b'/') b ≡ false
    → is_free_of b':' b ≡ true
    → a ≢ []
    → b ≢ []
    → full_name img tag ≡ trim img
unfolding full_name
full_name-tagged img tag a b e at slash colon na nb = rw (
  split_tag-tagged img a b e at slash colon,
  or_text_some a (txt "image") na,
  or_text_some b (or_text (trim tag) (txt "latest")) nb,
  e,
)
