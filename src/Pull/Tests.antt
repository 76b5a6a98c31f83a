-- ===== src/Pull/Tests.antt =====
-- Names to try the dialog on.
use app_dockhand.Base.{
  refl, includes, starts_with, split_first, trim, split_last, trim_start, true, trim_end, txt,
  is_space, ◌∷◌, ◌≡◌, [],
}
use app_dockhand.Pull.{split_tag, full_name, start_pull, shown_tags, set_err}

port_is_no_tag : split_tag (txt "host:5000/app") ≡ (txt "host:5000/app", [])
unfolding split_tag split_first split_last trim trim_start trim_end is_space
port_is_no_tag = refl

default_tag : full_name (txt "nginx") [] ≡ txt "nginx:latest"
unfolding full_name split_tag split_first split_last trim trim_start trim_end is_space
default_tag = refl

-- A digest is shown as if it were a tag.
digest_as_tag : full_name (txt "nginx@sha256:0a") [] ≡ txt "nginx:sha256:0a"
unfolding full_name split_tag split_first split_last trim trim_start trim_end is_space
digest_as_tag = refl

needs_host :
    start_pull (txt "nginx") [] [] ≡ set_err [] ∷ set_err (txt "Pick at least one host.") ∷ []
unfolding start_pull trim trim_start trim_end is_space
needs_host = refl

narrowed : shown_tags true (txt "1.") (txt "1.25" ∷ txt "latest" ∷ []) ≡ txt "1.25" ∷ []
unfolding includes starts_with
narrowed = refl
