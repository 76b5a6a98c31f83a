-- ===== src/Git/Path.antt =====
-- The path of a stack and its name.
use app_dockhand.Base.{none, some, Option}
use app_dockhand.Base.{
  refl, trim_start, trim, Text, ℕ, ◌≢◌, is_free_of, has_no_space, is_space, [], ◌≡◌, false, true,
  ◌++◌, ◌∷◌, arith, trim_end, trim_end_word, trim_end-append, txt, split_last-append, ap, Option,
  ◌∙◌,
}
use app_dockhand.Git.{drop_slashes, stack_name, rename_path, last_segment, or_text, all_but_last}

trim_start-front :
    (a : Text) (c : ℕ) (b : Text)
    → is_space c ≡ false
    → trim_start (a ++ c ∷ b) ≡ trim_start a ++ c ∷ b
unfolding trim_start
trim_start-front [] c b h = ground arith
trim_start-front (d ∷ a) c b h = ground (arith, trim_start-front a c b)

drop_slashes-append : (s t : Text) → t ≢ [] → drop_slashes t ≡ t → drop_slashes (s ++ t) ≡ s ++ t
unfolding drop_slashes
drop_slashes-append [] t ne h = h
drop_slashes-append (c ∷ []) t ne h = ground arith
drop_slashes-append (c ∷ d ∷ s) t ne h = ground (arith, drop_slashes-append (d ∷ s) t ne h)

drop_slashes_word : (s : Text) → is_free_of b'/' s ≡ true → drop_slashes s ≡ s
unfolding drop_slashes
drop_slashes_word [] h = refl
drop_slashes_word (c ∷ s) h = ground (arith, drop_slashes_word s)

slash_is_no_space : is_space b'/' ≡ false
unfolding is_space
slash_is_no_space = refl

slash_no_space : (s : Text) → has_no_space s ≡ true → has_no_space (b'/' ∷ s) ≡ true
slash_no_space s h = rw slash_is_no_space h

slash_kept : (s : Text) → is_free_of b'/' s ≡ true → s ≢ [] → drop_slashes (b'/' ∷ s) ≡ b'/' ∷ s
unfolding drop_slashes
slash_kept [] h ne = absurd (ne refl)
slash_kept (c ∷ s) h ne = ground (arith, drop_slashes_word (c ∷ s) h)

last_segment-append : (a b : Text) → is_free_of b'/' b ≡ true → last_segment (a ++ b'/' ∷ b) ≡ b
last_segment-append a b f =
    ap
      (λ (o : Option (Text × Text)). elim o [ none ↦ a ++ b'/' ∷ b | some (before, after) ↦ after ])
      (split_last-append b'/' a b f)

-- The last part of a path is its name, where the name has no slash and no white space.
last_segment-path :
    (a name : Text)
    → has_no_space name ≡ true
    → is_free_of b'/' name ≡ true
    → name ≢ []
    → last_segment (drop_slashes (trim (a ++ b'/' ∷ name))) ≡ name
unfolding trim
last_segment-path a name s f ne =
    let ended : trim_end (b'/' ∷ name) ≡ b'/' ∷ name =
      trim_end_word (b'/' ∷ name) (slash_no_space name s) in
    let dropped : drop_slashes (b'/' ∷ name) ≡ b'/' ∷ name = slash_kept name f ne in
    let path : drop_slashes (trim (a ++ b'/' ∷ name)) ≡ trim_start a ++ b'/' ∷ name = rw (
      trim_start-front a b'/' name slash_is_no_space,
      trim_end-append (trim_start a) (b'/' ∷ name) (λ e. cc) ended,
      drop_slashes-append (trim_start a) (b'/' ∷ name) (λ e. cc) dropped,
    ) in
    ap last_segment path ∙ last_segment-append (trim_start a) name f

-- The stack that is deployed after a name was taken for the path has that name, if it is not empty and
-- has neither white space nor a slash, whatever the path was before.
pub stack_name-rename_path :
    (path name repo : Text)
    → has_no_space name ≡ true
    → is_free_of b'/' name ≡ true
    → name ≢ []
    → stack_name (rename_path path name) repo ≡ name
unfolding stack_name rename_path
stack_name-rename_path path name repo s f ne =
    rw
      (last_segment-path
        (or_text (all_but_last (drop_slashes (trim path))) (txt "/opt/dockhand/stacks")) name s f
        ne)
      (named name ne)
  where
    named : (name : Text) → name ≢ [] → or_text name repo ≡ name
    named [] ne = absurd (ne refl)
    named (c ∷ n) ne = refl
