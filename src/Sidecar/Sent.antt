-- ===== src/Sidecar/Sent.antt =====
-- What saving the environment of a container sends.
use app_dockhand.Base.Sets.{has, IsDistinct}
use app_dockhand.Base.{
  refl, List, All, ◌∷◌, is_empty, ◌≡◌, false, Bool-cases, trim, inl, inr, Text, arith, none, Bool,
  text_eq_iff, true, some, Option, sym, ◌∙◌,
}
use app_dockhand.Sidecar.{
  repeated, clean_rows, has, EnvEffect, Kv, EnvBody, patch, toast, ask, keys_of, save_env,
  ContainerDetailRestartPolicy, body_of, save_clean,
}
use mathlib.Core.List.{[]}

absent :
    (k : Text) (seen ks : List Text)
    → All (λ x. has x (k ∷ seen) ≡ false) ks
    → (has k ks ≡ false) × All (λ x. has x seen ≡ false) ks
unfolding has
absent k seen [] h = (refl, tt)
absent k seen (x ∷ ks) (p, h) =
    let (a, b) = absent k seen ks h in
    (ground (arith, text_eq_iff x k, text_eq_iff k x), (ground arith, b))

present :
    (k : Text) (seen ks : List Text)
    → has k ks ≡ false
    → All (λ x. has x seen ≡ false) ks
    → All (λ x. has x (k ∷ seen) ≡ false) ks
unfolding has
present k seen [] n h = tt
present k seen (x ∷ ks) n (p, h) =
    (ground (arith, text_eq_iff x k, text_eq_iff k x), present k seen ks (ground arith) h)

repeated-none :
    (seen ks : List Text)
    → repeated seen ks ≡ none
    → IsDistinct ks × All (λ k. has k seen ≡ false) ks
unfolding repeated
repeated-none seen [] h = (tt, tt)
repeated-none seen (k ∷ ks) h = elim (Bool-cases (has k seen)) [
  | inl e ↦ let no : some k ≡ none = rw e at h in cc
  | inr e ↦
      let (d, a) = repeated-none (k ∷ seen) ks (rw e at h) in
      let (n, b) = absent k seen ks a in ((n, d), (e, b))
]

repeated-IsDistinct :
    (seen ks : List Text)
    → IsDistinct ks
    → All (λ k. has k seen ≡ false) ks
    → repeated seen ks ≡ none
unfolding repeated
repeated-IsDistinct seen [] d a = refl
repeated-IsDistinct seen (k ∷ ks) (n, d) (e, a) =
    rw e (repeated-IsDistinct (k ∷ seen) ks d (present k seen ks n a))

-- The bodies among effects.
abbrev pub bodies : List EnvEffect → List EnvBody
bodies [] = []
bodies (patch b ∷ es) = b ∷ bodies es
bodies (toast _ _ ∷ es) = bodies es
bodies (ask _ ∷ es) = bodies es

-- Every row with a key has its trimmed key.
clean_keys : (rows : List Kv) → All (λ k. is_empty k ≡ false) (keys_of (clean_rows rows))
unfolding clean_rows
clean_keys [] = tt
clean_keys (r ∷ rows) = elim (Bool-cases (is_empty (trim r.k))) [
  | inl e ↦ rw e (clean_keys rows)
  | inr e ↦ rw e (e, clean_keys rows)
]

All_empty : (ks : List Text) → All (λ k. has k [] ≡ false) ks
unfolding has
All_empty [] = tt
All_empty (k ∷ ks) = (refl, All_empty ks)

-- What a check for repeated keys leads to.
abbrev IsSent :
    Bool
    → List Kv
    → ContainerDetailRestartPolicy
    → ContainerDetailRestartPolicy
    → List EnvBody
    → Type 0
IsSent consent rows policy old sent =
    All (λ b. IsDistinct (keys_of b.env) × All (λ k. is_empty k ≡ false) (keys_of b.env)) sent
    × (consent ≡ false → sent ≡ [])
    × (¬ IsDistinct (keys_of rows) → sent ≡ [])
    × (consent ≡ true → IsDistinct (keys_of rows) → sent ≡ body_of policy old rows ∷ [])

checked :
    (consent : Bool) (name : Text) (policy old : ContainerDetailRestartPolicy) (rows : List Kv)
    (o : Option Text)
    → All (λ k. is_empty k ≡ false) (keys_of rows)
    → repeated [] (keys_of rows) ≡ o
    → IsSent consent rows policy old (bodies (save_clean consent name policy old rows o))
checked consent name policy old rows (some k) a e = (
  tt,
  λ h. refl,
  λ d. refl,
  λ h d.
      let no : some k ≡ none =
        sym e ∙ repeated-IsDistinct [] (keys_of rows) d (All_empty (keys_of rows)) in
      absurd (cc),
)
checked true name policy old rows none a e =
    let distinct = (repeated-none [] (keys_of rows) e).0 in
    (((distinct, a), tt), λ h. absurd (cc), λ d. absurd (d distinct), λ h d. refl)
checked false name policy old rows none a e = (tt, λ h. refl, λ d. refl, λ h d. absurd (cc))

-- Saving the environment sends nothing without consent, and nothing if two rows have the same trimmed key
-- that is not empty; with consent and no such rows it sends exactly one request, for the rows whose
-- trimmed key is not empty. In what is sent no key is empty, and none stands twice.
pub save_env-bodies :
    (consent : Bool) (name : Text) (policy old : ContainerDetailRestartPolicy) (rows : List Kv)
    → let sent = bodies (save_env consent name policy old rows) in
      All (λ b. IsDistinct (keys_of b.env) × All (λ k. is_empty k ≡ false) (keys_of b.env)) sent
      × (consent ≡ false → sent ≡ [])
      × (¬ IsDistinct (keys_of (clean_rows rows)) → sent ≡ [])
      × (consent ≡ true
          → IsDistinct (keys_of (clean_rows rows))
          → sent ≡ body_of policy old (clean_rows rows) ∷ [])
unfolding save_env
save_env-bodies consent name policy old rows =
    checked consent name policy old (clean_rows rows) _ (clean_keys rows) refl
