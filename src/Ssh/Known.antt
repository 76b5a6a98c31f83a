-- ===== src/Ssh/Known.antt =====
-- The remembered host keys.
use app_dockhand.Base.{
  ℕ, ◌≡◌, ◌≢◌, true, none, some, List, [], ◌∷◌, ◌++◌, Text, text_eq, text_eq_iff, arith,
  if◌then◌else◌, show, number, number-show, show-all_digits, all, is_digit, ap, sym, ◌∙◌,
}
use app_dockhand.Ssh.{
  Storage, get, put, delete, effective_port, known_key, known_host_key, save_host_key,
  forget_host_key, read, read-write,
}

get-put :
    (k j v : Text) (m : List (Text × Text))
    → get j (put k v m) ≡ (if text_eq k j then some v else get j m)
unfolding get put
get-put k j v [] = ground arith
get-put k j v ((i, w) ∷ m) =
    ground (arith, text_eq_iff k j, text_eq_iff i k, text_eq_iff i j, get-put k j v m)

get-delete :
    (k j : Text) (m : List (Text × Text))
    → get j (delete k m) ≡ (if text_eq k j then none else get j m)
unfolding get delete
get-delete k j [] = ground arith
get-delete k j ((i, w) ∷ m) =
    ground (arith, text_eq_iff k j, text_eq_iff i k, text_eq_iff i j, get-delete k j m)

no_colon : (d b : Text) (e : Text) → all is_digit d ≡ true → d ≢ b ++ b':' ∷ e
no_colon [] [] e hd h = cc
no_colon [] (c ∷ b) e hd h = cc
no_colon (c ∷ d) [] e hd h = ground arith
no_colon (c ∷ d) (c' ∷ b) e hd h = ground (arith, no_colon d b e)

-- Texts that end in a colon and digits are equal only if both parts are.
colon_digits_injective :
    (a b d e : Text)
    → all is_digit d ≡ true
    → all is_digit e ≡ true
    → a ++ b':' ∷ d ≡ b ++ b':' ∷ e
    → (a ≡ b) × (d ≡ e)
colon_digits_injective [] [] d e hd he h = ground arith
colon_digits_injective [] (c ∷ b) d e hd he h = absurd (no_colon d b e hd (ground arith))
colon_digits_injective (c ∷ a) [] d e hd he h = absurd (no_colon e a d he (ground arith))
colon_digits_injective (c ∷ a) (c' ∷ b) d e hd he h =
    ground (arith, colon_digits_injective a b d e hd he)

module _ (to_lower : Text → Text) where
  -- Two keys are equal only for the same address, up to case, and the same port, 0 counted as 22:
  -- the key remembered for one endpoint is never taken for another's.
  pub known_key-injective :
      (a b : Text) (p q : ℕ)
      → known_key to_lower a p ≡ known_key to_lower b q
      → (to_lower a ≡ to_lower b) × (effective_port p ≡ effective_port q)
  unfolding known_key
  known_key-injective a b p q h =
      let (l, r) =
        colon_digits_injective (to_lower a) (to_lower b) (show (effective_port p))
          (show (effective_port q)) (show-all_digits (effective_port p))
          (show-all_digits (effective_port q)) h in
      (l, sym (number-show (effective_port p)) ∙ ap number r ∙ number-show (effective_port q))

  -- With storage available, the fingerprint saved for an endpoint is what is read back for it, and
  -- what is read for an endpoint with another key is as before.
  pub known_host_key-save :
      (a b fingerprint : Text) (p q : ℕ) (s : Storage)
      → s.available ≡ true
      → known_host_key to_lower b q (save_host_key to_lower a p fingerprint s) ≡ (
          if text_eq (known_key to_lower a p) (known_key to_lower b q)
          then fingerprint
          else known_host_key to_lower b q s)
  unfolding known_host_key save_host_key
  known_host_key-save a b fingerprint p q s up = ground (
    arith,
    read-write s.available s.known
        (put (known_key to_lower a p) fingerprint (read s.available s.known [])) [],
    get-put (known_key to_lower a p) (known_key to_lower b q) fingerprint
        (read s.available s.known []),
  )

  -- With storage available, a forgotten endpoint has no fingerprint any more, and what is read for
  -- an endpoint with another key is as before.
  known_host_key-forget :
      (a b : Text) (p q : ℕ) (s : Storage)
      → s.available ≡ true
      → known_host_key to_lower b q (forget_host_key to_lower a p s) ≡ (
          if text_eq (known_key to_lower a p) (known_key to_lower b q)
          then []
          else known_host_key to_lower b q s)
  unfolding known_host_key forget_host_key
  known_host_key-forget a b p q s up = ground (
    arith,
    read-write s.available s.known (delete (known_key to_lower a p) (read s.available s.known []))
        [],
    get-delete (known_key to_lower a p) (known_key to_lower b q) (read s.available s.known []),
  )
