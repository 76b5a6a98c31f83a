-- ===== src/Settings/Overlap.antt =====
-- What becomes of a save that is refused while others are under way.
use app_dockhand.Base.{
  refl, ℕ, List, ◌≡◌, some, Bool, ◌<◌, ◌∷◌, ◌≢◌, Option, Text, false, any, arith, ◌++◌, Bool-cases,
  filter, ◌∙◌, ap, ◌==◌, inl, not, sym, inr,
}
use app_dockhand.Settings.{
  Hook, Save, SettingsData, SettingsEvent, hook_step, hook_run, find_save, drop_save, fetched,
  saved, answered, refused, start_save, take_answer, roll_back,
}
use mathlib.Core.List.{[]}
use mathlib.Core.Option.{none}

module _ {W : Type 0} where
  -- Whether an event ends the save with a number.
  abbrev pub is_end : ℕ → SettingsEvent W → Bool
  is_end n (fetched d) = false
  is_end n (saved p) = false
  is_end n (answered m d) = m == n
  is_end n (refused m msg) = m == n

  abbrev pub hook_after : List (SettingsEvent W) → Hook W → Hook W
  hook_after es h = (hook_run es h).0

  hook_after-append :
      (es fs : List (SettingsEvent W)) (h : Hook W)
      → hook_after (es ++ fs) h ≡ hook_after fs (hook_after es h)
  unfolding hook_run
  hook_after-append [] fs h = refl
  hook_after-append (e ∷ es) fs h = hook_after-append es fs (hook_step e h).0

  -- A save is under way.
  abbrev pub IsPending : ℕ → Save W → Hook W → Type 0
  IsPending n s h = (find_save n h.saves ≡ some s) × (n < h.next)

  id-find_save : (n : ℕ) (s : Save W) (xs : List (Save W)) → find_save n xs ≡ some s → s.id ≡ n
  id-find_save n s [] e = absurd (cc)
  id-find_save n s (x ∷ xs) e = elim (Bool-cases (x.id == n)) [
    | inl y ↦
        let same : some x ≡ some s = rw y at e in
        let there : x ≡ s = cc in ap (λ (z : Save W). z.id) (sym there) ∙ ground arith
    | inr y ↦ id-find_save n s xs (rw y at e)
  ]

  find_save-drop :
      (n k : ℕ) (xs : List (Save W))
      → k ≢ n
      → find_save n (filter (λ (s : Save W). not (s.id == k)) xs) ≡ find_save n xs
  find_save-drop n k [] off = refl
  find_save-drop n k (x ∷ xs) off = elim (Bool-cases (x.id == k)) [
    | inl y ↦ let z : x.id == n ≡ false = ground arith in rw (y, z) (find_save-drop n k xs off)
    | inr y ↦ elim (Bool-cases (x.id == n)) [
      | inl z ↦ rw (y, z)
      | inr z ↦ rw (y, z) (find_save-drop n k xs off)
    ]
  ]

  dropped-IsPending :
      (n : ℕ) (s t : Save W) (h : Hook W) (c : Option (SettingsData W))
      → t.id ≢ n
      → IsPending n s h
      → IsPending n s (record (drop_save t.id h) { cached = c })
  dropped-IsPending n s t h c off (p, q) = (find_save-drop n t.id h.saves off ∙ p, q)

  started-IsPending :
      (n : ℕ) (s : Save W) (p : SettingsData W) (o : Option (SettingsData W)) (h : Hook W)
      → IsPending n s h
      → IsPending n s (start_save p o h).0
  started-IsPending n s p none h (a, b) = (a, omega arith)
  started-IsPending n s p (some d) h (a, b) =
      let off : h.next == n ≡ false = ground arith in (rw off a, omega arith)

  answer-IsPending :
      (n m : ℕ) (s : Save W) (d : SettingsData W) (o : Option (Save W)) (h : Hook W)
      → m ≢ n
      → find_save m h.saves ≡ o
      → IsPending n s h
      → IsPending n s (take_answer d o h).0
  answer-IsPending n m s d none h off e k = k
  answer-IsPending n m s d (some t) h off e k =
      dropped-IsPending n s t h (some d) (λ z. off (sym (id-find_save m t h.saves e) ∙ z)) k

  refusal-IsPending :
      (n m : ℕ) (s : Save W) (msg : Text) (o : Option (Save W)) (h : Hook W)
      → m ≢ n
      → find_save m h.saves ≡ o
      → IsPending n s h
      → IsPending n s (roll_back msg o h).0
  refusal-IsPending n m s msg none h off e k = k
  refusal-IsPending n m s msg (some t) h off e k =
      dropped-IsPending n s t h (some t.prev) (λ z. off (sym (id-find_save m t h.saves e) ∙ z)) k

  step-IsPending :
      (n : ℕ) (s : Save W) (e : SettingsEvent W) (h : Hook W)
      → is_end n e ≡ false
      → IsPending n s h
      → IsPending n s (hook_step e h).0
  unfolding hook_step
  step-IsPending n s (fetched d) h off k = k
  step-IsPending n s (saved p) h off k = started-IsPending n s p h.cached h k
  step-IsPending n s (answered m d) h off k =
      answer-IsPending n m s d (find_save m h.saves) h (λ z. ground arith) refl k
  step-IsPending n s (refused m msg) h off k =
      refusal-IsPending n m s msg (find_save m h.saves) h (λ z. ground arith) refl k

  run-IsPending :
      (n : ℕ) (s : Save W) (es : List (SettingsEvent W)) (h : Hook W)
      → any (is_end n) es ≡ false
      → IsPending n s h
      → IsPending n s (hook_after es h)
  unfolding hook_run
  run-IsPending n s [] h off k = k
  run-IsPending n s (e ∷ es) h off k =
      run-IsPending n s es (hook_step e h).0 (ground arith)
        (step-IsPending n s e h (ground arith) k)

  -- The save that starts in a state that shows settings.
  abbrev pub first_save : SettingsData W → SettingsData W → Hook W → Save W
  first_save a d h = record { id = h.next; patch = a; prev = d }

  saved-IsPending :
      (a d : SettingsData W) (h : Hook W)
      → h.cached ≡ some d
      → IsPending h.next (first_save a d h) (hook_step (saved a) h).0
  unfolding hook_step
  saved-IsPending a d h e = rw e (ground arith, omega arith)

  cached-refused :
      (n : ℕ) (s : Save W) (msg : Text) (h : Hook W)
      → find_save n h.saves ≡ some s
      → (hook_step (refused n msg) h).0.cached ≡ some s.prev
  unfolding hook_step
  cached-refused n s msg h e = rw e

  cached-answered :
      (n : ℕ) (s : Save W) (d : SettingsData W) (h : Hook W)
      → find_save n h.saves ≡ some s
      → (hook_step (answered n d) h).0.cached ≡ some d
  unfolding hook_step
  cached-answered n s d h e = rw e

  some_injective : {d e : SettingsData W} → some e ≡ some d → e ≡ d
  some_injective h = cc

  -- A save starts while the settings d are shown; whatever else happens before it ends, another save that
  -- is under way is answered with the settings e, and then the first one is refused. After the answer the
  -- settings e are shown; after the refusal the settings d are, and so no longer those that were answered,
  -- if these are others.
  pub cached-overlap :
      (h : Hook W) (d a e : SettingsData W) (es : List (SettingsEvent W)) (m : ℕ) (s : Save W)
      → (msg : Text) → h.cached ≡ some d
      → any (is_end h.next) es ≡ false
      → m ≢ h.next
      → find_save m (hook_after (saved a ∷ es) h).saves ≡ some s
      → let told = hook_after (saved a ∷ es ++ answered m e ∷ []) h in
        let after = hook_after (saved a ∷ es ++ answered m e ∷ refused h.next msg ∷ []) h in
        (told.cached ≡ some e) × (after.cached ≡ some d) × (e ≢ d → after.cached ≢ some e)
  unfolding hook_run
  cached-overlap h d a e es m s msg shown none_ends other pending =
      let n = h.next in
      let first = first_save a d h in
      let begun = (hook_step (saved a) h).0 in
      let mid = hook_after es begun in
      let told = (hook_step (answered m e) mid).0 in
      let under_way : IsPending n first mid =
        run-IsPending n first es begun none_ends (saved-IsPending a d h shown) in
      let still : IsPending n first told =
        step-IsPending n first (answered m e) mid (ground arith) under_way in
      let back : (hook_after (saved a ∷ es ++ answered m e ∷ refused n msg ∷ []) h).cached
          ≡ some d =
        ap (λ (k : Hook W). k.cached)
          (hook_after-append es (answered m e ∷ refused n msg ∷ []) begun)
        ∙ cached-refused n first msg told still.0 in
      (
        ap (λ (k : Hook W). k.cached) (hook_after-append es (answered m e ∷ []) begun)
            ∙ cached-answered m s e mid pending,
        back,
        λ differ same. differ (some_injective (sym same ∙ back)),
      )
