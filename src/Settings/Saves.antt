-- ===== src/Settings/Saves.antt =====
-- What becomes of saves that overlap, and of those that do not.
use app_dockhand.Base.{
  refl, ℕ, Text, List, some, ◌≡◌, ◌∷◌, suc, [], arith, ap, ◌∙◌, Bool, true, false,
}
use app_dockhand.Settings.{
  SettingsData, hook_step, hook_run, Hook, answered, SettingsEvent, saved, refused,
}
use mathlib.Core.List.{[]}

-- How a save ends: the server takes it and answers with its settings; it fails before the server has
-- changed anything; or the server has stored it, with these settings, and the answer is lost.
pub data Ending (W : Type 0) : Type 0 where
  took : SettingsData W → Ending W
  failed : Text → Ending W
  lost : SettingsData W → Text → Ending W

module _ {W : Type 0} where
  -- What the hook sees of an ending: an error where the answer is lost.
  abbrev pub seen : ℕ → Ending W → SettingsEvent W
  seen n (took d) = answered n d
  seen n (failed msg) = refused n msg
  seen n (lost d msg) = refused n msg

  -- Saves one after the other, the next one when the one before has ended.
  unfoldable pub one_by_one : ℕ → List (SettingsData W × Ending W) → List (SettingsEvent W)
  one_by_one n [] = []
  one_by_one n ((p, e) ∷ es) = saved p ∷ seen n e ∷ one_by_one (suc n) es

  -- The server's settings after them.
  abbrev pub stored : SettingsData W → Ending W → SettingsData W
  stored d (took e) = e
  stored d (failed msg) = d
  stored d (lost e msg) = e

  unfoldable pub on_server : SettingsData W → List (SettingsData W × Ending W) → SettingsData W
  on_server d [] = d
  on_server d ((p, e) ∷ es) = on_server (stored d e) es

  -- Whether the hook has been told: no answer was lost after the last one that came. `b` is whether
  -- that is so before these saves.
  abbrev pub told : Bool → Ending W → Bool
  told b (took e) = true
  told b (failed msg) = b
  told b (lost e msg) = false

  unfoldable pub is_told : Bool → List (SettingsData W × Ending W) → Bool
  is_told b [] = b
  is_told b ((p, e) ∷ es) = is_told (told b e) es

  abbrev pub hook_at : SettingsData W → ℕ → Hook W
  hook_at d n = record { cached = some d; saves = []; next = n }

  -- What the hook shows after one save.
  abbrev shown_after : SettingsData W → Ending W → SettingsData W
  shown_after c (took e) = e
  shown_after c (failed msg) = c
  shown_after c (lost e msg) = c

  seen_lem :
      (c p : SettingsData W) (n : ℕ) (e : Ending W)
      → (hook_step (seen n e) (hook_step (saved p) (hook_at c n)).0).0
        ≡ hook_at (shown_after c e) (suc n)
  unfolding hook_step
  seen_lem c p n (took e) = ground arith
  seen_lem c p n (failed msg) = ground arith
  seen_lem c p n (lost e msg) = ground arith

  shown_after-stored :
      (b : Bool) (c d : SettingsData W) (e : Ending W)
      → (b ≡ true → c ≡ d)
      → told b e ≡ true
      → shown_after c e ≡ stored d e
  shown_after-stored b c d (took e) h t = refl
  shown_after-stored b c d (failed msg) h t = h t
  shown_after-stored b c d (lost e msg) h t = absurd (cc)

  cached-from :
      (es : List (SettingsData W × Ending W)) (b : Bool) (c d : SettingsData W) (n : ℕ)
      → (b ≡ true → c ≡ d)
      → is_told b es ≡ true
      → (hook_run (one_by_one n es) (hook_at c n)).0.cached ≡ some (on_server d es)
  unfolding hook_run one_by_one on_server is_told
  cached-from [] b c d n h t = ap some (h t)
  cached-from ((p, e) ∷ es) b c d n h t =
      ap (λ (k : Hook W). (hook_run (one_by_one (suc n) es) k).0.cached) (seen_lem c p n e)
      ∙ cached-from es (told b e) (shown_after c e) (stored d e) (suc n)
          (shown_after-stored b c d e h) t

  -- The settings of the server are shown, and then only saves of this page change or fetch them, none of
  -- which starts before the one before it has ended. If after the last answer that came there was no save
  -- that the server stored without its answer coming, what is shown at the end is what the server has.
  pub cached-one_by_one :
      (es : List (SettingsData W × Ending W)) (d : SettingsData W) (n : ℕ)
      → is_told true es ≡ true
      → (hook_run (one_by_one n es) (hook_at d n)).0.cached ≡ some (on_server d es)
  cached-one_by_one es d n t = cached-from es true d d n (λ e. refl) t
