-- ===== src/Settings.antt =====
-- `useSettings` of web/components/settings/common.tsx: the settings with an optimistic PATCH that is
-- rolled back on an error. As in the source, settings are an object of objects with unknown values, and
-- what the source reads of a patch is its keys; a key stands once in an object.
mod Tests
pub mod Merge
pub mod Saves
pub mod Overlap
use Prim.Native.Nat.{ℕ, suc}
use app_dockhand.Base.{
  List, Text, Option, none, ◌∷◌, [], Bool, if◌then◌else◌, some, text_eq, find, filter, txt, ◌++◌,
  false, ◌==◌, not, true,
}

abbrev pub Section : Type 0 → Type 0
Section V = List (Text × V)

abbrev pub SettingsData : Type 0 → Type 0
SettingsData V = List (Text × Section V)

module _ {A : Type 0} where
  -- `o[k]`
  unfoldable pub field : Text → List (Text × A) → Option A
  field k [] = none
  field k (e ∷ o) = if text_eq e.0 k then some e.1 else field k o

  -- `o[k] = v`
  unfoldable pub assign : Text → A → List (Text × A) → List (Text × A)
  assign k v [] = (k, v) ∷ []
  assign k v (e ∷ o) = if text_eq e.0 k then (e.0, v) ∷ o else e ∷ assign k v o

  -- `{ ...o, ...p }`
  unfoldable pub spread : List (Text × A) → List (Text × A) → List (Text × A)
  spread o [] = o
  spread o (e ∷ p) = spread (assign e.0 e.1 o) p

-- `{ ...undefined }` is empty.
abbrev pub section : {V : Type 0} → Option (Section V) → Section V
section none = []
section (some s) = s

module _ {V : Type 0} where
  -- The loop of `mergeSettings`: `out` changes, and `s` does not.
  unfoldable pub merge_into : SettingsData V → SettingsData V → SettingsData V → SettingsData V
  merge_into s out [] = out
  merge_into s out (e ∷ p) = merge_into s (assign e.0 (spread (section (field e.0 s)) e.1) out) p

  unfoldable pub merge_settings : SettingsData V → SettingsData V → SettingsData V
  merge_settings s p = merge_into s s p

-- What the hook keeps: the cached data, and for each save that is under way its number, its patch and
-- the data from before it.
pub record Save (V : Type 0) : Type 0 where
  pub id : ℕ
  pub patch : SettingsData V
  pub prev : SettingsData V

pub record Hook (V : Type 0) : Type 0 where
  pub cached : Option (SettingsData V)
  pub saves : List (Save V)
  pub next : ℕ

-- What it does to the API and the page; `returned` is what a call of `save` resolves to.
pub data SettingsEffect (V : Type 0) : Type 0 where
  send_patch : SettingsData V → SettingsEffect V
  invalidate : Text → SettingsEffect V
  toast : Text → Text → SettingsEffect V
  returned : ℕ → Bool → SettingsEffect V

-- Data that arrives, a call of `save`, and how the request of one ends.
pub data SettingsEvent (V : Type 0) : Type 0 where
  fetched : SettingsData V → SettingsEvent V
  saved : SettingsData V → SettingsEvent V
  answered : ℕ → SettingsData V → SettingsEvent V
  refused : ℕ → Text → SettingsEvent V

module _ {V : Type 0} where
  -- `save` up to its `await`.
  abbrev pub start_save :
      SettingsData V → Option (SettingsData V) → Hook V → Hook V × List (SettingsEffect V)
  start_save p none h = (record h { next = suc h.next }, returned h.next false ∷ [])
  start_save p (some prev) h = (
    record {
      cached = some (merge_settings prev p);
      saves = record { id = h.next; patch = p; prev = prev } ∷ h.saves;
      next = suc h.next;
    },
    send_patch p ∷ [],
  )

  -- The save that a request belongs to, and the others.
  abbrev pub find_save : ℕ → List (Save V) → Option (Save V)
  find_save n saves = find (λ (s : Save V). s.id == n) saves

  abbrev pub drop_save : ℕ → Hook V → Hook V
  drop_save n h = record h { saves = filter (λ (s : Save V). not (s.id == n)) h.saves }

  -- `if (p.updates)`: an object is truthy.
  abbrev pub schedule : SettingsData V → List (SettingsEffect V)
  schedule p = elim (field (txt "updates") p) [
    | none ↦ []
    | some _ ↦ invalidate (txt "/api/system") ∷ []
  ]

  abbrev pub take_answer :
      SettingsData V → Option (Save V) → Hook V → Hook V × List (SettingsEffect V)
  take_answer d none h = (h, [])
  take_answer d (some s) h =
      (record (drop_save s.id h) { cached = some d }, schedule s.patch ++ returned s.id true ∷ [])

  abbrev pub roll_back : Text → Option (Save V) → Hook V → Hook V × List (SettingsEffect V)
  roll_back msg none h = (h, [])
  roll_back msg (some s) h = (
    record (drop_save s.id h) { cached = some s.prev },
    toast (txt "Couldn't save setting") msg ∷ returned s.id false ∷ [],
  )

  unfoldable pub hook_step : SettingsEvent V → Hook V → Hook V × List (SettingsEffect V)
  unfolding merge_settings
  hook_step (fetched d) h = (record h { cached = some d }, [])
  hook_step (saved p) h = start_save p h.cached h
  hook_step (answered n d) h = take_answer d (find_save n h.saves) h
  hook_step (refused n msg) h = roll_back msg (find_save n h.saves) h

  unfoldable pub hook_run : List (SettingsEvent V) → Hook V → Hook V × List (SettingsEffect V)
  hook_run [] h = (h, [])
  hook_run (e ∷ es) h =
      let (h', done) = hook_step e h in let (h'', more) = hook_run es h' in (h'', done ++ more)
