-- ===== src/Settings/Tests.antt =====
-- Settings to try the hook on, with numbers for values, and the theorems applied to them.
use app_dockhand.Settings.Overlap.{cached-overlap, hook_after}
use app_dockhand.Settings.Merge.{at_path, or_else, at_path-merge_settings}
use app_dockhand.Base.{refl, ℕ, txt, ◌∷◌, [], text_eq, ◌≡◌, some, List, ◌++◌, ◌≢◌, arith}
use app_dockhand.Settings.{
  SettingsData, merge_settings, hook_run, merge_into, saved, assign, spread, answered, field,
  refused, hook_step, SettingsEvent, fetched,
}
use app_dockhand.Base.Sets.{has}
use app_dockhand.Settings.Saves.{
  one_by_one, failed, took, hook_at, on_server, cached-one_by_one, lost, is_told, Ending,
}

abbrev two_sections : SettingsData ℕ
two_sections =
    (txt "general", (txt "domain", 1) ∷ [])
    ∷ (txt "mcp", (txt "enabled", 0) ∷ (txt "port", 7800) ∷ [])
    ∷ []

abbrev turn_on : SettingsData ℕ
turn_on = (txt "mcp", (txt "enabled", 1) ∷ []) ∷ []

abbrev other_domain : SettingsData ℕ
other_domain = (txt "general", (txt "domain", 2) ∷ []) ∷ []

turned_on :
    merge_settings two_sections turn_on
    ≡ (txt "general", (txt "domain", 1) ∷ [])
      ∷ (txt "mcp", (txt "enabled", 1) ∷ (txt "port", 7800) ∷ [])
      ∷ []
unfolding merge_settings merge_into assign spread field text_eq
turned_on = refl

at_path-merge_settings_example :
    at_path (txt "mcp") (txt "enabled") (merge_settings two_sections turn_on)
    ≡ or_else
        (at_path (txt "mcp") (txt "enabled") turn_on)
        (at_path (txt "mcp") (txt "enabled") two_sections)
unfolding has
at_path-merge_settings_example =
    at_path-merge_settings two_sections turn_on (txt "mcp") (txt "enabled")
      ((refl, tt), ((refl, tt), tt))

-- The first save fails, the second is stored and its answer lost, the third is answered.
abbrev endings : List (SettingsData ℕ × Ending ℕ)
endings =
    (turn_on, failed (txt "offline"))
    ∷ (other_domain, lost other_domain (txt "timeout"))
    ∷ (other_domain, took turn_on)
    ∷ []

cached-one_by_one_example :
    (hook_run (one_by_one 0 endings) (hook_at two_sections 0)).0.cached
    ≡ some (on_server two_sections endings)
unfolding is_told
cached-one_by_one_example = cached-one_by_one endings two_sections 0 refl

-- With the answer lost at the end, the settings that are shown are not those of the server.
shows_old :
    (hook_run
      (one_by_one 0 ((other_domain, lost other_domain (txt "timeout")) ∷ []))
      (hook_at two_sections 0)).0.cached
    ≡ some two_sections
unfolding hook_run one_by_one hook_step
shows_old = refl

abbrev overlapping : List (SettingsEvent ℕ)
overlapping = fetched two_sections ∷ saved other_domain ∷ []

cached-overlap_example :
    let told =
      hook_after
        (saved turn_on ∷ overlapping ++ answered 1 other_domain ∷ [])
        (hook_at two_sections 0) in
    let after =
      hook_after
        (saved turn_on ∷ overlapping ++ answered 1 other_domain ∷ refused 0 (txt "offline") ∷ [])
        (hook_at two_sections 0) in
    (told.cached ≡ some other_domain)
    × (after.cached ≡ some two_sections)
    × (other_domain ≢ two_sections → after.cached ≢ some other_domain)
unfolding hook_run hook_step
cached-overlap_example =
    cached-overlap (hook_at two_sections 0) two_sections turn_on other_domain overlapping 1
      (record { id = 1; patch = other_domain; prev = two_sections }) (txt "offline") refl refl
      (λ e. ground arith) refl
