-- ===== src/Compose/Tests.antt =====
-- Lines and texts to try the editor on, and the theorems applied to them.
use app_dockhand.Compose.Validation.{
  ValidationState, ValidationEvent, change, fire, settle, mounted, validation_run, is_valid, is_on,
  validation_step,
}
use app_dockhand.Compose.Current.{validation_run-final, is_waiting, final}
use app_dockhand.Compose.Keys.{outdent, indent, outdent-indent, line_start, line_from, blanks}
use app_dockhand.Compose.Draws.{drawn_lem, drawn}
use app_dockhand.Base.{
  refl, txt, Bool, Text, List, text_eq, ◌≡◌, trim, true, ◌∷◌, some, [], ◌⊎◌, trim_start, false,
  span, split_first, inl, trim_end, inr, starts_with, is_space,
}
use app_dockhand.Compose.{
  highlight_line, key_match, split_from, value_color, is_decimal, bare, inked, Ink,
}
use app_dockhand.Types.Stacks.{ComposeValidation}

key_line :
    highlight_line (txt "  - image: nginx # web")
    ≡ bare (txt "  ")
      ∷ inked Ink.punctuation (txt "- ")
      ∷ inked Ink.keys (txt "image")
      ∷ inked Ink.punctuation (txt ":")
      ∷ bare (txt " ")
      ∷ inked Ink.strings (txt "nginx ")
      ∷ inked Ink.comments (txt "# web")
      ∷ []
unfolding highlight_line key_match split_from span starts_with is_space value_color trim trim_start
    trim_end text_eq is_decimal
key_line = refl

item_line :
    highlight_line (txt "- \"8080:80\"")
    ≡ bare []
      ∷ inked Ink.punctuation (txt "-")
      ∷ bare (txt " ")
      ∷ inked Ink.strings (txt "\"8080:80\"")
      ∷ []
unfolding highlight_line key_match split_from split_first span starts_with is_space value_color trim
    trim_start trim_end text_eq is_decimal
item_line = refl

outdents_own_line : outdent (txt "a\n   b") 4 4 ≡ some (txt "a\n b", 2, 2)
unfolding outdent line_start line_from blanks
outdents_own_line = refl

-- With the caret in front of an empty first line, the second line is moved.
outdents_second_line : outdent (txt "\n  b") 0 0 ≡ some (txt "\nb", 1, 1)
unfolding outdent line_start line_from blanks
outdents_second_line = refl

abbrev answer : Bool → ComposeValidation
answer ok = record { ok = ok; error = []; line = 0; services = [] }

abbrev example_server : Text → ComposeValidation ⊎ Text
example_server content = inl (answer (text_eq content (txt "a:")))

abbrev first_answered : List ValidationEvent
first_answered = fire ∷ settle 0 ∷ []

abbrev edited : List ValidationEvent
edited = fire ∷ settle 0 ∷ change (txt "a") true ∷ []

-- After an edit that the server refuses, the file is called valid until the next answer.
still_valid : is_valid (validation_run example_server edited (mounted (txt "a:") true)).state ≡ true
unfolding validation_step is_valid text_eq trim trim_start trim_end is_space
still_valid = refl

drawn_lem_example : drawn (txt "a: 1\n# b") ≡ txt "a: 1\n# b"
drawn_lem_example = drawn_lem (txt "a: 1\n# b")

outdent-indent_example :
    outdent (indent (txt "a\nb") 2 2).0 (indent (txt "a\nb") 2 2).1 (indent (txt "a\nb") 2 2).2
    ≡ some (txt "a\nb", 2, 2)
outdent-indent_example = outdent-indent (txt "a\n") (txt "b") (inr (txt "a", refl))

validation_run-final_example :
    let s = validation_run example_server first_answered (mounted (txt "a:") true) in
    (is_waiting s ≡ false → s.state ≡ final example_server s.content s.enabled)
    × (is_on s.content s.enabled ≡ false → s.state ≡ ValidationState.idle)
    × (is_valid s.state ≡ true
        → (k : Text) × (r : ComposeValidation) × (example_server k ≡ inl r) × (r.ok ≡ true))
validation_run-final_example = validation_run-final example_server (txt "a:") true first_answered
