-- ===== src/Palette/Tests.antt =====
-- Entries to try the palette on, and the theorems applied to them.
use app_dockhand.Base.{
  none, refl, txt, Text, [], ◌∷◌, ◌≡◌, false, is_empty, starts_with, length, ◌-◌, trim, trim_start,
  ◌+◌, trim_end, arith, ◌*◌, is_space,
}
use app_dockhand.Palette.Items.{items}
use app_dockhand.Palette.Score.{score, index_of}
use app_dockhand.Palette.Subsequence.{score-positive, is_positive, is_subsequence, no_blanks}
use app_dockhand.Palette.Results.{results, flat, scored, top, item_score}
use app_dockhand.Palette.Best.{results-IsBest, IsAtMost, first_score}
use app_dockhand.Palette.Move.{
  palette_run, open_palette, arrow_down, enter, palette_run-HasRun, HasRun,
}
use app_dockhand.Base.Int.{pos}

abbrev same : Text → Text
same s = s

abbrev search_text : Text
search_text = txt "fleet"

score-positive_example :
    is_positive (score (txt "dpl") (txt "deploy"))
    ≡ is_subsequence (no_blanks (txt "dpl")) (txt "deploy")
score-positive_example = score-positive b'd' (txt "pl") (txt "deploy") refl (omega arith)

whole_word : score (txt "ho") (txt "add host") ≡ pos (10000 + 2 + 2000 - 20 * 4 - 8)
unfolding score index_of starts_with is_space
whole_word = refl

full : is_empty (trim search_text) ≡ false
unfolding trim trim_start trim_end is_space
full = refl

results-IsBest_example :
    IsAtMost
      (first_score (results same (items [] []) search_text))
      (scored same (same (trim search_text)) (items [] []))
results-IsBest_example = results-IsBest same (items [] []) search_text full

palette_run-HasRun_example :
    let p = palette_run same (open_palette (items [] [])) (arrow_down ∷ enter ∷ []) in
    (p.closed ≡ false → p.ran ≡ none) × HasRun p.closed p.ran (flat same p.items p.q)
palette_run-HasRun_example = palette_run-HasRun same (items [] []) (arrow_down ∷ enter ∷ [])

-- The seven pages, and the ten actions that need no query.
shown_at_first : length (flat same (items [] []) []) ≡ 17
unfolding flat results top scored item_score items trim trim_start trim_end
shown_at_first = refl
