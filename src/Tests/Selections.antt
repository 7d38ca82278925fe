-- ===== src/Tests/Selections.antt =====
-- The theorem on patterns, for a pattern for all files and the exclusion of one.
use text.Mathlib.Text.{◌==◌}
use js_code_runner.Common.{◌≡◌, refl, String, true, false, List, [], ◌∷◌, if◌then◌else◌}
use js_code_runner.Patterns.{has_file, splice_out, take_matches, process_from, process_patterns}
use js_code_runner.Patterns.Last.{no_repeats, decided, process_patterns-decided}

abbrev matches : String → List String
matches pattern = if pattern == "**" then "a.js" ∷ "b.js" ∷ [] else pattern ∷ []

abbrev patterns : List String
patterns = "**" ∷ "!b.js" ∷ []

selected : process_patterns matches patterns ≡ "a.js" ∷ []
unfolding process_patterns process_from take_matches splice_out has_file
selected = refl

process_patterns-decided_example :
    (has_file "b.js" (process_patterns matches patterns) ≡ decided matches patterns "b.js" false)
    × (no_repeats (process_patterns matches patterns) ≡ true)
process_patterns-decided_example = process_patterns-decided matches patterns "b.js"
