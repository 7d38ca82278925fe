-- ===== src/Patterns.antt =====
-- lib/util/file.js, processPatterns: the files that a list of wildcard patterns selects. What a single
-- pattern matches is an argument.
pub mod Last
use Prim.Native.String.{String, slice, len}
use text.Mathlib.Text.{◌==◌, starts_with}
use js_code_runner.Common.{Bool, true, false, List, [], ◌∷◌, ◌++◌, if◌then◌else◌}

-- `pattern.indexOf('!') === 0`
abbrev pub is_exclusion : String → Bool
is_exclusion pattern = starts_with pattern "!"

abbrev pub bare : String → String
bare pattern = if is_exclusion pattern then slice pattern 1 (len pattern) else pattern

-- `result.splice(result.indexOf(file), 1)`, and nothing if the file is not there.
unfoldable pub splice_out : String → List String → List String
splice_out file [] = []
splice_out file (f ∷ fs) = let rest = splice_out file fs in if f == file then fs else f ∷ rest

-- `result.indexOf(file) !== -1`
unfoldable pub has_file : String → List String → Bool
has_file file [] = false
has_file file (f ∷ fs) = let rest = has_file file fs in if f == file then true else rest

abbrev pub take_match : Bool → String → List String → List String
take_match true file result = splice_out file result
take_match false file result = if has_file file result then result else result ++ file ∷ []

unfoldable pub take_matches : Bool → List String → List String → List String
take_matches exclusion [] result = result
take_matches exclusion (file ∷ files) result =
    take_matches exclusion files (take_match exclusion file result)

unfoldable pub process_from : (String → List String) → List String → List String → List String
process_from matches [] result = result
process_from matches (pattern ∷ patterns) result =
    process_from matches patterns
      (take_matches (is_exclusion pattern) (matches (bare pattern)) result)

unfoldable pub process_patterns : (String → List String) → List String → List String
process_patterns matches patterns = process_from matches patterns []
