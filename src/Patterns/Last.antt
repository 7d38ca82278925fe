-- ===== src/Patterns/Last.antt =====
-- The last pattern that matches a file decides whether it is selected.
use text.Mathlib.Text.{◌==◌}
use js_code_runner.Common.{
  ◌≡◌, refl, ◌∙◌, ap, String, Bool, true, false, not, ◌&&◌, ◌||◌, List, [], ◌∷◌, ◌++◌,
  if◌then◌else◌, arith, eq_iff, Bool-cases, inl, inr,
}
use js_code_runner.Patterns.{
  is_exclusion, bare, splice_out, has_file, take_match, take_matches, process_from,
  process_patterns,
}

-- No file is listed twice.
pub no_repeats : List String → Bool
no_repeats [] = true
no_repeats (f ∷ fs) = not (has_file f fs) && no_repeats fs

has_file-splice_out :
    (file asked : String) (l : List String)
    → no_repeats l ≡ true
    → has_file asked (splice_out file l) ≡ (not (file == asked) && has_file asked l)
unfolding has_file splice_out no_repeats
has_file-splice_out file asked [] once = ground arith
has_file-splice_out file asked (f ∷ fs) once =
    ground
      (arith, eq_iff f file, eq_iff f asked, eq_iff file asked, has_file-splice_out file asked fs)

has_file-append :
    (asked file : String) (l : List String)
    → has_file asked (l ++ file ∷ []) ≡ (has_file asked l || file == asked)
unfolding has_file
has_file-append asked file [] = ground arith
has_file-append asked file (f ∷ fs) = ground (arith, has_file-append asked file fs)

no_repeats-splice_out :
    (file : String) (l : List String) → no_repeats l ≡ true → no_repeats (splice_out file l) ≡ true
unfolding no_repeats splice_out
no_repeats-splice_out file [] once = refl
no_repeats-splice_out file (f ∷ fs) once =
    ground (arith, has_file-splice_out file f fs, no_repeats-splice_out file fs)

no_repeats-append :
    (file : String) (l : List String)
    → has_file file l ≡ false
    → no_repeats l ≡ true
    → no_repeats (l ++ file ∷ []) ≡ true
unfolding no_repeats has_file
no_repeats-append file [] new once = refl
no_repeats-append file (f ∷ fs) new once =
    ground
      (arith, eq_iff f file, eq_iff file f, has_file-append f file fs, no_repeats-append file fs)

take_match-no_repeats :
    (exclusion : Bool) (file : String) (l : List String)
    → no_repeats l ≡ true
    → no_repeats (take_match exclusion file l) ≡ true
take_match-no_repeats true file l once = no_repeats-splice_out file l once
take_match-no_repeats false file l once = elim (Bool-cases (has_file file l)) [
  | inl there ↦ rw there once
  | inr new ↦ rw new (no_repeats-append file l new once)
]

has_file-take_match :
    (exclusion : Bool) (file asked : String) (l : List String)
    → no_repeats l ≡ true
    → has_file asked (take_match exclusion file l)
      ≡ (if file == asked then not exclusion else has_file asked l)
has_file-take_match true file asked l once = ground (arith, has_file-splice_out file asked l once)
has_file-take_match false file asked l once =
    ground (arith, eq_iff file asked, has_file-append asked file l)

take_matches-no_repeats :
    (exclusion : Bool) (files l : List String)
    → no_repeats l ≡ true
    → no_repeats (take_matches exclusion files l) ≡ true
unfolding take_matches
take_matches-no_repeats exclusion [] l once = once
take_matches-no_repeats exclusion (file ∷ files) l once =
    take_matches-no_repeats exclusion files _ (take_match-no_repeats exclusion file l once)

has_file-take_matches :
    (exclusion : Bool) (files l : List String) (asked : String)
    → no_repeats l ≡ true
    → has_file asked (take_matches exclusion files l)
      ≡ (if has_file asked files then not exclusion else has_file asked l)
unfolding take_matches has_file
has_file-take_matches exclusion [] l asked once = refl
has_file-take_matches exclusion (file ∷ files) l asked once =
    has_file-take_matches exclusion files (take_match exclusion file l) asked
      (take_match-no_repeats exclusion file l once)
    ∙ ground (arith, has_file-take_match exclusion file asked l once)

-- What the last of the patterns that match a file says of it, or `before` if none does.
pub decided : (String → List String) → List String → String → Bool → Bool
decided matches [] file before = before
decided matches (pattern ∷ patterns) file before =
    decided matches patterns file
      (if has_file file (matches (bare pattern)) then not (is_exclusion pattern) else before)

process_from-decided :
    (matches : String → List String) (patterns l : List String) (file : String)
    → no_repeats l ≡ true
    → (has_file file (process_from matches patterns l)
        ≡ decided matches patterns file (has_file file l))
      × (no_repeats (process_from matches patterns l) ≡ true)
unfolding process_from decided
process_from-decided matches [] l file once = (refl, once)
process_from-decided matches (pattern ∷ patterns) l file once =
    let files = matches (bare pattern) in
    let rest =
      process_from-decided matches patterns (take_matches (is_exclusion pattern) files l) file
        (take_matches-no_repeats (is_exclusion pattern) files l once) in
    (
      rest.0
          ∙ ap (decided matches patterns file)
              (has_file-take_matches (is_exclusion pattern) files l file once),
      rest.1,
    )

-- A file is selected exactly if the last pattern that matches it is not an exclusion, whatever the
-- single patterns match; and no file is selected twice.
pub process_patterns-decided :
    (matches : String → List String) (patterns : List String) (file : String)
    → (has_file file (process_patterns matches patterns) ≡ decided matches patterns file false)
      × (no_repeats (process_patterns matches patterns) ≡ true)
unfolding process_patterns has_file no_repeats
process_patterns-decided matches patterns file = process_from-decided matches patterns [] file refl
