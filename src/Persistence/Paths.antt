-- ===== src/Persistence/Paths.antt =====
-- lib/server-code/api/persistence-item.js, childPath: the paths that lead on below a property.
use js_code_runner.Common.{
  ◌≡◌, refl, sym, String, Bool, true, false, Option, none, some, List, [], ◌∷◌, if◌then◌else◌,
  arith, eq_iff, Bool-cases, Option-cases, eq_of_some, inl, inr, ap, ◌∙◌,
}
use Prim.Native.String
use Prim.Native.String.append.{nil, cons}
use Prim.Native.Char.{Char}
use text.Mathlib.Text.{◌==◌ as str_eq}

abbrev pub has_path : String → List String → Bool
has_path s [] = false
has_path s (x ∷ xs) = if str_eq x s then true else has_path s xs

-- The rest of a text behind a prefix, if it starts with it.
unfoldable pub strip_prefix : String → String → Option String
strip_prefix String.[] s = some s
strip_prefix (String.◌∷◌ d prefix) String.[] = none
strip_prefix (String.◌∷◌ d prefix) (String.◌∷◌ c s) =
    let below = strip_prefix prefix s in
    if str_eq (String.◌∷◌ c String.[]) (String.◌∷◌ d String.[]) then below else none

-- `path.filter(s => s.startsWith(prefix)).map(s => s.substr(prefix.length))`
unfoldable pub child_path_of : String → List String → List String
child_path_of prefix [] = []
child_path_of prefix (s ∷ ss) = elim (strip_prefix prefix s) [
  | none ↦ child_path_of prefix ss
  | some rest ↦ rest ∷ child_path_of prefix ss
]

abbrev pub child_path : String → List String → List String
child_path key path = child_path_of (String.◌++◌ key ".") path

strip_prefix-append :
    (prefix rest : String) → strip_prefix prefix (String.◌++◌ prefix rest) ≡ some rest
unfolding strip_prefix
strip_prefix-append String.[] rest = rw (nil rest) refl
strip_prefix-append (String.◌∷◌ d prefix) rest =
    rw (cons d prefix rest, strip_prefix)
      (ground (
        arith,
        strip_prefix-append prefix rest,
        eq_iff (String.◌∷◌ d String.[]) (String.◌∷◌ d String.[]),
      ))

head_inj : (c d : Char) → String.◌∷◌ c String.[] ≡ String.◌∷◌ d String.[] → c ≡ d
head_inj c d e = cc

strip_prefix_sound :
    (prefix s rest : String) → strip_prefix prefix s ≡ some rest → s ≡ String.◌++◌ prefix rest
unfolding strip_prefix
strip_prefix_sound String.[] s rest e = eq_of_some e ∙ sym (nil rest)
strip_prefix_sound (String.◌∷◌ d prefix) String.[] rest e = cc
strip_prefix_sound (String.◌∷◌ d prefix) (String.◌∷◌ c s) rest e =
    elim (Bool-cases (str_eq (String.◌∷◌ c String.[]) (String.◌∷◌ d String.[]))) [
      | inr other ↦ absurd (ground (arith, e, other))
      | inl is ↦
          let same : c ≡ d =
            head_inj c d
              (ground (arith, is, eq_iff (String.◌∷◌ c String.[]) (String.◌∷◌ d String.[]))) in
          let below : s ≡ String.◌++◌ prefix rest =
            strip_prefix_sound prefix s rest (ground (arith, e, is)) in
          rw (cons d prefix rest) cc
    ]

differs :
    (prefix s rest : String)
    → strip_prefix prefix s ≡ none
    → str_eq s (String.◌++◌ prefix rest) ≡ false
differs prefix s rest absent = elim (Bool-cases (str_eq s (String.◌++◌ prefix rest))) [
  | inr other ↦ other
  | inl is ↦
      let equal : s ≡ String.◌++◌ prefix rest =
        ground (arith, is, eq_iff s (String.◌++◌ prefix rest)) in
      let found : strip_prefix prefix s ≡ some rest =
        ap (strip_prefix prefix) equal ∙ strip_prefix-append prefix rest in
      absurd cc
]

same_rest :
    (prefix s t rest : String)
    → strip_prefix prefix s ≡ some t
    → str_eq t rest ≡ str_eq s (String.◌++◌ prefix rest)
same_rest prefix s t rest stripped =
    let made : s ≡ String.◌++◌ prefix t = strip_prefix_sound prefix s t stripped in
    elim (Bool-cases (str_eq s (String.◌++◌ prefix rest))) [
      | inl is ↦
          let equal : s ≡ String.◌++◌ prefix rest =
            ground (arith, is, eq_iff s (String.◌++◌ prefix rest)) in
          let found : strip_prefix prefix s ≡ some rest =
            ap (strip_prefix prefix) equal ∙ strip_prefix-append prefix rest in
          let rests : t ≡ rest = eq_of_some (sym stripped ∙ found) in
          ground (arith, is, rests, eq_iff t rest)
      | inr other ↦ elim (Bool-cases (str_eq t rest)) [
        | inr rests_differ ↦ rests_differ ∙ sym other
        | inl rests ↦
            let equal : t ≡ rest = ground (arith, rests, eq_iff t rest) in
            let whole : s ≡ String.◌++◌ prefix rest = made ∙ ap (String.◌++◌ prefix) equal in
            absurd (ground (arith, other, whole, eq_iff s (String.◌++◌ prefix rest)))
      ]
    ]

-- The paths below a property are exactly the paths of the list which begin with the property and a dot,
-- without that beginning.
pub has_path-child_path :
    (key rest : String) (path : List String)
    → has_path rest (child_path key path) ≡ has_path (String.◌++◌ (String.◌++◌ key ".") rest) path
unfolding child_path_of
has_path-child_path key rest [] = refl
has_path-child_path key rest (s ∷ ss) =
    let prefix : String = String.◌++◌ key "." in
    elim (Option-cases (strip_prefix prefix s)) [
      | inl absent ↦
          ground (arith, absent, has_path-child_path key rest ss, differs prefix s rest absent)
      | inr (t, stripped) ↦
          ground
            (arith, stripped, has_path-child_path key rest ss, same_rest prefix s t rest stripped)
    ]
