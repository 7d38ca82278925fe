-- ===== src/ServerCode/Jsdoc/RoundTrip.antt =====
-- A type that is written the way the comments spell it is read back.
use js_code_runner.Common.{
  ℕ, zero, suc, ◌+◌, ◌≤◌, ◌≡◌, refl, ◌∙◌, ap, String, Bool, true, false, none, some, if◌then◌else◌,
  ◌==◌, arith,
}
use Prim.Native.String
use Prim.Native.String.append.{nil, cons}
use Prim.Native.Char.{char, code}
use js_code_runner.ServerCode.Classes.{TypeRef, named, of_elements}
use js_code_runner.ServerCode.Jsdoc.Types.{
  trim, before_last_bracket, parse_element_type, is_empty, characters, type_def, read_type,
}

-- The text of a type: `Array.<Item>` for an array of items.
unfoldable pub write_type : TypeRef → String
write_type (named name) = name
write_type (of_elements name element) =
    String.◌++◌ name (String.◌++◌ ".<" (String.◌++◌ (write_type element) ">"))

abbrev is_plain : String → Bool
is_plain String.[] = true
is_plain (String.◌∷◌ c s) =
    if code c == 46
    then false
    else if code c == 60
    then false
    else if code c == 62
    then false
    else is_plain s

-- Names that are not empty and have no dot and no bracket.
abbrev pub IsName : String → Type 0
IsName name = (is_plain name ≡ true) × (is_empty name ≡ false)

unfoldable pub HasNames : TypeRef → Type 0
HasNames (named name) = IsName name
HasNames (of_elements name element) = IsName name × HasNames element

abbrev inside : String → String
inside t = String.◌∷◌ (char 46 tt) (String.◌∷◌ (char 60 tt) (String.◌++◌ t ">"))

dotted : (t : String) → String.◌++◌ ".<" (String.◌++◌ t ">") ≡ inside t
dotted t =
    cons (char 46 tt) "<" _
    ∙ ap (λ s. String.◌∷◌ (char 46 tt) s)
        (cons (char 60 tt) String.[] _ ∙ ap (λ s. String.◌∷◌ (char 60 tt) s) (nil _))

before_last_bracket-append : (t : String) → before_last_bracket (String.◌++◌ t ">") ≡ some t
unfolding before_last_bracket
before_last_bracket-append String.[] = refl
before_last_bracket-append (String.◌∷◌ c s) =
    rw (cons c s ">", before_last_bracket) (ground (arith, before_last_bracket-append s))

trim-plain : (name : String) → is_plain name ≡ true → trim name ≡ name
unfolding trim
trim-plain String.[] plain = refl
trim-plain (String.◌∷◌ c s) plain = ground (arith, plain, trim-plain s)

parse_element_type-plain : (name : String) → is_plain name ≡ true → parse_element_type name ≡ none
unfolding parse_element_type
parse_element_type-plain String.[] plain = refl
parse_element_type-plain (String.◌∷◌ c s) plain = ground (arith, plain, parse_element_type-plain s)

trim-inside : (name t : String) → is_plain name ≡ true → trim (String.◌++◌ name (inside t)) ≡ name
unfolding trim
trim-inside String.[] t plain = rw (nil (inside t), trim) refl
trim-inside (String.◌∷◌ c s) t plain =
    rw (cons c s (inside t), trim) (ground (arith, plain, trim-inside s t))

parse_element_type-inside :
    (name t : String)
    → is_plain name ≡ true
    → parse_element_type (String.◌++◌ name (inside t)) ≡ some t
unfolding parse_element_type
parse_element_type-inside String.[] t plain =
    rw (nil (inside t), parse_element_type) (before_last_bracket-append t)
parse_element_type-inside (String.◌∷◌ c s) t plain =
    rw (cons c s (inside t), parse_element_type)
      (ground (arith, plain, parse_element_type-inside s t))

not_empty-append : (s t : String) → is_empty s ≡ false → is_empty (String.◌++◌ s t) ≡ false
not_empty-append String.[] t h = cc
not_empty-append (String.◌∷◌ c s) t h = rw (cons c s t, is_empty) refl

write_type-not_empty : (t : TypeRef) → HasNames t → is_empty (write_type t) ≡ false
unfolding write_type HasNames
write_type-not_empty (named name) h = h.1
write_type-not_empty (of_elements name element) h = not_empty-append name _ h.0.1

characters-append : (s t : String) → characters (String.◌++◌ s t) ≡ characters s + characters t
characters-append String.[] t = rw (nil t) (omega arith)
characters-append (String.◌∷◌ c s) t =
    rw (cons c s t, characters) (omega (arith, characters-append s t))

abbrev depth : TypeRef → ℕ
depth (named name) = 0
depth (of_elements name element) = suc (depth element)

depth-le_characters : (t : TypeRef) → depth t ≤ characters (write_type t)
unfolding write_type
depth-le_characters (named name) = omega arith
depth-le_characters (of_elements name element) =
    let t = write_type element in
    omega (
      arith,
      depth-le_characters element,
      characters-append name (String.◌++◌ ".<" (String.◌++◌ t ">")),
      characters-append ".<" (String.◌++◌ t ">"),
      characters-append t ">",
    )

type_def-write_type :
    (fuel : ℕ) (t : TypeRef) → HasNames t → depth t ≤ fuel → type_def fuel (write_type t) ≡ t
unfolding type_def write_type HasNames
type_def-write_type zero (named name) h deep = ap (λ n. named n) (trim-plain name h.0)
type_def-write_type zero (of_elements name element) h deep = absurd (omega arith)
type_def-write_type (suc fuel) (named name) h deep =
    rw (parse_element_type-plain name h.0, type_def) (ap (λ n. named n) (trim-plain name h.0))
type_def-write_type (suc fuel) (of_elements name element) h deep =
    let t = write_type element in
    let trimmed : trim (write_type (of_elements name element)) ≡ name =
      ap (λ s. trim (String.◌++◌ name s)) (dotted t) ∙ trim-inside name t h.0.0 in
    rw (dotted t, parse_element_type-inside name t h.0.0, type_def)
      (ground (
        arith,
        trimmed,
        write_type-not_empty element h.1,
        type_def-write_type fuel element h.1 (omega (arith, deep)),
      ))

-- A type whose names are not empty and hold no dot and no angle bracket is read back from its text,
-- however deep its element types are nested.
pub read_type-write_type : (t : TypeRef) → HasNames t → read_type (write_type t) ≡ t
unfolding read_type
read_type-write_type t h = type_def-write_type _ t h (depth-le_characters t)
