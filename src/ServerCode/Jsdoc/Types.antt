-- ===== src/ServerCode/Jsdoc/Types.antt =====
-- lib/util/jsdoc.js, the class TypeDef: a type of a comment, read from its text, like
-- `Array.<Promise.<Item>>`. An element type is shorter than the text that it stands in, so the
-- recursion runs on fuel, one unit for each character.
use js_code_runner.Common.{
  ℕ, zero, suc, String, Bool, true, false, Option, none, some, if◌then◌else◌, ◌==◌,
}
use Prim.Native.Char.{code}
use js_code_runner.ServerCode.Classes.{TypeRef, named, of_elements}

-- The text before the first dot, or all of it.
unfoldable pub trim : String → String
trim String.[] = String.[]
trim (String.◌∷◌ c s) = let later = trim s in if code c == 46 then String.[] else String.◌∷◌ c later

-- The text before the last `>`.
unfoldable pub before_last_bracket : String → Option String
before_last_bracket String.[] = none
before_last_bracket (String.◌∷◌ c s) = elim (before_last_bracket s) [
  | none ↦ if code c == 62 then some String.[] else none
  | some t ↦ some (String.◌∷◌ c t)
]

-- parseElementType: the match of `/<(.*)>/` is from the first `<` to the last `>`.
unfoldable pub parse_element_type : String → Option String
parse_element_type String.[] = none
parse_element_type (String.◌∷◌ c s) =
    let later = parse_element_type s in if code c == 60 then before_last_bracket s else later

abbrev pub is_empty : String → Bool
is_empty String.[] = true
is_empty (String.◌∷◌ c s) = false

abbrev pub characters : String → ℕ
characters String.[] = 0
characters (String.◌∷◌ c s) = suc (characters s)

-- The constructor.
unfoldable pub type_def : ℕ → String → TypeRef
type_def zero type = named (trim type)
type_def (suc fuel) type = elim (parse_element_type type) [
  | none ↦ named (trim type)
  | some element ↦
      if is_empty element
      then named (trim type)
      else of_elements (trim type) (type_def fuel element)
]

unfoldable pub read_type : String → TypeRef
read_type type = type_def (characters type) type

-- fromDoc, of the first of the names.
abbrev pub from_doc : Option String → Option TypeRef
from_doc none = none
from_doc (some name) = if is_empty name then none else some (read_type name)
