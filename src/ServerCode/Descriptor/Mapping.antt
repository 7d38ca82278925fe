-- ===== src/ServerCode/Descriptor/Mapping.antt =====
-- lib/server-code/model/service-descriptor.js, typesMapping and getTypeMapping: how a type of a comment
-- is called in Java, in other languages and in the XML.
use js_code_runner.Common.{String, Option, none, some, List, [], ◌∷◌, if◌then◌else◌}
use js_code_runner.Common.Dict.{lookup}
use Prim.Native.String
use text.Mathlib.Text.{◌==◌}
use js_code_runner.ServerCode.Classes.{TypeRef, named, of_elements, ClassDef}
use js_code_runner.ServerCode.Descriptor.{to_upper_case}

abbrev pub namespace : String
namespace = "services"

abbrev pub packaged : String → String
packaged name = String.◌++◌ namespace (String.◌++◌ "." name)

pub record TypeMapping : Type 0 where
  pub type : String
  pub java_type : String
  pub native_type : String
  pub full_type : String
  pub element_type : Option String

-- `generic`, with the name of the element type in the same language.
abbrev pub generic : String → Option String → String
generic t none = t
generic t (some element) = String.◌++◌ t (String.◌++◌ "<" (String.◌++◌ element ">"))

-- The rows of typesMapping: a name, or a name that takes the element type.
pub data Row : Type 0 where
  fixed listed : String → Row

unfoldable pub java_types : List (String × Row)
java_types =
    ("STRING", fixed "java.lang.String")
    ∷ ("BOOLEAN", fixed "boolean")
    ∷ ("NUMBER", fixed "float")
    ∷ ("ARRAY", listed "java.util.List")
    ∷ ("OBJECT", fixed "java.lang.Object")
    ∷ ("DATE", fixed "java.util.Date")
    ∷ []

unfoldable pub native_types : List (String × Row)
native_types =
    ("BOOLEAN", fixed "bool")
    ∷ ("NUMBER", fixed "float")
    ∷ ("ARRAY", listed "List")
    ∷ ("DATE", fixed "DateTime")
    ∷ []

abbrev pub row_name : Option Row → String → Option String → String
row_name none name element = name
row_name (some (fixed t)) name element = t
row_name (some (listed t)) name element = generic t element

-- `definitions[result] && withinNamespace`
abbrev pub within_namespace : List (String × ClassDef) → String → String
within_namespace definitions result = elim (lookup result definitions) [
  | none ↦ result
  | some d ↦ packaged result
]

-- What getTypeMapping makes of a name, that is no promise, and of the mapping of its element type.
unfoldable pub resolve : List (String × ClassDef) → String → Option TypeMapping → TypeMapping
resolve definitions name sub =
    let upper = to_upper_case name in
    record {
      type = name;
      java_type = within_namespace definitions (
          row_name (lookup upper java_types) name
            (elim sub [ none ↦ none | some m ↦ some m.java_type ]));
      native_type = within_namespace definitions (
          row_name (lookup upper native_types) name
            (elim sub [ none ↦ none | some m ↦ some m.native_type ]));
      full_type = within_namespace definitions name;
      element_type = elim sub [ none ↦ none | some m ↦ some m.type ];
    }

-- `type && type.name === 'Promise' ? unwrapPromise(type.elementType) : type`
unfoldable pub unwrap_promise : TypeRef → Option TypeRef
unwrap_promise (named name) = if name == "Promise" then none else some (named name)
unwrap_promise (of_elements name element) =
    let inner = unwrap_promise element in
    if name == "Promise" then inner else some (of_elements name element)

-- getTypeMapping of a type. Where it is a promise, the source goes on with what unwrapPromise gives,
-- and that is what it gives for the element type.
unfoldable pub type_mapping : List (String × ClassDef) → TypeRef → TypeMapping
type_mapping definitions (named name) =
    if name == "Promise" then resolve definitions "void" none else resolve definitions name none
type_mapping definitions (of_elements name element) =
    let sub = type_mapping definitions element in
    if name == "Promise" then sub else resolve definitions name (some sub)

unfoldable pub get_type_mapping : Option TypeRef → List (String × ClassDef) → TypeMapping
get_type_mapping none definitions = resolve definitions "void" none
get_type_mapping (some type) definitions = type_mapping definitions type
