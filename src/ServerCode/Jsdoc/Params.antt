-- ===== src/ServerCode/Jsdoc/Params.antt =====
-- lib/util/jsdoc.js, MethodDef.addParam and the handlers of the tags of a method.
use js_code_runner.Common.{
  String, Bool, true, false, not, Option, none, some, List, [], ◌∷◌, ◌++◌, if◌then◌else◌,
}
use js_code_runner.Common.Dict.{lookup, insert}
use Prim.Native.String
use text.Mathlib.Text.{◌==◌}
use js_code_runner.ServerCode.Classes.{ParamDoc, ParamDef, MethodDef}
use js_code_runner.ServerCode.Descriptor.{Outcome, done, thrown, exhausted, ◌>>=◌, or_text}
use js_code_runner.ServerCode.Jsdoc.Types.{from_doc}

-- A tag of a comment.
pub record DocTag : Type 0 where
  pub title : String
  pub original_title : String
  pub value : String

-- What the text of a `@paramDef` tag holds.
pub record TagParam : Type 0 where
  pub name : String
  pub label : Option String
  pub type : Option String
  pub required : Bool
  pub description : Option String
  pub dictionary : Option String
  pub depends_on : Option String
  pub ui_component : Option String
  pub default_value : Option String
  pub schema_loader : Option String
  pub hidden : Bool

unfoldable pub param_of : TagParam → ParamDoc
param_of p = record {
  name = p.name;
  label = p.label;
  type = from_doc p.type;
  optional = not p.required;
  description = p.description;
  dictionary = p.dictionary;
  depends_on = p.depends_on;
  ui_component = p.ui_component;
  default_value = p.default_value;
  schema_loader = p.schema_loader;
  hidden = p.hidden;
}

abbrev pub Args : Type 0
Args = List (String × List (String × Option String))

abbrev entry : String → Args → List (String × Option String)
entry name args = elim (lookup name args) [ none ↦ [] | some e ↦ e ]

-- ensureMetaInfoArgument, and a field of the entry.
unfoldable pub put_arg : String → String → Option String → Args → Args
put_arg name key value args = insert name (insert key value (entry name args)) args

-- A field that is written where the parameter has it.
abbrev pub put_given : String → String → Option String → Args → Args
put_given name key none args = args
put_given name key (some value) args = put_arg name key (some value) args

-- A field that comes with `dependsOn`.
abbrev pub put_dependent : String → String → Option String → Option String → Args → Args
put_dependent name key none depends_on args = args
put_dependent name key (some value) depends_on args =
    put_arg name "dependsOn" depends_on (put_arg name key (some value) args)

abbrev pub put_hidden : String → Bool → Args → Args
put_hidden name false args = args
put_hidden name true args = put_arg name "hidden" (some "true") args

unfoldable pub describe_arg : ParamDoc → Args → Args
describe_arg p args = put_hidden p.name p.hidden (
    put_given p.name "defaultValue" p.default_value (
      put_given p.name "uiComponent" p.ui_component (
        put_given p.name "label" p.label (
          put_dependent p.name "schemaLoader" p.schema_loader p.depends_on
            (put_dependent p.name "dictionary" p.dictionary p.depends_on args)))))

-- The constructor of ParamDef.
unfoldable pub param_def : ParamDoc → ParamDef
param_def p = record {
  name = p.name;
  label = or_text p.label p.name;
  type = p.type;
  optional = p.optional;
  default_value = p.default_value;
  description = p.description;
}

unfoldable pub add_param : ParamDoc → MethodDef → MethodDef
add_param p m = record m {
  params = m.params ++ param_def p ∷ [];
  meta_info = record m.meta_info { args = describe_arg p m.meta_info.args };
}

unfoldable pub add_tag : String → String → MethodDef → MethodDef
add_tag name value m = record m { tags = insert name value m.tags }

abbrev pub reading_failed : String → String → String
reading_failed value message =
    String.◌++◌
      "Can not compose the deployment model because of an error with reading method parameter definition. @paramDef "
      (String.◌++◌ value (String.◌++◌ ". Error: " message))

-- The names of the parameters that tags define.
abbrev pub registered : String → List String → Bool
registered name [] = false
registered name (x ∷ xs) = if x == name then true else registered name xs

module _ (parse : String → Outcome TagParam) where
  abbrev parse_param : String → Outcome TagParam
  parse_param value = elim (parse value) [
    | done p ↦ done p
    | thrown message ↦ thrown (reading_failed value message)
    | exhausted ↦ exhausted
  ]

  unfoldable pub handle_tag : DocTag → MethodDef → List String → Outcome (MethodDef × List String)
  handle_tag t m names =
      if not (t.title == "paramdef")
      then done (add_tag t.title t.value m, names)
      else do p ← parse_param t.value; done (add_param (param_of p) m, p.name ∷ names)

  unfoldable pub handle_tags :
      List DocTag → MethodDef → List String → Outcome (MethodDef × List String)
  handle_tags [] m names = done (m, names)
  handle_tags (t ∷ ts) m names = do (m1, names1) ← handle_tag t m names; handle_tags ts m1 names1

-- The parameters of the comment itself: those that no tag defines are added.
unfoldable pub add_params : List ParamDoc → List String → MethodDef → MethodDef
add_params [] names m = m
add_params (p ∷ ps) names m =
    add_params ps names (if registered p.name names then m else add_param p m)
