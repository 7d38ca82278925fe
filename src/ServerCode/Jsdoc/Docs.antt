-- ===== src/ServerCode/Jsdoc/Docs.antt =====
-- lib/util/jsdoc.js, FileDescriptor and describeClasses over the documents of a file.
use js_code_runner.Common.{
  String, Bool, false, not, Option, none, some, List, [], ◌∷◌, if◌then◌else◌, ◌&&◌, ◌||◌,
}
use js_code_runner.Common.Dict.{lookup, insert}
use text.Mathlib.Text.{◌==◌}
use js_code_runner.ServerCode.Classes.{ParamDoc, MethodDef, Info, flag, written, ClassDef}
use js_code_runner.ServerCode.Descriptor.{Outcome, done, ◌>>=◌, or_text}
use js_code_runner.ServerCode.Jsdoc.Types.{from_doc}
use js_code_runner.ServerCode.Jsdoc.Params.{DocTag, TagParam, param_of, handle_tags, add_params}

-- A document of the parser. `type` is there if the item has a type, with the first of its names.
pub record Doc : Type 0 where
  pub kind : String
  pub name : String
  pub description : Option String
  pub tags : List DocTag
  pub properties : List (String × Option String)
  pub memberof : Option String
  pub returns : Option String
  pub access : Option String
  pub scope : Option String
  pub type : Option (Option String)
  pub params : List ParamDoc

-- The constructors of ClassDef and of MethodDef.
abbrev pub new_class : String → ClassDef
new_class name = record {
  class_name = name;
  description = none;
  properties = [];
  methods = [];
  service_info = [];
}

abbrev pub new_method : MethodDef
new_method = record {
  params = [];
  tags = [];
  meta_info = record { args = []; sample_result = none; sample_result_loader = none };
  return_type = none;
  access = "public";
  description = none;
}

-- addClass
abbrev pub class_of : String → List (String × ClassDef) → ClassDef
class_of name classes = elim (lookup name classes) [ none ↦ new_class name | some c ↦ c ]

-- `property(name).type = ...`
abbrev pub put_property_type : String → Option String → ClassDef → ClassDef
put_property_type name type c = record c {
  properties =
      insert name
        (elim (lookup name c.properties) [
          | none ↦ record { type = from_doc type; definition = none }
          | some p ↦ record p { type = from_doc type }
        ])
        c.properties;
}

abbrev pub put_properties : List (String × Option String) → ClassDef → ClassDef
put_properties [] c = c
put_properties ((name, type) ∷ rest) c = put_properties rest (put_property_type name type c)

-- ServiceTagProcessors, and the entry of any other tag.
abbrev pub info_of : DocTag → String × Info
info_of t =
    if t.title == "requireoauth"
    then ("requireOAuth", flag (not (t.value == "false")))
    else if t.title == "integrationname"
    then ("integrationName", written (some t.value))
    else if t.title == "integrationicon"
    then ("integrationIcon", written (some t.value))
    else (t.original_title, written (some t.value))

abbrev pub put_info : String × Info → ClassDef → ClassDef
put_info (name, info) c = record c { service_info = insert name info c.service_info }

abbrev pub put_definition : TagParam → ClassDef → ClassDef
put_definition p c = record c {
  properties =
      insert p.name (record { type = from_doc p.type; definition = some (param_of p) })
        c.properties;
}

abbrev pub method_of : String → ClassDef → MethodDef
method_of name c = elim (lookup name c.methods) [ none ↦ new_method | some m ↦ m ]

module _ (parse : String → Outcome TagParam) where
  unfoldable pub class_tags : List DocTag → ClassDef → Outcome ClassDef
  class_tags [] c = done c
  class_tags (t ∷ ts) c =
      if not (t.title == "paramdef")
      then class_tags ts (put_info (info_of t) c)
      else do p ← parse t.value; class_tags ts (put_definition p c)

  -- A class or a type definition.
  unfoldable pub describe_class : Doc → ClassDef → Outcome ClassDef
  describe_class item c = do
    tagged ← class_tags item.tags (record c { description = item.description })
    done (put_properties item.properties tagged)

  -- A method of a class.
  unfoldable pub describe_method : Doc → MethodDef → Outcome MethodDef
  describe_method item m = do
    let opened = record m {
      return_type = from_doc item.returns;
      access = or_text item.access "public";
      description = item.description;
    }
    (tagged, names) ← handle_tags parse item.tags opened []
    done (add_params item.params names tagged)

  abbrev pub is_instance_member : Doc → Bool
  is_instance_member item =
      item.kind == "member" && elim item.scope [ none ↦ false | some scope ↦ scope == "instance" ]

  -- A member of the class that the document names.
  unfoldable pub describe_member :
      Doc → String → List (String × ClassDef) → Outcome (List (String × ClassDef))
  describe_member item owner classes =
      if not (item.kind == "function")
      then elim item.type [
        | none ↦ done classes
        | some type ↦
            if is_instance_member item
            then done
                (insert owner (put_property_type item.name type (class_of owner classes)) classes)
            else done classes
      ]
      else do
        let c = class_of owner classes
        m ← describe_method item (method_of item.name c)
        done (insert owner (record c { methods = insert item.name m c.methods }) classes)

  abbrev pub is_class : Doc → Bool
  is_class item = item.kind == "typedef" || item.kind == "class"

  unfoldable pub describe_item : Doc → List (String × ClassDef) → Outcome (List (String × ClassDef))
  describe_item item classes =
      if not (is_class item)
      then elim item.memberof [
        | none ↦ done classes
        | some owner ↦ describe_member item owner classes
      ]
      else do
        c ← describe_class item (class_of item.name classes)
        done (insert item.name c classes)

  unfoldable pub describe_items :
      List Doc → List (String × ClassDef) → Outcome (List (String × ClassDef))
  describe_items [] classes = done classes
  describe_items (item ∷ items) classes = do
    classes1 ← describe_item item classes
    describe_items items classes1

abbrev pub class_values : List (String × ClassDef) → List ClassDef
class_values [] = []
class_values ((name, c) ∷ rest) = c ∷ class_values rest

-- describeClasses, from the documents on.
unfoldable pub describe_classes : (String → Outcome TagParam) → List Doc → Outcome (List ClassDef)
describe_classes parse docs = do classes ← describe_items parse docs []; done (class_values classes)
