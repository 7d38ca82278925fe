-- ===== src/ServerCode/Classes.antt =====
-- lib/util/jsdoc.js: what the documentation comments say of the classes of an application. A field
-- that is missing, or an empty text where the source does not tell it from a missing one, is `none`.
use js_code_runner.Common.{◌≡◌, String, Bool, Option, some, List}
use js_code_runner.Common.Dict.{lookup}

-- The class TypeDef: a name, and the type of the elements.
pub data TypeRef : Type 0 where
  named : String → TypeRef
  of_elements : String → TypeRef → TypeRef

-- What addParam is given. Values of JSON are kept as their texts.
pub record ParamDoc : Type 0 where
  pub name : String
  pub label : Option String
  pub type : Option TypeRef
  pub optional : Bool
  pub description : Option String
  pub dictionary : Option String
  pub depends_on : Option String
  pub ui_component : Option String
  pub default_value : Option String
  pub schema_loader : Option String
  pub hidden : Bool

pub record ParamDef : Type 0 where
  pub name : String
  pub label : String
  pub type : Option TypeRef
  pub optional : Bool
  pub default_value : Option String
  pub description : Option String

-- `metaInfo`: a dictionary for each argument, and what the descriptor adds.
pub record MetaInfo : Type 0 where
  pub args : List (String × List (String × Option String))
  pub sample_result : Option String
  pub sample_result_loader : Option String

pub record MethodDef : Type 0 where
  pub params : List ParamDef
  pub tags : List (String × String)
  pub meta_info : MetaInfo
  pub return_type : Option TypeRef
  pub access : String
  pub description : Option String

-- A property, with the other fields of its definition where it has one.
pub record PropertyDef : Type 0 where
  pub type : Option TypeRef
  pub definition : Option ParamDoc

-- An entry of `serviceInfo`.
pub data Info : Type 0 where
  flag : Bool → Info
  written : Option String → Info

pub record ClassDef : Type 0 where
  pub class_name : String
  pub description : Option String
  pub properties : List (String × PropertyDef)
  pub methods : List (String × MethodDef)
  pub service_info : List (String × Info)

-- Every class is kept under its own name.
abbrev pub IsNamed : List (String × ClassDef) → Type 0
IsNamed classes =
    (name : String) (c : ClassDef) → lookup name classes ≡ some c → c.class_name ≡ name
