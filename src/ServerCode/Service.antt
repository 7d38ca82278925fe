-- ===== src/ServerCode/Service.antt =====
-- lib/server-code/model/service.js: the configuration items of a service, the wrapper of its class and
-- the configuration that a call is given.
pub mod Laws
use js_code_runner.Common.{
  String, Bool, true, false, not, Option, none, some, List, [], ◌∷◌, if◌then◌else◌, ◌&&◌, ◌||◌,
}
use js_code_runner.Common.Dict.{lookup, insert}
use Prim.Native.String
use text.Mathlib.Text.{◌==◌}
use js_code_runner.ServerCode.Classes.{Info}
use js_code_runner.ServerCode.Descriptor.{
  Outcome, done, thrown, exhausted, ◌>>=◌, or_text, to_upper_case,
}

-- A value of a configuration. `missing` is null or undefined, and a date is kept as the text of its
-- number.
pub data ConfigValue : Type 0 where
  missing : ConfigValue
  string_of : String → ConfigValue
  boolean : Bool → ConfigValue
  date_of : String → ConfigValue
  other : String → ConfigValue

-- An item as an application writes it. An empty text is `none`.
pub record ItemOptions : Type 0 where
  pub name : Option String
  pub type : Option String
  pub choices : List String
  pub default_value : ConfigValue

pub record ConfigItem : Type 0 where
  pub item_name : String
  pub item_type : String
  pub item_choices : List String
  pub item_default : ConfigValue

-- The keys of ConfigItems.TYPES.
abbrev pub is_type : String → Bool
is_type t =
    if t == "STRING"
    then true
    else if t == "BOOL"
    then true
    else if t == "DATE"
    then true
    else if t == "CHOICE"
    then true
    else t == "TEXT"

abbrev pub with_choices : ItemOptions → Bool
with_choices o = elim o.choices [ [] ↦ false | ◌∷◌ c cs ↦ true ]

-- `withChoices && ConfigItems.TYPES.CHOICE || this.type`; the first check leaves no other case.
abbrev pub type_of : ItemOptions → String
type_of o = to_upper_case (if with_choices o then "choice" else or_text o.type "")

abbrev pub message : String → String → String
message name what = String.◌++◌ "config item [" (String.◌++◌ name (String.◌++◌ "] has " what))

abbrev named_item : String → ItemOptions → Outcome ConfigItem
named_item name o =
    if not (with_choices o) && elim o.type [ none ↦ true | some t ↦ false ]
    then thrown (message name "no 'type' specified")
    else if not (is_type (type_of o))
    then thrown (message name (String.◌++◌ "invalid type [" (String.◌++◌ (type_of o) "]")))
    else if type_of o == "choice" && not (with_choices o)
    then thrown (message name "'choice' type but choice 'options' were not specified")
    else done (record {
      item_name = name;
      item_type = type_of o;
      item_choices = o.choices;
      item_default = o.default_value;
    })

-- The constructor of ConfigItem. The text of the options in the second message is left out.
unfoldable pub config_item : Option ItemOptions → Outcome ConfigItem
config_item none = thrown "config item should not be empty"
config_item (some o) = elim o.name [
  | none ↦ thrown "config item name is not specified"
  | some name ↦ named_item name o
]

unfoldable pub config_items : List (Option ItemOptions) → Outcome (List ConfigItem)
config_items [] = done []
config_items (o ∷ os) = do item ← config_item o; items ← config_items os; done (item ∷ items)

-- The class of a service.
pub record ServiceClass : Type 0 where
  pub class_name : String
  pub is_function : Bool
  pub version : Option String
  pub description : Option String
  pub service_info : List (String × Info)
  pub config_items : List (Option ItemOptions)

pub record ServiceWrapper : Type 0 where
  pub clazz : ServiceClass
  pub provider : String
  pub name : String
  pub version : String
  pub description : String
  pub service_info : List (String × Info)
  pub config : List ConfigItem

-- The constructor of ServiceWrapper.
unfoldable pub service_wrapper : ServiceClass → String → Outcome ServiceWrapper
service_wrapper c provider =
    if not c.is_function || c.class_name == ""
    then thrown "A service must be a named function-constructor or es6 class"
    else do
      config ← config_items c.config_items
      done (record {
        clazz = c;
        provider = provider;
        name = c.class_name;
        version = or_text c.version "1.0.0";
        description = or_text c.description c.class_name;
        service_info = c.service_info;
        config = config;
      })

-- ConfigValueAdapters, for a type of ConfigItem.
abbrev pub adapt : String → ConfigValue → ConfigValue
adapt type (string_of t) =
    if type == "BOOL"
    then boolean (t == "true")
    else if type == "DATE"
    then date_of t
    else string_of t
adapt type value = value

abbrev pub or_default : ConfigValue → ConfigValue → ConfigValue
or_default missing d = d
or_default value d = value

abbrev pub value_in : String → List (String × ConfigValue) → ConfigValue
value_in name values = elim (lookup name values) [ none ↦ missing | some v ↦ v ]

unfoldable pub actual_values :
    List (String × ConfigValue) → List (String × ConfigValue) → List (String × ConfigValue)
actual_values [] mapped = mapped
actual_values ((name, value) ∷ rest) mapped = actual_values rest (insert name value mapped)

abbrev pub configured : List (String × ConfigValue) → ConfigItem → ConfigValue
configured actual i = adapt i.item_type (or_default (value_in i.item_name actual) i.item_default)

unfoldable pub config_from :
    List ConfigItem
    → List (String × ConfigValue)
    → List (String × ConfigValue)
    → List (String × ConfigValue)
config_from [] actual result = result
config_from (i ∷ items) actual result =
    config_from items actual (insert i.item_name (configured actual i) result)

unfoldable pub build_config :
    List ConfigItem → List (String × ConfigValue) → List (String × ConfigValue)
build_config declared actual = config_from declared (actual_values actual []) []
