-- ===== src/ServerCode/Descriptor/Methods.antt =====
-- lib/server-code/model/service-descriptor.js, enrichMethodNode. What JSON.parse, Number and
-- JSON.stringify make of texts is an argument, with `none` for an exception and for NaN.
use js_code_runner.Common.{String, Bool, true, false, Option, none, some, List, if◌then◌else◌}
use js_code_runner.Common.Dict.{lookup}
use Prim.Native.String
use Prim.Native.Char.{code}
use text.Mathlib.Text.{◌==◌}
use js_code_runner.ServerCode.Classes.{MetaInfo, MethodDef}
use js_code_runner.ServerCode.Descriptor.{Outcome, done, thrown, ◌>>=◌, or_text, to_upper_case}
use js_code_runner.Common.Tests.{◌==◌ as nat_eq}

pub record Typed : Type 0 where
  pub name : String
  pub type : String
  pub native_type : String
  pub full_type : String
  pub java_type : String
  pub element_type : Option String

pub record MethodNode : Type 0 where
  pub typed : Typed
  pub description : String
  pub operation_name : String
  pub register_as : String
  pub category : String
  pub execution_timeout_in_seconds : Option String
  pub system_non_billable_request : Bool
  pub appearance_icon : Option String
  pub appearance_color : Option String
  pub meta_info : String
  pub http_method : Option String
  pub path : Option String

abbrev pub is_valid_http_method : String → Bool
is_valid_http_method value =
    if value == "GET"
    then true
    else if value == "PUT"
    then true
    else if value == "POST"
    then true
    else value == "DELETE"

-- A tag of a method, if it has a text.
unfoldable pub tag : String → List (String × String) → Option String
tag name tags = elim (lookup name tags) [
  | none ↦ none
  | some value ↦ if value == "" then none else some value
]

abbrev is_some : Option String → Bool
is_some none = false
is_some (some t) = true

-- The text before the first space, and the one behind it.
unfoldable pub split_at_space : String → Option (String × String)
split_at_space String.[] = none
split_at_space (String.◌∷◌ c s) =
    let later = split_at_space s in
    if nat_eq (code c) 32
    then some (String.[], s)
    else elim later [ none ↦ none | some (before, behind) ↦ some (String.◌∷◌ c before, behind) ]

-- The message says `method.name`, but a MethodDef has no name.
abbrev pub unsupported : String → String
unsupported http_method =
    String.◌++◌ "Unsupported HTTP method [" (String.◌++◌ http_method "] for undefined method")

-- The branch of a method with a route: its HTTP method and its path.
unfoldable pub read_route : String → Outcome (String × String)
read_route route = elim (split_at_space route) [
  | none ↦ done ("GET", route)
  | some (before, behind) ↦
      if is_valid_http_method (to_upper_case before)
      then done (to_upper_case before, behind)
      else thrown (unsupported (to_upper_case before))
]

-- What is used of the language for texts of JSON and of numbers.
pub record Texts : Type 0 where
  pub parse_json : String → Option String
  pub number : String → Option String
  pub stringify : MetaInfo → String

module _ (texts : Texts) where
  abbrev pub parsed_tag : Option String → Outcome String
  parsed_tag none = done "null"
  parsed_tag (some text) = elim (texts.parse_json text) [
    | none ↦ thrown "SyntaxError"
    | some value ↦ done value
  ]

  -- The samples are written for methods that are not of the system.
  unfoldable pub sampled : Bool → List (String × String) → MetaInfo → Outcome MetaInfo
  sampled true tags info = done info
  sampled false tags info = do
    result ← parsed_tag (tag "sampleresult" tags)
    loader ← parsed_tag (tag "sampleresultloader" tags)
    done (record info { sample_result = some result; sample_result_loader = some loader })

  abbrev pub routed : Option String → Outcome (Option (String × String))
  routed none = done none
  routed (some route) = do r ← read_route route; done (some r)

  abbrev unless : Bool → Option String → Option String
  unless true t = none
  unless false t = some (or_text t "")

  unfoldable pub enrich_method_node : Typed → MethodDef → Outcome MethodNode
  enrich_method_node node m = do
    let of_system = or_text (tag "registeras" m.tags) "" == "SYSTEM"
    info ← sampled of_system m.tags m.meta_info
    r ← routed (tag "route" m.tags)
    done (record {
      typed = node;
      description = or_text m.description "";
      operation_name = or_text (tag "operationname" m.tags) node.name;
      register_as = or_text (tag "registeras" m.tags) "";
      category = or_text (tag "category" m.tags) "";
      execution_timeout_in_seconds = elim (tag "executiontimeoutinseconds" m.tags) [
        | none ↦ none
        | some text ↦ texts.number text
      ];
      system_non_billable_request = is_some (tag "systemnonbillablerequest" m.tags);
      appearance_icon = unless of_system (tag "appearanceicon" m.tags);
      appearance_color = unless of_system (tag "appearancecolor" m.tags);
      meta_info = texts.stringify info;
      http_method = elim r [ none ↦ none | some (http_method, path) ↦ some http_method ];
      path = elim r [ none ↦ none | some (http_method, path) ↦ some path ];
    })
