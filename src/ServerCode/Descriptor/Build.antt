-- ===== src/ServerCode/Descriptor/Build.antt =====
-- lib/server-code/model/service-descriptor.js, buildServicesXml. The set of registered types and the
-- nodes of the namespace are the state. The recursion of registerType runs on fuel: each call that goes
-- on takes a definition which was not registered, so there are no more than definitions.
use js_code_runner.Common.{
  ℕ, zero, suc, String, Bool, true, false, not, Option, none, some, List, [], ◌∷◌, ◌++◌,
  if◌then◌else◌, length,
}
use js_code_runner.Common.Dict.{lookup}
use text.Mathlib.Text.{◌==◌}
use js_code_runner.ServerCode.Classes.{TypeRef, PropertyDef, ParamDef, MethodDef, ClassDef}
use js_code_runner.ServerCode.Descriptor.{Outcome, done, exhausted, ◌>>=◌, or_text}
use js_code_runner.ServerCode.Descriptor.Mapping.{packaged, get_type_mapping}
use js_code_runner.ServerCode.Descriptor.Methods.{Typed, MethodNode, Texts, enrich_method_node}

pub record Argument : Type 0 where
  pub typed : Typed
  pub required : Bool
  pub description : Option String

pub record Operation : Type 0 where
  pub operation : MethodNode
  pub arguments : List Argument

-- The children of the namespace, each with its name, its description and what is below it.
pub data Node : Type 0 where
  data_type : String → String → String → List Typed → Node
  service : String → String → String → List Operation → Node

pub record Build : Type 0 where
  pub types : List String
  pub nodes : List Node

abbrev pub has : String → List String → Bool
has t [] = false
has t (x ∷ xs) = if x == t then true else has t xs

-- `type && definitions[type] && !types.has(type)`
unfoldable pub unregistered : List (String × ClassDef) → List String → String → Option ClassDef
unregistered definitions types t =
    if t == "" then none else if has t types then none else lookup t definitions

module _ (definitions : List (String × ClassDef)) where
  -- registerType of a field that may be missing.
  abbrev pub register_some :
      (String → Build → Outcome Build) → Option String → Build → Outcome Build
  register_some register none s = done s
  register_some register (some t) s = register t s

  -- typedNode, over registerType.
  unfoldable pub typed_node :
      (String → Build → Outcome Build) → String → Option TypeRef → Build → Outcome (Typed × Build)
  typed_node register name type s = do
    let mapping = get_type_mapping type definitions
    s1 ← register mapping.type s
    s2 ← register_some register mapping.element_type s1
    done (
      record {
        name = name;
        type = mapping.type;
        native_type = mapping.native_type;
        full_type = mapping.full_type;
        java_type = mapping.java_type;
        element_type = mapping.element_type;
      },
      s2,
    )

  -- The loop over the properties of a data type.
  unfoldable pub field_nodes :
      (String → Build → Outcome Build)
      → List (String × PropertyDef)
      → Build
      → Outcome (List Typed × Build)
  field_nodes register [] s = done ([], s)
  field_nodes register ((name, p) ∷ ps) s = do
    (field, s1) ← typed_node register name p.type s
    (fields, s2) ← field_nodes register ps s1
    done (field ∷ fields, s2)

  -- `nsNode.push(dataTypeNode(definition))`: the node is made first.
  unfoldable pub push_data_type :
      (String → Build → Outcome Build) → ClassDef → Build → Outcome Build
  push_data_type register d s = do
    (fields, s1) ← field_nodes register d.properties s
    done (record s1 {
      nodes =
          s1.nodes
          ++ data_type d.class_name (or_text d.description d.class_name) (packaged d.class_name)
              fields
            ∷ [];
    })

  abbrev pub add : String → Build → Build
  add t s = record s { types = s.types ++ t ∷ [] }

  unfoldable pub register_type : ℕ → String → Build → Outcome Build
  register_type zero t s = elim (unregistered definitions s.types t) [
    | none ↦ done s
    | some d ↦ exhausted
  ]
  register_type (suc fuel) t s = elim (unregistered definitions s.types t) [
    | none ↦ done s
    | some d ↦ push_data_type (register_type fuel) d (add t s)
  ]

  unfoldable pub argument_nodes :
      (String → Build → Outcome Build) → List ParamDef → Build → Outcome (List Argument × Build)
  argument_nodes register [] s = done ([], s)
  argument_nodes register (p ∷ ps) s = do
    (node, s1) ← typed_node register p.name p.type s
    (arguments, s2) ← argument_nodes register ps s1
    done (
      record { typed = node; required = not p.optional; description = p.description } ∷ arguments,
      s2,
    )

  unfoldable pub operation_node :
      Texts
      → (String → Build → Outcome Build)
      → String
      → MethodDef
      → Build
      → Outcome (Operation × Build)
  operation_node texts register name m s = do
    (node, s1) ← typed_node register name m.return_type s
    enriched ← enrich_method_node texts node m
    (arguments, s2) ← argument_nodes register m.params s1
    done (record { operation = enriched; arguments = arguments }, s2)

  -- The loop over the methods of a service; private ones are left out.
  unfoldable pub operation_nodes :
      Texts
      → (String → Build → Outcome Build)
      → List (String × MethodDef)
      → Build
      → Outcome (List Operation × Build)
  operation_nodes texts register [] s = done ([], s)
  operation_nodes texts register ((name, m) ∷ ms) s =
      if m.access == "private" then operation_nodes texts register ms s else do
        (operation, s1) ← operation_node texts register name m s
        (operations, s2) ← operation_nodes texts register ms s1
        done (operation ∷ operations, s2)

  abbrev description_of : String → Option ClassDef → String
  description_of name none = name
  description_of name (some d) = or_text d.description name

  abbrev methods_of : Option ClassDef → List (String × MethodDef)
  methods_of none = []
  methods_of (some d) = d.methods

  -- A service: its node is pushed before the data types of its methods, and filled meanwhile.
  unfoldable pub service_node :
      Texts → (String → Build → Outcome Build) → String → Build → Outcome Build
  service_node texts register name s = do
    let definition = lookup name definitions
    (operations, s1) ←
        operation_nodes texts register (methods_of definition) (record s { nodes = [] })
    done (record s1 {
      nodes =
          s.nodes
          ++ service name (description_of name definition) (packaged name) operations ∷ s1.nodes;
    })

  unfoldable pub service_nodes :
      Texts → (String → Build → Outcome Build) → List String → Build → Outcome Build
  service_nodes texts register [] s = done s
  service_nodes texts register (name ∷ names) s = do
    s1 ← service_node texts register name s
    service_nodes texts register names s1

-- buildServicesXml up to the nodes of the namespace.
unfoldable pub build_services_xml :
    Texts → List String → List (String × ClassDef) → Outcome (List Node)
build_services_xml texts services definitions = do
  s ←
      service_nodes definitions texts (register_type definitions (length definitions)) services
        (record { types = []; nodes = [] })
  done s.nodes
