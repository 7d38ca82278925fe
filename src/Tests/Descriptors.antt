-- ===== src/Tests/Descriptors.antt =====
-- The description of a service whose data types refer to each other.
use js_code_runner.Common.{
  ◌≤◌, ◌≡◌, ◌≢◌, refl, String, true, false, none, some, List, [], ◌∷◌, ◌++◌, get_elem?, arith,
}
use js_code_runner.Common.Dict.{lookup}
use text.Mathlib.TextEquality.{eq_iff}
use js_code_runner.ServerCode.Descriptor.{Outcome, done, thrown, exhausted, to_upper_case}
use js_code_runner.ServerCode.Classes.{
  TypeRef, named, of_elements, MethodDef, PropertyDef, ClassDef, IsNamed,
}
use js_code_runner.ServerCode.Jsdoc.Docs.{Doc, new_class, new_method, describe_method}
use js_code_runner.ServerCode.Jsdoc.Params.{
  TagParam, param_of, add_param, handle_tag, handle_tags, add_params,
}
use js_code_runner.ServerCode.Jsdoc.Types.{read_type}
use js_code_runner.ServerCode.Jsdoc.RoundTrip.{write_type, HasNames, read_type-write_type}
use js_code_runner.ServerCode.Jsdoc.Laws.{
  tag_params, defined_by, undefined_by, names_of, describe_method-params,
}
use js_code_runner.ServerCode.Descriptor.Mapping.{get_type_mapping, resolve, type_mapping}
use js_code_runner.ServerCode.Descriptor.Methods.{
  Typed, MethodNode, Texts, tag, split_at_space, enrich_method_node, read_route, sampled,
  is_valid_http_method,
}
use js_code_runner.ServerCode.Descriptor.Build.{
  Node, service, has, unregistered, build_services_xml, register_type, typed_node, field_nodes,
  push_data_type, argument_nodes, operation_node, operation_nodes, service_node, service_nodes,
}
use js_code_runner.ServerCode.Descriptor.Grows.{count_data_types, node_type_names}
use js_code_runner.ServerCode.Descriptor.Services.{
  build_services_xml-ends, build_services_xml-closed,
}
use js_code_runner.ServerCode.Descriptor.Routes.{enrich_method_node-route}

abbrev texts : Texts
texts = record { parse_json = λ t. some t; number = λ t. some t; stringify = λ l. "{}" }

abbrev get_order : MethodDef
get_order = record {
  params = [];
  tags = ("route", "put /orders") ∷ [];
  meta_info = record { args = []; sample_result = none; sample_result_loader = none };
  return_type = some (of_elements "Promise" (named "Order"));
  access = "public";
  description = none;
}

abbrev shop : ClassDef
shop = record (new_class "Shop") { methods = ("getOrder", get_order) ∷ [] }

abbrev property : TypeRef → PropertyDef
property t = record { type = some t; definition = none }

abbrev order : ClassDef
order = record (new_class "Order") {
  properties = ("items", property (of_elements "Array" (named "Item"))) ∷ [];
}

abbrev item : ClassDef
item = record (new_class "Item") { properties = ("order", property (named "Order")) ∷ [] }

abbrev definitions : List (String × ClassDef)
definitions = ("Shop", shop) ∷ ("Order", order) ∷ ("Item", item) ∷ []

abbrev nodes : List Node
nodes = elim (build_services_xml texts ("Shop" ∷ []) definitions) [
  | done l ↦ l
  | thrown e ↦ []
  | exhausted ↦ []
]

built : build_services_xml texts ("Shop" ∷ []) definitions ≡ done nodes
unfolding build_services_xml service_nodes service_node operation_nodes operation_node
    argument_nodes typed_node field_nodes push_data_type register_type unregistered get_type_mapping
    type_mapping resolve enrich_method_node tag sampled read_route split_at_space to_upper_case
    lookup
built = refl

definitions-IsNamed : IsNamed definitions
unfolding lookup
definitions-IsNamed t d found =
    ground (arith, found, eq_iff "Shop" t, eq_iff "Order" t, eq_iff "Item" t)

build_services_xml-ends_example : build_services_xml texts ("Shop" ∷ []) definitions ≢ exhausted
build_services_xml-ends_example = build_services_xml-ends texts ("Shop" ∷ []) definitions

-- The node of `Item`, which is closed before that of `Order`.
abbrev item_node : Node
item_node = elim (get_elem? nodes 1) [ none ↦ service "" "" "" [] | some n ↦ n ]

item_node-at : get_elem? nodes 1 ≡ some item_node
unfolding build_services_xml service_nodes service_node operation_nodes operation_node
    argument_nodes typed_node field_nodes push_data_type register_type unregistered get_type_mapping
    type_mapping resolve enrich_method_node tag sampled read_route split_at_space to_upper_case
    lookup
item_node-at = refl

item_node-names : has "Order" (node_type_names item_node) ≡ true
unfolding build_services_xml service_nodes service_node operation_nodes operation_node
    argument_nodes typed_node field_nodes push_data_type register_type unregistered get_type_mapping
    type_mapping resolve enrich_method_node tag sampled read_route split_at_space to_upper_case
    lookup
item_node-names = refl

order_defined : lookup "Order" definitions ≡ some order
unfolding lookup
order_defined = refl

build_services_xml-closed_example :
    (count_data_types "Order" nodes ≡ 1) × (count_data_types "Item" nodes ≤ 1)
build_services_xml-closed_example =
    build_services_xml-closed texts ("Shop" ∷ []) definitions nodes item_node 1 "Order" "Item" order
      definitions-IsNamed built item_node-at item_node-names order_defined
      (ground (arith, eq_iff "Order" ""))

abbrev order_typed : Typed
order_typed = record {
  name = "getOrder";
  type = "Order";
  native_type = "services.Order";
  full_type = "services.Order";
  java_type = "services.Order";
  element_type = none;
}

abbrev described_method : Outcome MethodNode
described_method = enrich_method_node texts order_typed get_order

abbrev method_node : MethodNode
method_node = record {
  typed = order_typed;
  description = "";
  operation_name = "getOrder";
  register_as = "";
  category = "";
  execution_timeout_in_seconds = none;
  system_non_billable_request = false;
  appearance_icon = some "";
  appearance_color = some "";
  meta_info = "{}";
  http_method = some "PUT";
  path = some "/orders";
}

one_word : split_at_space "put" ≡ none
unfolding split_at_space
one_word = refl

routed : tag "route" get_order.tags ≡ some "put /orders"
unfolding tag lookup
routed = refl

described_method-done : described_method ≡ done method_node
unfolding enrich_method_node tag lookup sampled read_route split_at_space to_upper_case
described_method-done = refl

enrich_method_node-route_example :
    (method_node.http_method ≡ some (to_upper_case "put"))
    × (method_node.path ≡ some "/orders")
    × (is_valid_http_method (to_upper_case "put") ≡ true)
enrich_method_node-route_example =
    enrich_method_node-route texts order_typed get_order "put" "/orders" method_node one_word routed
      described_method-done

-- A parameter that a tag and the comment define.
abbrev parsed_param : TagParam
parsed_param = record {
  name = "a";
  label = none;
  type = some "Array.<Item>";
  required = true;
  description = none;
  dictionary = none;
  depends_on = none;
  ui_component = none;
  default_value = none;
  schema_loader = none;
  hidden = false;
}

abbrev parse_tag : String → Outcome TagParam
parse_tag t = done parsed_param

abbrev method_doc : Doc
method_doc = record {
  kind = "function";
  name = "find";
  description = none;
  tags = record { title = "paramdef"; original_title = "paramDef"; value = "{}" } ∷ [];
  properties = [];
  memberof = some "Shop";
  returns = none;
  access = none;
  scope = none;
  type = none;
  params =
      param_of (record parsed_param { type = none })
      ∷ param_of (record parsed_param { name = "b" })
      ∷ [];
}

abbrev find : MethodDef
find = elim (describe_method parse_tag method_doc new_method) [
  | done m ↦ m
  | thrown e ↦ new_method
  | exhausted ↦ new_method
]

find-described_method : describe_method parse_tag method_doc new_method ≡ done find
unfolding describe_method handle_tags handle_tag add_params add_param
find-described_method = refl

find-tags : tag_params parse_tag method_doc.tags ≡ done (parsed_param ∷ [])
unfolding tag_params
find-tags = refl

describe_method-params_example :
    find.params
    ≡ defined_by (parsed_param ∷ [])
      ++ undefined_by (names_of (parsed_param ∷ []) []) method_doc.params
describe_method-params_example =
    describe_method-params parse_tag method_doc find (parsed_param ∷ []) find-described_method
      find-tags

abbrev nested : TypeRef
nested = of_elements "Array" (of_elements "Promise" (named "Item"))

nested-HasNames : HasNames nested
unfolding HasNames
nested-HasNames = ((refl, refl), ((refl, refl), (refl, refl)))

read_type-write_type_example : read_type (write_type nested) ≡ nested
read_type-write_type_example = read_type-write_type nested nested-HasNames
