-- ===== src/Tests/Models.antt =====
-- The theorems on the model of an application.
use text.Mathlib.Text.{◌==◌}
use js_code_runner.Common.{
  List, ℕ, String, ◌≡◌, ◌↔◌, ◌⊎◌, refl, true, false, none, some, [], ◌∷◌, if◌then◌else◌,
}
use js_code_runner.Common.Dict.{lookup, insert}
use js_code_runner.ServerCode.Events.Types.{EventType, event, persistence, timer}
use js_code_runner.ServerCode.Events.{find_last, get}
use js_code_runner.ServerCode.Descriptor.{done, to_upper_case}
use js_code_runner.ServerCode.Service.{
  ConfigValue, missing, string_of, ItemOptions, ConfigItem, ServiceClass, ServiceWrapper,
  config_item, config_items, service_wrapper, with_choices, is_type, build_config,
}
use js_code_runner.ServerCode.Service.Laws.{
  config_item_iff, last_item, last_value, value_for, lookup-build_config,
}
use js_code_runner.ServerCode.Model.Services.{
  described, add_service, get_service, Served, add_service-get_service,
}
use js_code_runner.ServerCode.Classes.{ClassDef, IsNamed}
use js_code_runner.ServerCode.Model.{
  reject, strategy_or, add_classes, read_file, ok, err, Handler, FilePath, Definitions,
  ServerCodeModel, handler_exists, handler_found, add_handler, get_handler, add_file, Timer,
  add_timer, timer_found, timer_exists,
}
use js_code_runner.ServerCode.Model.Keys.{compute_handler_key}
use js_code_runner.ServerCode.Model.Laws.{add_handler-get_handler, add_timer-get_handler}
use js_code_runner.ServerCode.Model.Merge.{add_file-IsNamed}

abbrev no_definitions : Definitions
no_definitions = record { explicit = false; files = []; types = [] }

abbrev empty_model : ServerCodeModel
empty_model = record {
  types = [];
  handlers = [];
  timers = [];
  services = [];
  definitions = no_definitions;
  errors = [];
}

abbrev handler : Handler
handler = record {
  event_id = 100;
  target = "Person";
  async = false;
  invoke = 7;
  provider_file = "handlers/person.js";
}

abbrev with_handler : ServerCodeModel
with_handler = record empty_model { handlers = (compute_handler_key 100 "Person", handler) ∷ [] }

abbrev before_create : EventType
before_create = event 100 "beforeCreate" persistence ("item" ∷ [])

get_100 : get 100 ≡ some before_create
unfolding get find_last
get_100 = refl

added : add_handler handler empty_model ≡ ok with_handler
unfolding add_handler lookup insert
added = refl

add_handler-get_handler_example :
    (get_handler 100 "Person" with_handler ≡ ok (handler_found (some handler)))
    × (lookup "101-Person" with_handler.handlers ≡ (
        if compute_handler_key 100 "Person" == "101-Person"
        then some handler
        else lookup "101-Person" empty_model.handlers))
    × (add_handler (record handler { invoke = 8 }) with_handler
        ≡ err (handler_exists (record handler { invoke = 8 })))
add_handler-get_handler_example =
    add_handler-get_handler handler (record handler { invoke = 8 }) empty_model with_handler
      before_create "101-Person" get_100 refl added refl refl

abbrev person_file : FilePath
person_file = record { absolute_path = "/app/person.js"; relative_path = "person.js" }

abbrev timer_event : EventType
timer_event = event 800 "execute" timer []

get_800 : get 800 ≡ some timer_event
unfolding get find_last
get_800 = refl

abbrev nightly : Timer
nightly = record { timer_name = "nightly"; invoke = 3; provider_file = "timers/nightly.js" }

abbrev with_timer : ServerCodeModel
with_timer = record empty_model { timers = ("nightly", nightly) ∷ [] }

timer_added : add_timer nightly empty_model ≡ ok with_timer
unfolding add_timer lookup insert
timer_added = refl

add_timer-get_handler_example :
    (get_handler 800 "nightly" with_timer ≡ (
      if "nightly" == "nightly"
      then ok (timer_found (some nightly))
      else get_handler 800 "nightly" empty_model))
    × (get_handler 100 "nightly" with_timer ≡ get_handler 100 "nightly" empty_model)
    × (add_timer (record nightly { invoke = 4 }) with_timer ≡ err (timer_exists "nightly"))
add_timer-get_handler_example =
    add_timer-get_handler nightly (record nightly { invoke = 4 }) empty_model with_timer 800 100
      timer_event before_create "nightly" get_800 refl get_100 refl timer_added refl

abbrev known_members : List (String × ℕ)
known_members = ("age", 1) ∷ []

abbrev new_members : List (String × ℕ)
new_members = ("age", 2) ∷ []

abbrev person_class : ClassDef
person_class = record {
  class_name = "Person";
  description = none;
  properties = ("age", record { type = none; definition = none }) ∷ [];
  methods = [];
  service_info = [];
}

no_definitions-IsNamed : IsNamed no_definitions.types
unfolding lookup
no_definitions-IsNamed n c found = cc

add_file-IsNamed_example :
    IsNamed (add_file (λ path. person_class ∷ []) person_file none no_definitions).types
add_file-IsNamed_example =
    add_file-IsNamed (λ path. person_class ∷ []) person_file none no_definitions
      no_definitions-IsNamed

abbrev choice_item : ItemOptions
choice_item = record {
  name = some "color";
  type = some "choice";
  choices = [];
  default_value = string_of "red";
}

-- An item that is a choice of nothing is taken.
config_item_iff_example : ((i : ConfigItem) × (config_item (some choice_item) ≡ done i)) ↔ (
    (with_choices choice_item ≡ true)
    ⊎ ((t : String) × (choice_item.type ≡ some t) × (is_type (to_upper_case t) ≡ true)))
config_item_iff_example = config_item_iff choice_item "color" refl

abbrev color : ConfigItem
color = record {
  item_name = "color";
  item_type = "CHOICE";
  item_choices = [];
  item_default = string_of "red";
}

abbrev given : List (String × ConfigValue)
given = ("color", missing) ∷ []

lookup-build_config_example :
    lookup "color" (build_config (color ∷ []) given) ≡ elim (last_item "color" (color ∷ [])) [
      | none ↦ none
      | some i ↦ some (value_for i (last_value i.item_name given))
    ]
lookup-build_config_example = lookup-build_config "color" (color ∷ []) given

abbrev shop : ServiceClass
shop = record {
  class_name = "Person";
  is_function = true;
  version = none;
  description = none;
  service_info = [];
  config_items = some choice_item ∷ [];
}

abbrev shop_wrapper : ServiceWrapper
shop_wrapper = record {
  clazz = shop;
  provider = person_file.relative_path;
  name = "Person";
  version = "1.0.0";
  description = "Person";
  service_info = [];
  config = color ∷ [];
}

shop-made :
    service_wrapper
      (described shop (read_file (λ path. []) person_file none empty_model))
      person_file.relative_path
    ≡ done shop_wrapper
unfolding service_wrapper config_items config_item to_upper_case add_file add_classes lookup
shop-made = refl

add_service-get_service_example :
    let (m', error) = add_service (λ path. []) shop person_file none empty_model in
    Served
      (strategy_or none reject)
      (get_service "Person" empty_model)
      shop_wrapper
      (get_service "Person" m')
      error
add_service-get_service_example =
    add_service-get_service (λ path. []) shop person_file none empty_model shop_wrapper shop-made
