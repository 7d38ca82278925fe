-- ===== src/Tests/Tables.antt =====
-- The theorems on the event table and on the registration functions.
use js_code_runner.Common.{◌≡◌, refl, true, false, some, [], ◌∷◌, ◌++◌}
use js_code_runner.ServerCode.Events.Types.{EventType, event, persistence, id, name, provider, args}
use js_code_runner.ServerCode.Events.{find_last, get}
use js_code_runner.ServerCode.Events.Laws.{get-after, same_action}
use js_code_runner.ServerCode.Api.Types.{registrar}
use js_code_runner.ServerCode.Model.{FilePath, ServerCodeModel}
use js_code_runner.ServerCode.Api.{for_target}
use js_code_runner.ServerCode.Api.Laws.{head, call, event_of, Registers, call-apis}

abbrev after_create : EventType
after_create = event 101 "afterCreate" persistence ("item" ∷ "result" ∷ [])

get_101 : get 101 ≡ some after_create
unfolding get find_last
get_101 = refl

get-after_example :
    (b : EventType) × (get 100 ≡ some b)
    × (provider b ≡ persistence)
    × ("item" ∷ "result" ∷ [] ≡ args b ++ "result" ∷ [])
    × (same_action (name b) "afterCreate" ≡ true)
get-after_example = get-after 101 after_create get_101 refl

abbrev person_file : FilePath
person_file = record { absolute_path = "/app/person.js"; relative_path = "person.js" }

abbrev model : ServerCodeModel
model = record {
  types = [];
  handlers = [];
  timers = [];
  services = [];
  definitions = record { explicit = false; files = []; types = [] };
  errors = [];
}

call-apis_example :
    (e : EventType) × (event_of (registrar "beforeCreate" persistence "beforeCreate") ≡ some e)
    × Registers (id e) (for_target "Person" 7 false) person_file model (
        call
          (registrar "beforeCreate" persistence "beforeCreate")
          (for_target "Person" 7 false)
          (some person_file)
          (some model))
call-apis_example =
    call-apis (registrar "beforeCreate" persistence "beforeCreate") (for_target "Person" 7 false)
      person_file model (head _)
