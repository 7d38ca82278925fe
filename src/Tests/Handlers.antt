-- ===== src/Tests/Handlers.antt =====
-- The theorem on the arguments of a handler, for the event `afterCreate`.
use js_code_runner.Common.{ℕ, ◌≡◌, ◌+◌, refl, true, Option, none, some, List, [], ◌∷◌}
use js_code_runner.Common.Dict.{lookup, insert}
use js_code_runner.ServerCode.Events.Types.{EventType, event, persistence}
use js_code_runner.ServerCode.Events.{find_last, get}
use js_code_runner.Executor.Handler.{
  Values, element, put_at, prepare, prepare_from, argument_transformer, build_from, build_response,
}
use js_code_runner.Executor.Handler.Keeps.{build_response-prepare}

abbrev after_create : EventType
after_create = event 101 "afterCreate" persistence ("item" ∷ "result" ∷ [])

get_101 : get 101 ≡ some after_create
unfolding get find_last
get_101 = refl

abbrev values : Values ℕ
values = record {
  exception_field = λ v. none;
  result_field = λ v. some v;
  wrap = λ error result. 99;
  is_truthy = λ v. true;
  init_from_json = λ v. v + 1000;
  set_result = λ unit result. unit + result;
}

abbrev sent_back : List (Option ℕ)
sent_back =
    build_response values ("item" ∷ "result" ∷ [])
      (prepare values after_create (some 1 ∷ some 2 ∷ some 3 ∷ [])) (some 7)
      (some 1 ∷ some 2 ∷ some 3 ∷ [])

sent_back_values : sent_back ≡ some 1 ∷ some 2 ∷ some 99 ∷ []
unfolding argument_transformer build_response build_from prepare_from element put_at lookup insert
sent_back_values = refl

build_response-prepare_example :
    (element sent_back 1 ≡ element (some 1 ∷ some 2 ∷ some 3 ∷ []) 1)
    × (element sent_back 0 ≡ element (some 1 ∷ some 2 ∷ some 3 ∷ []) 0)
build_response-prepare_example =
    build_response-prepare values 101 after_create [] ("result" ∷ []) "item" (some 7)
      (some 1 ∷ some 2 ∷ some 3 ∷ []) get_101 refl refl refl
