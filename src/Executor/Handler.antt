-- ===== src/Executor/Handler.antt =====
-- lib/server-code/runners/tasks/invoke-handler.js: the request and the response that a handler gets
-- from the arguments of its task, and the arguments that go back. Values of the application are of any
-- type; `undefined` is `none`. Objects stand for themselves: the fields of the context, which the
-- source writes, are inside the first value. UnitOfWork of the SDK is outside: its two functions are
-- taken not to throw.
pub mod Keeps
use text.Mathlib.Text.{◌==◌}
use js_code_runner.Common.{
  ℕ, zero, suc, ◌+◌, String, Bool, true, false, Option, none, some, List, [], ◌∷◌, if◌then◌else◌,
  ◌==◌ as nat_eq,
}
use js_code_runner.ServerCode.Events.Types.{EventType, id, args}
use js_code_runner.Common.Dict.{lookup, insert}

-- What is read of a value, as `arg && arg.exception` and `arg && arg.result` do; the object that wraps
-- an error and a result; whether a value is truthy; and UnitOfWork.initFromJSON, and the object that a
-- unit of work is after `setResult`.
pub record Values {ℓ} (V : Type ℓ) : Type ℓ where
  pub exception_field : V → Option V
  pub result_field : V → Option V
  pub wrap : Option V → Option V → V
  pub is_truthy : V → Bool
  pub init_from_json : V → V
  pub set_result : V → V → V

-- The objects `req` and `res`.
pub record HandlerArguments {ℓ} (V : Type ℓ) : Type ℓ where
  pub req : List (String × Option V)
  pub error : Option V
  pub result : Option V

-- `args[n]`
unfoldable pub element {ℓ} : {V : Type ℓ} → List (Option V) → ℕ → Option V
element [] n = none
element (x ∷ xs) zero = x
element (x ∷ xs) (suc n) = element xs n

-- `args[n] = x`; an array that is too short grows.
unfoldable pub put_at {ℓ} : {V : Type ℓ} → ℕ → Option V → List (Option V) → List (Option V)
put_at zero x [] = x ∷ []
put_at zero x (y ∷ ys) = x ∷ ys
put_at (suc n) x [] = none ∷ put_at n x []
put_at (suc n) x (y ∷ ys) = y ∷ put_at n x ys

abbrev pub field {ℓ} : {V : Type ℓ} → (V → Option V) → Option V → Option V
field f none = none
field f (some v) = f v

module _ {ℓ} {V : Type ℓ} (values : Values V) where
  abbrev pub take_argument : String → Option V → HandlerArguments V → HandlerArguments V
  take_argument name arg h =
      if name == "result"
      then record h {
        error = field values.exception_field arg;
        result = field values.result_field arg;
      }
      else record h { req = insert name arg h.req }

  -- `event.args.forEach`, from the name of index `k` on.
  unfoldable pub prepare_from :
      ℕ → List String → List (Option V) → HandlerArguments V → HandlerArguments V
  prepare_from k [] task_args h = h
  prepare_from k (name ∷ names) task_args h =
      prepare_from (suc k) names task_args (take_argument name (element task_args (suc k)) h)

  abbrev joined : Option (Option V) → Option V
  joined none = none
  joined (some x) = x

  -- `if (value)`
  abbrev pub if_truthy : Option V → Option V
  if_truthy none = none
  if_truthy (some v) = if values.is_truthy v then some v else none

  abbrev pub with_unit_of_work : Option V → HandlerArguments V → HandlerArguments V
  with_unit_of_work none h = h
  with_unit_of_work (some v) h = record h { req = insert "unitOfWork" (some v) h.req }

  abbrev init_unit_of_work : Option V → Option V
  init_unit_of_work none = none
  init_unit_of_work (some v) = some (values.init_from_json v)

  abbrev give_result : Option V → Option V → Option V
  give_result none result = none
  give_result (some unit) none = some unit
  give_result (some unit) (some result) = some (values.set_result unit result)

  -- The argument transformers of events.js: beforeTransaction and afterTransaction have one each.
  unfoldable pub argument_transformer : ℕ → HandlerArguments V → HandlerArguments V
  unfolding lookup
  argument_transformer i h =
      let unit = init_unit_of_work (if_truthy (joined (lookup "unitOfWork" h.req))) in
      if nat_eq i 134
      then with_unit_of_work unit h
      else if nat_eq i 135
      then with_unit_of_work (give_result unit (if_truthy h.result)) h
      else h

  -- What the handler is called with.
  abbrev pub prepare : EventType → List (Option V) → HandlerArguments V
  prepare e task_args =
      argument_transformer (id e)
        (prepare_from 0 (args e) task_args (record { req = []; error = none; result = none }))

  abbrev pub answer_for : String → HandlerArguments V → Option V
  answer_for name h =
      if name == "result" then some (values.wrap h.error h.result) else joined (lookup name h.req)

  unfoldable pub build_from :
      ℕ → List String → HandlerArguments V → List (Option V) → List (Option V)
  build_from k [] h task_args = task_args
  build_from k (name ∷ names) h task_args =
      build_from (suc k) names h (put_at (suc k) (answer_for name h) task_args)

  abbrev pub with_result : Option V → HandlerArguments V → HandlerArguments V
  with_result none h = h
  with_result (some v) h = record h { result = some v }

  -- buildResponse: `returned` is what the handler returns, behind the transformer of its event, and `h`
  -- holds what the handler left in `req` and `res`.
  unfoldable pub build_response :
      List String → HandlerArguments V → Option V → List (Option V) → List (Option V)
  build_response names h returned task_args = build_from 0 names (with_result returned h) task_args

  -- What the promise resolves with.
  abbrev pub resolve_handler :
      Bool
      → List String
      → HandlerArguments V
      → Option V
      → List (Option V)
      → Option (List (Option V))
  resolve_handler true names h returned task_args = none
  resolve_handler false names h returned task_args =
      some (build_response names h returned task_args)
