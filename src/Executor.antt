-- ===== src/Executor.antt =====
-- lib/server-code/runners/tasks/executor.js: running one task in a worker process, from enrichTask to
-- the text that is the answer.
pub mod Types
pub mod Results
pub mod Laws
pub mod Runs
pub mod Handler
use Prim.Native.String
use text.Mathlib.Text.{◌==◌ as str_eq}
use js_code_runner.Common.{
  ℕ, String, Bool, true, false, not, ◌&&◌, ◌||◌, Option, none, some, List, [], ltb, if◌then◌else◌,
  ◌==◌,
}
use js_code_runner.Common.Int.{ℤ, pos, negsuc}
use js_code_runner.Master.{rmi, rsi}
use Types.{
  Response, InvocationTask, ErrorValue, Outcome, returns, throws, Finish, blocks, never, late,
  in_time, Run, Payload, absent, raw, encoded, InvocationResult, Environment, RunOptions,
}
use Results.{text_or, error_of, invocation_result}

abbrev pub rai : String
rai = "com.backendless.coderunner.commons.protocol.RequestActionInvocation"

abbrev pub shutdown_code : ℕ
shutdown_code = 32_768

abbrev pub shutdown_action : String
shutdown_action = "SHUTDOWN"

abbrev pub is_text : Option String → Bool
is_text none = false
is_text (some t) = not (str_eq t "")

abbrev is_shutdown_code : Option ℕ → Bool
is_shutdown_code none = false
is_shutdown_code (some i) = i == shutdown_code

-- The workaround of enrichTask for the shutdown event.
abbrev pub shutdown_as_action : InvocationTask → InvocationTask
shutdown_as_action task =
    if str_eq task.jsonclass rmi && is_shutdown_code task.event_id
    then record task { jsonclass = rai; action_type = some shutdown_action }
    else task

abbrev pub new_response : List (String × String) → Response
new_response headers = record { status_code = none; headers = headers; cookies = [] }

-- How a task ended, and what is left of its response. `none` is a call that does not
-- come back, or a promise that stays pending.
pub record Attempt {ℓ} (V : Type ℓ) : Type ℓ where
  pub left : Response
  pub settled : Option (Outcome (Option V))

abbrev pub timeout_message : String
timeout_message = "Task execution is aborted due to timeout"

abbrev pub timeout_error : ErrorValue
timeout_error = record (error_of timeout_message) { is_timeout = true }

abbrev pub no_length : String
no_length = "Cannot read properties of undefined (reading 'length')"

abbrev pub limit_exceeded : String
limit_exceeded = "Response size limit exceeded"

abbrev unknown_task : String → String
unknown_task c = String.◌++◌ "Unknown task [" (String.◌++◌ c "]")

abbrev settled_without_timer {ℓ} : {A : Type ℓ} → Finish A → Option (Outcome A)
settled_without_timer blocks = none
settled_without_timer never = none
settled_without_timer (late o) = some o
settled_without_timer (in_time o) = some o

-- `Promise.race` with the timer.
abbrev pub settled_with_timer {ℓ} : {A : Type ℓ} → Finish A → Option (Outcome A)
settled_with_timer blocks = none
settled_with_timer never = some (throws (some timeout_error))
settled_with_timer (late o) = some (throws (some timeout_error))
settled_with_timer (in_time o) = some o

unfoldable pub race {ℓ} : {V : Type ℓ} → ℤ → Run V → Attempt V
race (negsuc n) run = record { left = run.left; settled = settled_without_timer run.finish }
race (pos n) run = record { left = run.left; settled = settled_with_timer run.finish }

-- What execute ends with: `task.criticalError`, and the promise's own end.
pub record Execution : Type 0 where
  pub critical_error : Option String
  pub answer : Outcome (Option String)

abbrev critical_of : Option ErrorValue → Option String
critical_of none = none
critical_of (some e) = if e.is_timeout then e.message else none

abbrev pub critical_error_of {ℓ} : {A : Type ℓ} → Outcome A → Option String
critical_error_of (returns v) = none
critical_error_of (throws e) = critical_of e

module _ {ℓ} {M V : Type ℓ} (env : Environment M V) (opts : RunOptions) where
  unfoldable pub enrich_task : InvocationTask → InvocationTask
  enrich_task task =
      let path =
        if is_text opts.debug_model_code_path
        then text_or opts.debug_model_code_path ""
        else env.resolve_path opts.repo_path (env.lower_case task.application_id)
            (text_or task.relative_path "") in
      record (shutdown_as_action (record task { code_path = path })) {
        response = new_response task.http_response_headers;
      }

  abbrev pub get_task_executor : String → Option (InvocationTask → Option M → Run V)
  get_task_executor c =
      if str_eq c rmi
      then some env.invoke_handler
      else if str_eq c rai
      then some env.invoke_action
      else if str_eq c rsi
      then some env.invoke_service
      else none

  abbrev pub failed_with : InvocationTask → Option ErrorValue → Attempt V
  failed_with t e = record { left = t.response; settled = some (throws e) }

  unfoldable pub execute_task : InvocationTask → Option M → Attempt V
  execute_task t model = elim (get_task_executor t.jsonclass) [
    | none ↦ failed_with t (some (error_of (unknown_task t.jsonclass)))
    | some run ↦ race t.timeout (run t model)
  ]

  abbrev model_of : Outcome M → Outcome (Option M)
  model_of (returns m) = returns (some m)
  model_of (throws e) = throws e

  -- The model is loaded if none is given and the task names a file, or in the debug mode.
  unfoldable pub choose_model : InvocationTask → Option M → Outcome (Option M)
  choose_model t (some m) = returns (some m)
  choose_model t none =
      if is_text t.provider || is_text opts.debug_model_code_path
      then model_of (env.get_server_code_model t)
      else returns none

  unfoldable pub run_with : InvocationTask → Outcome (Option M) → Attempt V
  run_with t (throws e) = failed_with t e
  run_with t (returns model) = execute_task t model

  unfoldable pub attempt : InvocationTask → Option M → Attempt V
  attempt t model = elim (env.set_up t) [
    | some e ↦ failed_with t (some e)
    | none ↦ run_with t (choose_model t model)
  ]

  -- wrapResult of the value, or of the error that was caught.
  unfoldable pub respond :
      InvocationTask → Response → Outcome (Option V) → Option (InvocationResult V)
  respond t left (returns none) = none
  respond t left (returns (some v)) = some (invocation_result t.id left none (raw v))
  respond t left (throws e) = some (invocation_result t.id left e absent)

  abbrev pub with_bytes :
      InvocationResult V → Outcome (List ℕ) → Outcome (Option (InvocationResult V))
  with_bytes r (returns bytes) = returns (some (record r { arguments = encoded bytes }))
  with_bytes r (throws e) = throws e

  abbrev encode_payload : InvocationResult V → Payload V → Outcome (Option (InvocationResult V))
  encode_payload r absent = returns (some (record r { arguments = encoded [] }))
  encode_payload r (raw v) = with_bytes r (env.encode v)
  encode_payload r (encoded bytes) = returns (some r)

  unfoldable pub encode_arguments :
      Option (InvocationResult V) → Outcome (Option (InvocationResult V))
  encode_arguments none = returns none
  encode_arguments (some r) = elim r.exception [
    | some e ↦ returns (some r)
    | none ↦ encode_payload r r.arguments
  ]

  abbrev pub error_result : InvocationTask → Response → String → InvocationResult V
  error_result t left m = invocation_result t.id left (some (error_of m)) absent

  abbrev pub error_text : InvocationTask → Response → String → String
  error_text t left m = env.stringify (error_result t left m)

  -- With a limit, the length of `undefined` is asked for, which throws.
  unfoldable pub limited :
      InvocationTask → Response → Outcome (Option (InvocationResult V)) → Outcome (Option String)
  limited t left (throws e) = throws e
  limited t left (returns none) =
      returns (if ltb 0 opts.response_size_limit then some (error_text t left no_length) else none)
  limited t left (returns (some r)) =
      let text = env.stringify r in
      returns (
        some (
          if ltb 0 opts.response_size_limit && ltb opts.response_size_limit (env.string_length text)
          then error_text t left limit_exceeded
          else text))

  abbrev pub conclude : InvocationTask → Attempt V → Option (Outcome (Option V)) → Option Execution
  conclude t a none = none
  conclude t a (some o) = some (record {
    critical_error = critical_error_of o;
    answer = limited t a.left (encode_arguments (respond t a.left o));
  })

  -- `none`: the promise of execute stays pending, or the worker hangs.
  unfoldable pub execute : InvocationTask → Option M → Option Execution
  execute task model = let t = enrich_task task in let a = attempt t model in conclude t a a.settled
