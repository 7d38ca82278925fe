-- ===== src/Tests/Executions.antt =====
-- The theorems on the execution of a task, with an application that answers with numbers.
use js_code_runner.Common.{ℕ, ◌≡◌, refl, String, Option, none, some, [], ◌∷◌, arith}
use js_code_runner.Common.Int.{pos}
use js_code_runner.Master.{rmi}
use js_code_runner.Executor.Types.{
  Response, InvocationTask, Outcome, returns, Finish, never, in_time, Run, InvocationResult,
  Environment, RunOptions,
}
use js_code_runner.Executor.Results.{invocation_result}
use js_code_runner.Executor.{
  race, enrich_task, execute_task, choose_model, run_with, attempt, respond, encode_arguments,
  error_text, limited, execute, timeout_message,
}
use js_code_runner.Executor.Laws.{execute-IsSendable, IsSendable}
use js_code_runner.Executor.Runs.{execute-le_limit, execute-overdue}
use js_code_runner.Broker.{Broker}
use js_code_runner.Broker.Dispatch.{process_task as dispatch}
use js_code_runner.CloudWorker.{process_task}

abbrev response : Response
response = record { status_code = none; headers = []; cookies = [] }

abbrev invocation : InvocationTask
invocation = record {
  id = "t";
  jsonclass = rmi;
  application_id = "app";
  timeout = pos 1000;
  relative_path = none;
  code_path = "";
  provider = none;
  event_id = some 100;
  action_type = none;
  http_response_headers = [];
  response = response;
}

-- Every executor ends in the same way; a text is as long as its environment says.
abbrev env : Finish (Option ℕ) → ℕ → Environment ℕ ℕ
env finish size = record {
  invoke_handler = λ t m. record { left = t.response; finish = finish };
  invoke_action = λ t m. record { left = t.response; finish = finish };
  invoke_service = λ t m. record { left = t.response; finish = finish };
  set_up = λ t. none;
  get_server_code_model = λ t. returns 0;
  encode = λ v. returns (v ∷ []);
  stringify = λ r. "{}";
  string_length = λ s. size;
  resolve_path = λ a b c. a;
  lower_case = λ s. s;
}

abbrev options : ℕ → RunOptions
options limit = record {
  debug_model_code_path = none;
  repo_path = "/repo";
  response_size_limit = limit;
}

answered :
    execute (env (in_time (returns (some 5))) 2) (options 0) invocation none
    ≡ some (record { critical_error = none; answer = returns (some "{}") })
unfolding execute enrich_task attempt choose_model run_with execute_task race respond
    encode_arguments limited invocation_result
answered = refl

execute-IsSendable_example :
    (o : Outcome (Option ℕ)) × (r : InvocationResult ℕ) × ((attempt
        (env (in_time (returns (some 5))) 2)
        (options 0)
        (enrich_task (env (in_time (returns (some 5))) 2) (options 0) invocation)
        none).settled
      ≡ some o)
    × ("{}" ≡ (env (in_time (returns (some 5))) 2).stringify r)
    × IsSendable (env (in_time (returns (some 5))) 2) (options 0) invocation.id o r
execute-IsSendable_example =
    execute-IsSendable (env (in_time (returns (some 5))) 2) (options 0) invocation none
      (record { critical_error = none; answer = returns (some "{}") }) "{}" answered refl

too_long :
    execute (env (in_time (returns (some 5))) 20) (options 10) invocation none
    ≡ some (record { critical_error = none; answer = returns (some "{}") })
unfolding execute enrich_task attempt choose_model run_with execute_task race respond
    encode_arguments limited invocation_result
too_long = refl

execute-le_limit_example :
    (left : Response) × (m : String) × ("{}"
      ≡ error_text (env (in_time (returns (some 5))) 20) (options 10) invocation left m)
execute-le_limit_example =
    execute-le_limit (env (in_time (returns (some 5))) 20) (options 10) invocation none
      (record { critical_error = none; answer = returns (some "{}") }) "{}" (omega arith) too_long
      refl (omega arith)

abbrev run_of : Finish (Option ℕ) → InvocationTask → Option ℕ → Run ℕ
run_of finish t m = record { left = t.response; finish = finish }

execute-overdue_example :
    execute (env never 2) (options 0) invocation none
    ≡ some (record {
      critical_error = some timeout_message;
      answer =
          returns (some (error_text (env never 2) (options 0) invocation response timeout_message));
    })
unfolding enrich_task choose_model
execute-overdue_example =
    execute-overdue (env never 2) (options 0) invocation none none (run_of never) 1000 refl refl
      refl refl refl refl
