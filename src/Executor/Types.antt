-- ===== src/Executor/Types.antt =====
-- lib/server-code/runners/tasks/executor.js: the task as a worker process sees it, what its execution
-- may end with, and what is outside the program.
use js_code_runner.Common.{ℕ, String, Bool, Option, List}
use js_code_runner.Common.Int.{ℤ}

-- `invocationContextDto.response`, which the code of the application may change.
pub record Response : Type 0 where
  pub status_code : Option ℕ
  pub headers : List (String × String)
  pub cookies : List String

-- The parts of a CodeRunnerTask that the executor reads. A text that is missing is `none`.
pub record InvocationTask : Type 0 where
  pub id : String
  pub jsonclass : String
  pub application_id : String
  pub timeout : ℤ
  pub relative_path : Option String
  pub code_path : String
  pub provider : Option String
  pub event_id : Option ℕ
  pub action_type : Option String
  pub http_response_headers : List (String × String)
  pub response : Response

-- A thrown value that is not falsy: its properties, and the value itself as text. A number that is
-- missing may also be there with another type.
pub record ErrorValue : Type 0 where
  pub jsonclass : Option String
  pub code : Option ℤ
  pub http_status_code : Option ℤ
  pub exception_class : Option String
  pub exception_message : Option String
  pub message : Option String
  pub own_text : String
  pub is_timeout : Bool

-- How a call ends. `throws none` is a thrown value that is falsy.
pub data Outcome {ℓ} (A : Type ℓ) : Type ℓ where
  returns : A → Outcome A
  throws : Option ErrorValue → Outcome A

-- What becomes of a call of a task executor: it does not come back, as with an endless loop before its
-- first `await`, and then no timer fires either; or it comes back with a promise, which settles never,
-- after the timer of the task, or before it.
pub data Finish {ℓ} (A : Type ℓ) : Type ℓ where
  blocks : Finish A
  never : Finish A
  late : Outcome A → Finish A
  in_time : Outcome A → Finish A

-- A run of a task executor. `undefined` is `none`.
pub record Run {ℓ} (V : Type ℓ) : Type ℓ where
  pub left : Response
  pub finish : Finish (Option V)

-- The property `arguments` of a result: missing, a value, or the bytes of its text.
pub data Payload {ℓ} (V : Type ℓ) : Type ℓ where
  absent : Payload V
  raw : V → Payload V
  encoded : List ℕ → Payload V

pub record ExceptionWrapper : Type 0 where
  pub jsonclass : String
  pub code : ℤ
  pub http_status_code : ℤ
  pub exception_class : String
  pub exception_message : String

pub record InvocationResult {ℓ} (V : Type ℓ) : Type ℓ where
  pub request_id : String
  pub http_response_status_code : Option ℕ
  pub http_response_headers : List (String × String)
  pub http_response_cookies : List String
  pub arguments : Payload V
  pub exception : Option ExceptionWrapper

-- What is outside: the executors of the three kinds of tasks with the code of the application, the
-- set-up of the SDK and the sandbox (an error or none), the loading of the model, the texts of values,
-- the length of a text, and the functions on paths and letters.
pub record Environment {ℓ} (M V : Type ℓ) : Type ℓ where
  pub invoke_handler : InvocationTask → Option M → Run V
  pub invoke_action : InvocationTask → Option M → Run V
  pub invoke_service : InvocationTask → Option M → Run V
  pub set_up : InvocationTask → Option ErrorValue
  pub get_server_code_model : InvocationTask → Outcome M
  pub encode : V → Outcome (List ℕ)
  pub stringify : InvocationResult V → String
  pub string_length : String → ℕ
  pub resolve_path : String → String → String → String
  pub lower_case : String → String

pub record RunOptions : Type 0 where
  pub debug_model_code_path : Option String
  pub repo_path : String
  pub response_size_limit : ℕ
