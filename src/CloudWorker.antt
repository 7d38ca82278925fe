-- ===== src/CloudWorker.antt =====
-- lib/server-code/runners/cloud-worker.js: what a worker process sends to the broker for one task
-- (processTask, executeTask). The end of tasksExecutor.execute is an argument, with what the code of
-- the application reported by process.setCriticalError meanwhile. The sends are numbered from 0; the
-- argument `fails` gives the error of each, or none.
pub mod Cycle
use text.Mathlib.Text.{◌==◌ as str_eq}
use js_code_runner.Common.{
  ℕ, suc, String, Bool, Option, none, some, List, [], ◌∷◌, ◌++◌, if◌then◌else◌, not,
}
use js_code_runner.Task.{Task}
use js_code_runner.Executor.Types.{
  InvocationTask, ErrorValue, Outcome, returns, throws, absent, Environment,
}
use js_code_runner.Executor.Results.{text_or, invocation_result}
use js_code_runner.Executor.{Execution, is_text}
use js_code_runner.Broker.{Broker}
use js_code_runner.Broker.Events.{
  Message, processed, critical_error, idling, heartbeat, other, on_worker_message,
}

-- The messages that go out before the first one that cannot be sent.
unfoldable pub send_all : (ℕ → Option ErrorValue) → ℕ → List Message → List Message
send_all fails n [] = []
send_all fails n (m ∷ ms) =
    let rest = send_all fails (suc n) ms in elim (fails n) [ none ↦ m ∷ rest | some e ↦ [] ]

-- `if (criticalError)`
abbrev pub critical_messages : Option String → List Message
critical_messages none = []
critical_messages (some e) = if str_eq e "" then [] else critical_error e ∷ []

-- Everything behind the `try`.
abbrev pub report : Option String → Option String → List Message
report result critical = processed result ∷ critical_messages critical ++ idling ∷ []

-- setCriticalError
abbrev pub set_critical_error : String → Option String
set_critical_error e = some (if str_eq e "" then "Unknown Error" else e)

-- The variable `criticalError` after a run that ended: `raised` is what it held then.
abbrev pub after_run : Option String → Option String → Option String
after_run raised none = raised
after_run raised (some e) = if str_eq e "" then raised else set_critical_error e

module _ {ℓ} {M V : Type ℓ} (env : Environment M V) (fails : ℕ → Option ErrorValue) where
  -- The `catch`: `n` messages were tried before. Reading a property of a falsy error throws.
  unfoldable pub caught : InvocationTask → ℕ → Option ErrorValue → List Message
  caught task n none = []
  caught task n (some e) = send_all fails n (
      report (some (env.stringify (invocation_result task.id task.response (some e) absent)))
        (some (text_or e.message e.own_text)))

  -- processTask, from the end of execute on.
  unfoldable pub process_task : InvocationTask → Execution → Option String → List Message
  process_task task x raised = elim x.answer [
    | throws e ↦ caught task 0 e
    | returns result ↦ elim (fails 0) [
      | none ↦
          processed result ∷ send_all fails 1 (report result (after_run raised x.critical_error))
      | some e ↦ caught task 1 (some e)
    ]
  ]

-- The broker's side of the channel: the messages of a worker in the order in which they were sent.
-- `none` is an exception.
unfoldable pub deliver : ℕ → ℕ → List Message → Broker → Option Broker
deliver now w [] s = some s
deliver now w (m ∷ ms) s = elim (on_worker_message now w m s) [
  | none ↦ none
  | some s' ↦ deliver now w ms s'
]
