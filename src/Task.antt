-- ===== src/Task.antt =====
-- lib/server-code/runners/tasks/executor.js, the type CodeRunnerTask: a task as the master takes it
-- from the queue and hands it to a worker. Fields that may be missing are options. The fields that
-- only the code of an application reads are left out.
use js_code_runner.Common.{ℕ, String, Bool, Option}
use js_code_runner.Common.Int.{ℤ}

pub record Task : Type 0 where
  pub id : String
  pub jsonclass : String
  pub application_id : String
  pub timeout : ℤ
  pub timestamp : ℕ
  pub invocation_overhead_timeout : Option ℕ
  pub action_type : Option String
  pub response_channel_id : String
  pub cacheable : Bool
  pub worker_pid : Option ℕ
