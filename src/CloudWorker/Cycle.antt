-- ===== src/CloudWorker/Cycle.antt =====
-- A task from the end of its execution to what the broker makes of the messages of its worker.
use js_code_runner.Task.{Task}
use js_code_runner.Broker.{Broker}
