-- ===== src/Master.antt =====
-- lib/server-code/runners/cloud-master.js, the class CloudMaster, over the workers broker and the
-- queues: when it asks for a task (onReadyForNextTasks), what it does with the task that comes
-- (waitAndProcessNextTask, isTaskOutdated), and with its result (onTaskProcessed). A task for which
-- a worker must first start is kept in `dispatches` until `resume_dispatch`.
pub mod Ready
pub mod Verdict
use js_code_runner.Common.{
  ℕ, zero, suc, ◌+◌, ◌-◌, ◌*◌, String, Bool, true, false, not, ◌&&◌, ◌||◌, Option, none, some, List,
  [], ◌∷◌, length, ltb, if◌then◌else◌, ◌==◌,
}
use text.Mathlib.Text.{◌==◌ as str_eq}
use js_code_runner.Common.Int.{ℤ, pos, ◌+ℤ◌, ltb_ℤ}
use js_code_runner.Task.{Task}
use js_code_runner.Broker.{Broker, is_app_rate_limit_reached, get_available_workers_count}
use js_code_runner.Broker.Dispatch.{Search, found, waiting, get_worker_for_task, process_task}
use js_code_runner.Messages.{
  Channel, main_tasks, low_priority_tasks, Request, Taken, taken, broken, push_task_back,
  set_task_result,
}

-- A task behind the search for its worker.
pub record Dispatch : Type 0 where
  pub channel : Channel
  pub task : Task
  pub reset_request_before : Bool

-- `lowPriorityThreshold` is a fraction. `asked` is the list of the requests for a task, the latest
-- first, and `requests` what went to the queues.
pub record Master : Type 0 where
  pub stopped : Bool
  pub threshold_numerator : ℕ
  pub threshold_denominator : ℕ
  pub compression_enabled : Bool
  pub main_requested : Bool
  pub low_priority_requested : Bool
  pub workers_broker : Broker
  pub dispatches : List Dispatch
  pub asked : List Channel
  pub requests : List Request

abbrev pub is_requested : Channel → Master → Bool
is_requested main_tasks m = m.main_requested
is_requested low_priority_tasks m = m.low_priority_requested

-- `this.taskRequests[channel] = …`
abbrev pub set_requested : Bool → Channel → Master → Master
set_requested b main_tasks m = record m { main_requested = b }
set_requested b low_priority_tasks m = record m { low_priority_requested = b }

-- waitAndProcessNextTask, up to the promise of a task.
unfoldable pub wait_next_task : Channel → Master → Master
wait_next_task channel m =
    if is_requested channel m
    then m
    else record (set_requested true channel m) { asked = channel ∷ m.asked }

-- `lowPriorityThreshold > currentWorkersLoad`
abbrev pub is_threshold_above_load : Master → Bool
is_threshold_above_load m =
    ltb (length m.workers_broker.busy_workers * m.threshold_denominator)
      (m.threshold_numerator * m.workers_broker.concurrent_workers_limit)

abbrev pub may_ask_low_priority : Master → Bool
may_ask_low_priority m =
    not (m.threshold_numerator == 0)
    && (is_threshold_above_load m && ltb 1 (get_available_workers_count m.workers_broker))

abbrev pub wait_if : Bool → Channel → Master → Master
wait_if true channel m = wait_next_task channel m
wait_if false channel m = m

-- The two tests of the second branch read the broker, which the first leaves alone.
unfoldable pub on_ready_for_next_tasks : Master → Master
unfolding wait_next_task
on_ready_for_next_tasks m =
    if m.stopped
    then m
    else wait_if (may_ask_low_priority m) low_priority_tasks
        (wait_if (ltb 0 (get_available_workers_count m.workers_broker)) main_tasks m)

abbrev pub is_truthy : Option ℕ → Bool
is_truthy none = false
is_truthy (some n) = not (n == 0)

abbrev pub overhead : Option ℕ → ℕ
overhead none = 0
overhead (some n) = n

unfoldable pub is_task_outdated : ℕ → Task → Bool
unfolding ◌+ℤ◌
is_task_outdated now task =
    if is_truthy task.invocation_overhead_timeout
    then ltb_ℤ
        (pos task.timestamp +ℤ task.timeout +ℤ pos (overhead task.invocation_overhead_timeout))
        (pos now)
    else false

abbrev pub rmi : String
rmi = "com.backendless.coderunner.commons.protocol.RequestMethodInvocation"

abbrev pub rsi : String
rsi = "com.backendless.coderunner.commons.protocol.RequestServiceInvocation"

-- tasksExecutor.isTaskCacheable
abbrev pub is_task_cacheable : Task → Bool
is_task_cacheable task = str_eq task.jsonclass rmi || str_eq task.jsonclass rsi

-- `this.taskRequests[channel] = null; this.onReadyForNextTasks()`
unfoldable pub ask_again : Channel → Master → Master
ask_again channel m = on_ready_for_next_tasks (set_requested false channel m)

-- The search for a worker and what follows it; `reset` says whether the request was cleared before.
abbrev pub place_dispatch : ℕ → Dispatch → Master → Search → Master
place_dispatch now d m (waiting w b) = record m {
  workers_broker = b;
  dispatches = d ∷ m.dispatches;
}
place_dispatch now d m (found w b) =
    let m' : Master = if d.reset_request_before then m else set_requested false d.channel m in
    record m' { workers_broker = process_task now d.task w b }

unfoldable pub search_worker : ℕ → Dispatch → Master → Master
search_worker now d m =
    place_dispatch now d m
      (get_worker_for_task now d.task.application_id d.task.cacheable m.workers_broker)

unfoldable pub start_dispatch : ℕ → Channel → Task → Master → Master
start_dispatch now channel task m =
    let before = ltb 2 (get_available_workers_count m.workers_broker) in
    search_worker now
      (record {
        channel = channel;
        task = record task { cacheable = is_task_cacheable task };
        reset_request_before = before;
      })
      (if before then set_requested false channel m else m)

-- A rejected pushTaskBack is caught, and the master asks again.
abbrev pub pushed_back : Channel → Master → Option Request → Master
pushed_back channel m none = ask_again channel m
pushed_back channel m (some r) = ask_again channel (record m { requests = r ∷ m.requests })

unfoldable pub on_task :
    (ℕ → List ℕ → Option (List ℕ)) → Option ℕ → ℕ → Channel → Task → Master → Master
on_task deflate threshold now channel task m =
    if is_task_outdated now task
    then ask_again channel m
    else if is_app_rate_limit_reached m.workers_broker task.application_id
    then pushed_back channel m (push_task_back deflate m.compression_enabled threshold channel task)
    else start_dispatch now channel task m

-- The promise of getTask: without a task, `task.applicationId` throws, and the error is caught.
unfoldable pub on_taken :
    (ℕ → List ℕ → Option (List ℕ)) → Option ℕ → ℕ → Channel → Taken → Master → Master
on_taken deflate threshold now channel broken m = ask_again channel m
on_taken deflate threshold now channel (taken none) m = ask_again channel m
on_taken deflate threshold now channel (taken (some task)) m =
    on_task deflate threshold now channel task m

-- The `n`-th element, and the list without it.
abbrev pub take_at {ℓ} : {A : Type ℓ} → ℕ → List A → Option (A × List A)
take_at n [] = none
take_at zero (x ∷ xs) = some (x, xs)
take_at (suc n) (x ∷ xs) = elim (take_at n xs) [ none ↦ none | some (y, rest) ↦ some (y, x ∷ rest) ]

abbrev pub resumed : ℕ → Master → Option (Dispatch × List Dispatch) → Master
resumed now m none = m
resumed now m (some (d, rest)) = search_worker now d (record m { dispatches = rest })

-- The worker that the `n`-th dispatch waits for has started: getWorkerForTask calls itself.
unfoldable pub resume_dispatch : ℕ → ℕ → Master → Master
resume_dispatch now n m = resumed now m (take_at n m.dispatches)

-- The constructor, with the broker that initWorkersBroker makes.
unfoldable pub create_master : ℕ → ℕ → Bool → Broker → Master
create_master numerator denominator compression b = record {
  stopped = false;
  threshold_numerator = numerator;
  threshold_denominator = denominator;
  compression_enabled = compression;
  main_requested = false;
  low_priority_requested = false;
  workers_broker = b;
  dispatches = [];
  asked = [];
  requests = [];
}

abbrev sent : Master → Option Request → Master
sent m none = m
sent m (some r) = record m { requests = r ∷ m.requests }

-- onTaskProcessed. A result that cannot be compressed is a rejected promise that nobody catches.
unfoldable pub on_task_processed :
    (ℕ → List ℕ → Option (List ℕ)) → Option ℕ → Task → Option (List ℕ) → Master → Master
on_task_processed deflate threshold task result m =
    sent m (set_task_result deflate m.compression_enabled threshold task result)
