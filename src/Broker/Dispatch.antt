-- ===== src/Broker/Dispatch.antt =====
-- lib/server-code/runners/cloud-workers-broker.js: finding a worker for a task and giving it the task
-- (getWorkerForTask, processTask, createExpirationTimer). getWorkerForTask waits for a new worker and
-- then calls itself: one call of `get_worker_for_task` is the part up to that wait.
use js_code_runner.Common.{
  ℕ, String, Bool, true, false, ◌&&◌, Option, none, some, List, ◌∷◌, length, find, pop, leb,
  if◌then◌else◌, ◌==◌ as nat_eq,
}
use js_code_runner.Common.Int.{ℤ, pos, negsuc, ◌+ℤ◌}
use text.Mathlib.Text.{◌==◌}
use js_code_runner.Task.{Task}
use js_code_runner.Broker.{busy, Worker, Broker, sends, is_cache_enabled}
use js_code_runner.Broker.Pools.{update, set_worker, start_new_worker, relocate_worker, kill_worker}

abbrev pub worker_teardown_time : ℕ
worker_teardown_time = 2000

-- `found` returns the worker; `waiting` has started a worker and waits until it is ready.
pub data Search : Type 0 where
  found : ℕ → Broker → Search
  waiting : ℕ → Broker → Search

-- `worker.appId === appId`
abbrev pub same_app : Option String → String → Bool
same_app none app = false
same_app (some a) app = a == app

abbrev pub find_cached : String → Bool → Broker → Option ℕ
find_cached app cacheable s =
    if is_cache_enabled s && cacheable
    then find (λ w. same_app (s.worker w).app_id app) s.cached_workers
    else none

-- `this.cachedWorkersLimit <= n`
abbrev pub limit_reached : Option ℕ → ℕ → Bool
limit_reached none n = false
limit_reached (some limit) n = leb limit n

unfoldable pub kill_popped : ℕ → Broker → Option (ℕ × List ℕ) → Broker
kill_popped now s none = s
kill_popped now s (some (w, rest)) = kill_worker now w (record s { cached_workers = rest })

unfoldable pub evict_least_active : ℕ → Broker → Broker
evict_least_active now s =
    if is_cache_enabled s && limit_reached s.cached_workers_limit (length s.cached_workers)
    then kill_popped now s (pop s.cached_workers)
    else s

abbrev pub assign_app : Bool → String → ℕ → Broker → Broker
assign_app true app w s = set_worker w (record (s.worker w) { app_id = some app }) s
assign_app false app w s = s

unfoldable pub take_idle : ℕ → String → Bool → Broker → Option (ℕ × List ℕ) → Search
take_idle now app cacheable s (some (w, rest)) =
    found w (assign_app cacheable app w (record s { idle_workers = rest }))
take_idle now app cacheable s none =
    let s' = evict_least_active now s in waiting s'.forked (start_new_worker now s')

unfoldable pub search_from : ℕ → String → Bool → Broker → Option ℕ → Search
search_from now app cacheable s (some w) = found w s
search_from now app cacheable s none = take_idle now app cacheable s (pop s.idle_workers)

unfoldable pub get_worker_for_task : ℕ → String → Bool → Broker → Search
get_worker_for_task now app cacheable s =
    search_from now app cacheable s (find_cached app cacheable s)

-- `if (task.timeout)`: any number but 0.
abbrev pub expiration : ℤ → Option ℤ → Option ℤ
expiration (pos n) old = if nat_eq n 0 then old else some (pos n +ℤ pos worker_teardown_time)
expiration (negsuc n) old = some (negsuc n +ℤ pos worker_teardown_time)

-- The task as it is sent.
abbrev pub prepared : Broker → ℕ → Task → Task
prepared s w task = record task {
  cacheable = if is_cache_enabled s then task.cacheable else false;
  worker_pid = some (s.worker w).pid;
}

abbrev pub with_task : Broker → ℕ → Task → Worker
with_task s w task = record (s.worker w) {
  expire_timer = expiration task.timeout (s.worker w).expire_timer;
  task = some (prepared s w task);
  start_idling_time = none;
}

unfoldable pub process_task : ℕ → Task → ℕ → Broker → Broker
process_task now task w s = relocate_worker now w (some busy) (record s {
  worker = update s.worker w (with_task s w task);
  effects = sends w (prepared s w task) ∷ s.effects;
})
