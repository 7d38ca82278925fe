-- ===== src/Broker/Events.antt =====
-- lib/server-code/runners/cloud-workers-broker.js: the reactions to what happens outside (the message
-- `started` of startNewWorker, onWorkerMessage, onWorkerTaskProcessed, onWorkerIdling,
-- onWorkerHeartbeat, onWorkerExit, destroyExpirationTimer, killAllAppWorkers, stop).
use js_code_runner.Common.{
  ℕ, zero, suc, ◌-◌, String, Bool, true, false, ◌&&◌, not, Option, none, some, List, [], ◌∷◌,
  length, remove, get_elem?, if◌then◌else◌,
}
use Prim.Native.String
use js_code_runner.Task.{Task}
use js_code_runner.Broker.{idle, cached, Worker, Broker, task_processed}
use js_code_runner.Broker.Pools.{set_worker, relocate_worker, kill_worker, check_stopper}
use js_code_runner.Broker.Dispatch.{same_app}

-- What a worker process sends. Any other text, `started` among them, is `other`.
pub data Message : Type 0 where
  processed : Option String → Message
  critical_error : String → Message
  idling heartbeat other : Message

abbrev pub critical_reason : String → String
critical_reason e = String.◌++◌ "The worker has been failed with a critical error: " e

abbrev pub one_started : Broker → Broker
one_started s = record s { starting_workers_count = s.starting_workers_count - 1 }

-- The listener that startNewWorker leaves on the process, and the code behind its `await`.
unfoldable pub on_worker_started : ℕ → ℕ → Broker → Broker
on_worker_started now w s =
    if (s.worker w).awaits_started
    then one_started (
        relocate_worker now w (some idle)
          (set_worker w (record (s.worker w) { awaits_started = false }) s))
    else s

unfoldable pub on_worker_task_processed : ℕ → Option String → Broker → Broker
on_worker_task_processed w result s = record s {
  effects = task_processed (s.worker w).task result ∷ s.effects;
}

abbrev pub destroy_expiration_timer : ℕ → Broker → Broker
destroy_expiration_timer w s = set_worker w (record (s.worker w) { expire_timer = none }) s

unfoldable pub on_worker_idling : ℕ → ℕ → Broker → Broker
on_worker_idling now w s = relocate_worker now w (some cached) (destroy_expiration_timer w s)

unfoldable pub on_worker_heartbeat : ℕ → ℕ → Broker → Broker
on_worker_heartbeat now w s = set_worker w (record (s.worker w) { heartbeat = now }) s

-- The branch for `idling`. `worker.task.cacheable` throws when the worker has no task: `none`.
unfoldable pub on_idling_message : ℕ → ℕ → Broker → Option Task → Option Broker
on_idling_message now w s none = none
on_idling_message now w s (some task) = some (
    if task.cacheable && not (s.worker w).to_be_removed
    then on_worker_idling now w (set_worker w (record (s.worker w) { task = none }) s)
    else kill_worker now w s)

unfoldable pub on_worker_message : ℕ → ℕ → Message → Broker → Option Broker
on_worker_message now w (processed result) s = some (on_worker_task_processed w result s)
on_worker_message now w (critical_error e) s = some (
    set_worker w
      (record (s.worker w) {
        to_be_removed = true;
        to_be_removed_reason = some (critical_reason e);
      })
      s)
on_worker_message now w idling s = on_idling_message now w s (s.worker w).task
on_worker_message now w heartbeat s = some (on_worker_heartbeat now w s)
on_worker_message now w other s = some s

-- `cluster` takes the worker from `cluster.workers` before it tells of the exit.
unfoldable pub on_worker_exit : ℕ → ℕ → Bool → Broker → Broker
on_worker_exit now w exited_after_disconnect s =
    let s' =
      destroy_expiration_timer w (record s { cluster_workers = remove w s.cluster_workers }) in
    if not exited_after_disconnect && not (s.worker w).killed
    then relocate_worker now w none s'
    else s'

abbrev pub marked : String → ℕ → Broker → Worker
marked reason w s = record (s.worker w) { to_be_removed = true; to_be_removed_reason = some reason }

abbrev pub mark_one : String → String → ℕ → Broker → Broker
mark_one app reason w s =
    if same_app (s.worker w).app_id app then set_worker w (marked reason w s) s else s

unfoldable pub mark_app_workers : String → String → List ℕ → Broker → Broker
mark_app_workers app reason [] s = s
mark_app_workers app reason (w ∷ ws) s = mark_app_workers app reason ws (mark_one app reason w s)

abbrev pub visit : ℕ → String → Broker → Option ℕ → Broker
visit now app s none = s
visit now app s (some w) = if same_app (s.worker w).app_id app then kill_worker now w s else s

-- `this.cachedWorkers.forEach`: as many rounds as the array has elements at the start, each at its
-- own index of the array as it then is. killWorker takes an element out of that array.
unfoldable pub kill_cached : ℕ → ℕ → ℕ → String → Broker → Broker
kill_cached zero k now app s = s
kill_cached (suc rounds) k now app s =
    kill_cached rounds (suc k) now app (visit now app s (get_elem? s.cached_workers k))

unfoldable pub kill_all_app_workers : ℕ → String → String → Broker → Broker
kill_all_app_workers now app reason s =
    let s' = mark_app_workers app reason s.cluster_workers s in
    kill_cached (length s'.cached_workers) 0 now app s'

-- The part of `stop` up to its `await`: a LongWaiter, which checks at once.
unfoldable pub stop : Broker → Broker
stop s = record s { stopper = check_stopper s.busy_workers (some false) }
