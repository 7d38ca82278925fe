-- ===== src/Broker/Timers.antt =====
-- lib/server-code/runners/cloud-workers-broker.js: what the timers of the broker do when they fire
-- (startWorkersHeartbeatTimer, getWorkerHeartbeatTimeout, createExpirationTimer, createIdlingTimer,
-- startStatusWatcher).
use js_code_runner.Common.{
  ℕ, ◌+◌, ◌-◌, Bool, true, false, Option, none, some, List, [], ◌∷◌, length, ltb, if◌then◌else◌,
}
use text.Mathlib.Text.{◌==◌}
use js_code_runner.Task.{Task}
use js_code_runner.Broker.{Broker, Status, good, truthy, is_some, update_status}
use js_code_runner.Broker.Pools.{kill_worker}

abbrev pub warn_status_timeout : ℕ
warn_status_timeout = 5000

abbrev pub is_code_inspection : Option Task → Bool
is_code_inspection none = false
is_code_inspection (some task) = elim task.action_type [
  | none ↦ false
  | some action ↦ action == "ANALYSE_SERVER_CODE"
]

unfoldable pub get_worker_heartbeat_timeout : ℕ → Broker → ℕ
get_worker_heartbeat_timeout w s =
    if is_code_inspection (s.worker w).task
    then s.code_inspection_heartbeat_timeout
    else s.default_heartbeat_timeout

abbrev pub is_expired : ℕ → ℕ → Broker → Bool
is_expired now w s = ltb ((s.worker w).heartbeat + get_worker_heartbeat_timeout w s) now

unfoldable pub check_heartbeats : ℕ → List ℕ → Broker → Broker
check_heartbeats now [] s = s
check_heartbeats now (w ∷ ws) s =
    check_heartbeats now ws (if is_expired now w s then kill_worker now w s else s)

-- One tick of the heartbeat timer, over the workers of `cluster.workers` as they are when it fires.
unfoldable pub on_heartbeat_timer : ℕ → Broker → Broker
on_heartbeat_timer now s = check_heartbeats now s.cluster_workers s

-- The timers of a worker do nothing once they are cleared.
unfoldable pub on_expiration_timer : ℕ → ℕ → Broker → Broker
on_expiration_timer now w s = if is_some (s.worker w).expire_timer then kill_worker now w s else s

unfoldable pub on_idling_timer : ℕ → ℕ → Broker → Broker
on_idling_timer now w s =
    if is_some (s.worker w).idling_timer
    then if ltb s.min_idle_workers_count (length s.cached_workers) then kill_worker now w s else s
    else s

abbrev is_good : Status → Bool
is_good good = true
is_good _ = false

-- One tick of the status watcher: its variable `delayShowingMessage`, and whether it warns.
unfoldable pub watch_status : ℕ → Option ℕ → Broker → Option ℕ × Bool
watch_status now delay s = if is_good s.status then (none, false) else elim delay [
  | none ↦ (some now, false)
  | some since ↦ (
    if truthy (some since) then some since else some now,
    if truthy (some since) then ltb warn_status_timeout (now - since) else false,
  )
]

unfoldable pub on_status_timer : ℕ → Option ℕ → Broker → Option ℕ × Bool × Broker
on_status_timer now delay s =
    let s' = update_status s in
    let (delay', warns) = watch_status now delay s' in (delay', warns, s')
