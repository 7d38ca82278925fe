-- ===== src/Broker/Pools.antt =====
-- lib/server-code/runners/cloud-workers-broker.js: how a worker is started, moved between the pools
-- of idle, cached and busy workers, and killed (keepMinIdleWorkersCount, startNewWorker,
-- createIdlingTimer, destroyIdlingTimer, relocateWorker, killWorker), with the check of LongWaiter.
use js_code_runner.Common.{
  ℕ, zero, suc, ◌+◌, ◌-◌, Bool, true, false, ◌&&◌, ◌||◌, not, Option, none, some, List, [], ◌∷◌,
  ◌++◌, length, remove, min, if◌then◌else◌, ◌==◌,
}
use js_code_runner.Common.Int.{ℤ, pos, negsuc, ◌+ℤ◌}
use js_code_runner.Common.Dict.{insert}
use js_code_runner.Broker.{
  Place, idle, cached, busy, at, Worker, Broker, forks, kills, ready_for_next_task, place, key,
  is_some, truthy, load_of, is_available_for_task_processing, get_started_workers_count,
}

abbrev pub update : (ℕ → Worker) → ℕ → Worker → ℕ → Worker
update f w x v = if w == v then x else f v

abbrev pub set_worker : ℕ → Worker → Broker → Broker
set_worker w x s = record s { worker = update s.worker w x }

-- `cluster.fork`, with the properties that startNewWorker sets before it waits.
abbrev pub new_worker : ℕ → ℕ → Worker
new_worker pid now = record {
  pid = pid;
  heartbeat = now;
  awaits_started = true;
  app_id = none;
  current_place = none;
  task = none;
  expire_timer = none;
  idling_timer = none;
  start_idling_time = none;
  to_be_removed = false;
  to_be_removed_reason = none;
  killed = false;
}

-- startNewWorker up to its `await`; the forked worker is in `cluster.workers` at once.
unfoldable pub start_new_worker : ℕ → Broker → Broker
start_new_worker now s = record s {
  starting_workers_count = s.starting_workers_count + 1;
  worker = update s.worker s.forked (new_worker (s.pid_of_fork s.forked) now);
  forked = suc s.forked;
  cluster_workers = s.cluster_workers ++ s.forked ∷ [];
  effects = forks s.forked ∷ s.effects;
}

unfoldable pub start_workers : ℕ → ℕ → Broker → Broker
start_workers zero now s = s
start_workers (suc n) now s = start_workers n now (start_new_worker now s)

-- Each subtraction that would go below 0 stops there: the source starts workers only when the
-- result is above 0, and then it is the same.
abbrev pub required_workers_count : Broker → ℕ
required_workers_count s =
    min (s.min_idle_workers_count - length s.idle_workers)
      (s.concurrent_workers_limit - get_started_workers_count s)
    - s.starting_workers_count

unfoldable pub keep_min_idle_workers_count : ℕ → Broker → Broker
keep_min_idle_workers_count now s = start_workers (required_workers_count s) now s

abbrev pub create_idling_timer : ℕ → Broker → Worker → Worker
create_idling_timer now s x =
    if truthy s.cached_workers_idle_ttl
    then record x { start_idling_time = some now; idling_timer = s.cached_workers_idle_ttl }
    else x

abbrev pub destroy_idling_timer : Worker → Worker
destroy_idling_timer x = record x { idling_timer = none; start_idling_time = none }

-- The timers of a worker that goes from one place to another, and its new place.
abbrev pub moved : ℕ → Broker → Option Place → Worker → Worker
moved now s new x =
    let y : Worker =
      if at cached new
      then create_idling_timer now s x
      else if at cached x.current_place
      then destroy_idling_timer x
      else x in
    record y { current_place = new }

abbrev pub take_out : Place → Option Place → ℕ → List ℕ → List ℕ
take_out p old w l = if at p old then remove w l else l

abbrev pub put_in : Place → Option Place → ℕ → List ℕ → List ℕ
put_in p new w l = if at p new then w ∷ l else l

-- relocateWorker down to `newPlace.unshift(worker)`.
unfoldable pub move_worker : ℕ → ℕ → Option Place → Broker → Broker
move_worker now w new s = record s {
  worker = update s.worker w (moved now s new (s.worker w));
  idle_workers = put_in idle new w (take_out idle (place s w) w s.idle_workers);
  cached_workers = put_in cached new w (take_out cached (place s w) w s.cached_workers);
  busy_workers = put_in busy new w (take_out busy (place s w) w s.busy_workers);
}

-- LongWaiter.check, with the checker of `stop`.
abbrev pub check_stopper : List ℕ → Option Bool → Option Bool
check_stopper busy_now none = none
check_stopper [] (some resolved) = some true
check_stopper (_ ∷ _) (some resolved) = some resolved

abbrev pub one : Bool → ℤ
one true = pos 1
one false = negsuc 0

-- What relocateWorker does when a worker becomes busy, or stops being so.
unfoldable pub account : ℕ → Bool → Broker → Broker
account w to_busy s = record s {
  apps_load =
      insert (key (s.worker w).app_id) (load_of s (key (s.worker w).app_id) +ℤ one to_busy)
        s.apps_load;
  stopper = check_stopper s.busy_workers s.stopper;
  effects =
      if is_available_for_task_processing s then ready_for_next_task ∷ s.effects else s.effects;
}

unfoldable pub account_if : Bool → ℕ → Bool → Broker → Broker
account_if true w to_busy s = account w to_busy s
account_if false w to_busy s = s

unfoldable pub keep_min_if : Bool → ℕ → Broker → Broker
keep_min_if true now s = keep_min_idle_workers_count now s
keep_min_if false now s = s

unfoldable pub relocate_worker : ℕ → ℕ → Option Place → Broker → Broker
relocate_worker now w new s =
    let from = place s w in
    let s' = account_if (at busy from || at busy new) w (at busy new) (move_worker now w new s) in
    keep_min_if (not (is_some s.stopper) && (at idle from || at busy from || at busy new)) now s'

abbrev pub set_killed : ℕ → Broker → Broker
set_killed w s = record s {
  worker = update s.worker w (record (s.worker w) { killed = true });
  effects = kills w ∷ s.effects;
}

unfoldable pub kill_worker : ℕ → ℕ → Broker → Broker
kill_worker now w s = set_killed w (relocate_worker now w none s)
