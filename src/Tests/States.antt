-- ===== src/Tests/States.antt =====
-- A broker with room for two workers, on its way from the start to a busy and to a cached worker.
use js_code_runner.Common.{
  ℕ, ◌+◌, ◌≡◌, refl, true, false, none, some, [], ◌∷◌, arith, ◌==◌, if◌then◌else◌,
}
use js_code_runner.Common.Int.{pos}
use js_code_runner.Common.Dict.{lookup}
use js_code_runner.Task.{Task}
use js_code_runner.Broker.{Broker, Worker, cached, good}
use js_code_runner.Broker.Invariant.{IsConsistent, count_app}
use js_code_runner.Broker.Pools.{
  new_worker, start_new_worker, start_workers, keep_min_idle_workers_count, move_worker, account,
  account_if, keep_min_if, relocate_worker,
}
use js_code_runner.Broker.Dispatch.{
  Search, found, waiting, take_idle, search_from, get_worker_for_task, process_task,
}
use js_code_runner.Broker.Events.{
  on_worker_started, idling, on_worker_message, on_idling_message, on_worker_idling,
}
use js_code_runner.Broker.Start.{
  WorkersConfig, default_cache, create_broker, empty_broker, derive_options,
}
use js_code_runner.Broker.Invariant.Steps.{Reach, here, next, started, dispatched, messaged}
use js_code_runner.Master.{rmi}

abbrev pub config : WorkersConfig
config = record {
  heartbeat_timeout = 30;
  heartbeat_code_inspection_timeout = 60;
  concurrent = some 2;
  min_idle = some (pos 2);
  cache = default_cache;
  cached_idle_ttl = none;
  rate_limit_enabled = true;
  rate_limit_default = 2;
  rate_limit_overrides = [];
}

abbrev pub pid : ℕ → ℕ
pid w = w + 100

abbrev pub task : Task
task = record {
  id = "t";
  jsonclass = rmi;
  application_id = "app";
  timeout = pos 1000;
  timestamp = 5;
  invocation_overhead_timeout = none;
  action_type = none;
  response_channel_id = "r";
  cacheable = true;
  worker_pid = none;
}

abbrev pub created : Broker
created = create_broker 0 4 pid config

abbrev pub ready : Broker
ready = on_worker_started 1 1 (on_worker_started 1 0 created)

abbrev pub broker_of : Search → Broker
broker_of (found w b) = b
broker_of (waiting w b) = b

abbrev pub taken_from : Broker
taken_from = broker_of (get_worker_for_task 2 "app" true ready)

-- The worker that started first is taken first.
pub ready-found : get_worker_for_task 2 "app" true ready ≡ found 0 taken_from
unfolding get_worker_for_task search_from take_idle on_worker_started relocate_worker move_worker
    account_if keep_min_if keep_min_idle_workers_count start_workers start_new_worker create_broker
    empty_broker derive_options
ready-found = refl

abbrev pub at_work : Broker
at_work = process_task 2 task 0 taken_from

abbrev pub cached_worker : ℕ → Worker
cached_worker pid_of = record {
  pid = pid_of;
  heartbeat = 4;
  awaits_started = false;
  app_id = some "app";
  current_place = some cached;
  task = none;
  expire_timer = none;
  idling_timer = none;
  start_idling_time = none;
  to_be_removed = false;
  to_be_removed_reason = none;
  killed = false;
}

-- Two workers of one app, both cached.
abbrev pub both_cached : Broker
both_cached = record {
  options = derive_options 4 pid config;
  status = good;
  starting_workers_count = 0;
  idle_workers = [];
  cached_workers = 1 ∷ 0 ∷ [];
  busy_workers = [];
  apps_load = [];
  stopper = none;
  worker = λ w.
      if w == 0
      then cached_worker 100
      else if w == 1
      then cached_worker 101
      else new_worker (w + 100) 0;
  forked = 2;
  cluster_workers = 0 ∷ 1 ∷ [];
  effects = [];
}

pub both_cached-IsConsistent : IsConsistent both_cached
unfolding count_app lookup
both_cached-IsConsistent = record {
  idle_once = λ w. ground arith;
  cached_once = λ w. ground arith;
  busy_once = λ w. ground arith;
  unborn = λ w h. ground arith;
  load = λ a. refl;
}

-- The states as they are reached, one step after the other.
pub Reach-at_work : Reach created at_work
unfolding on_worker_started relocate_worker move_worker account_if keep_min_if
    keep_min_idle_workers_count start_workers start_new_worker create_broker empty_broker
    derive_options
Reach-at_work =
    next (next (next here (started 1 0 (omega arith))) (started 1 1 (omega arith)))
      (dispatched 2 task 0 ready-found)

-- The worker takes a second task of the app when the first one is done.
abbrev pub next_task : Task
next_task = record task { id = "u"; worker_pid = some 100 }

abbrev pub rested : Broker
rested = elim (on_worker_message 3 0 idling at_work) [ none ↦ at_work | some b ↦ b ]

abbrev pub at_work_again : Broker
at_work_again = process_task 4 next_task 0 (broker_of (get_worker_for_task 4 "app" true rested))

pub Reach-at_work_again : Reach created at_work_again
unfolding on_worker_started relocate_worker move_worker account_if account keep_min_if
    keep_min_idle_workers_count start_workers start_new_worker create_broker empty_broker
    derive_options on_worker_message on_idling_message on_worker_idling process_task
    get_worker_for_task search_from take_idle
Reach-at_work_again =
    next (next Reach-at_work (messaged 3 0 idling (omega arith) refl))
      (dispatched 4 next_task 0 refl)

abbrev pub task_sent : Task
task_sent = record task { worker_pid = some 100 }
