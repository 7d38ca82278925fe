-- ===== src/Tests/Masters.antt =====
-- The theorems on the master, over the broker of the test states.
use js_code_runner.Common.{
  ℕ, ◌||◌, Option, List, none, if◌then◌else◌, ◌+◌, ◌*◌, ◌≡◌, ◌≢◌, ◌≤◌, ◌<◌, refl, true, false, some,
  [], ◌∷◌, arith, ◌↔◌, length,
}
use js_code_runner.Common.Int.{pos, ◌+ℤ◌}
use js_code_runner.Common.Dict.{lookup}
use js_code_runner.Task.{Task}
use js_code_runner.Broker.{Broker, get_app_rate_limit, is_app_rate_limit_reached}
use js_code_runner.Broker.Pools.{
  start_new_worker, start_workers, keep_min_idle_workers_count, move_worker, account_if,
  keep_min_if, relocate_worker,
}
use js_code_runner.Broker.Events.{on_worker_started}
use js_code_runner.Broker.Start.{
  create_broker, empty_broker, derive_options, create_broker-IsConsistent,
}
use js_code_runner.Broker.Invariant.{IsConsistent, count_app}
use js_code_runner.Broker.Invariant.Steps.{Reach, here, next, started, Reach-IsConsistent}
use js_code_runner.Messages.{main_tasks, pushes}
use js_code_runner.Master.{
  Master, is_task_outdated, on_task, on_ready_for_next_tasks, create_master,
}
use js_code_runner.Master.Ready.{on_ready_for_next_tasks-low_priority_iff}
use js_code_runner.Master.Verdict.{on_task-undispatched, on_task-le_limit}
use js_code_runner.Tests.States.{config, pid, task, created, ready, taken_from, ready-found}

-- A low priority threshold of one half.
abbrev master : Master
master = create_master 1 2 false ready

on_ready_for_next_tasks-low_priority_iff_example :
    ((on_ready_for_next_tasks master).low_priority_requested ≡ true) ↔ (
      (master.threshold_numerator ≢ 0)
      × (length master.workers_broker.busy_workers * master.threshold_denominator
          < master.threshold_numerator * master.workers_broker.concurrent_workers_limit)
      × (length master.workers_broker.busy_workers + 2
          ≤ master.workers_broker.concurrent_workers_limit))
unfolding create_master
on_ready_for_next_tasks-low_priority_iff_example =
    on_ready_for_next_tasks-low_priority_iff master refl refl

-- A task that has to be started within 10 milliseconds, and is read too late.
abbrev old_task : Task
old_task = record task { invocation_overhead_timeout = some 10 }

old : is_task_outdated 2000 old_task ≡ true
unfolding is_task_outdated ◌+ℤ◌
old = refl

fresh : is_task_outdated 2 task ≡ false
unfolding is_task_outdated
fresh = refl

-- A broker where two workers are busy with the app.
abbrev loaded_broker : Broker
loaded_broker = record (empty_broker (derive_options 4 pid config)) {
  apps_load = ("app", pos 2) ∷ [];
}

limit_reached : is_app_rate_limit_reached loaded_broker "app" ≡ true
unfolding is_app_rate_limit_reached empty_broker derive_options lookup get_app_rate_limit
limit_reached = refl

abbrev plain_master : Master
plain_master = create_master 0 1 false loaded_broker

abbrev compressing_master : Master
compressing_master = create_master 0 1 true loaded_broker

abbrev deflate : ℕ → List ℕ → Option (List ℕ)
deflate level bytes = some bytes

on_task-undispatched_example :
    let m' = on_task deflate none 2 main_tasks task compressing_master in
    (m'.workers_broker ≡ compressing_master.workers_broker)
    × (m'.requests ≡ (
        if is_task_outdated 2 task || compressing_master.compression_enabled
        then compressing_master.requests
        else pushes main_tasks task ∷ compressing_master.requests))
    × (m'.dispatches ≡ compressing_master.dispatches)
unfolding create_master
on_task-undispatched_example =
    on_task-undispatched deflate none 2 main_tasks task compressing_master
      (ground (arith, fresh, limit_reached))

Reach-ready : Reach created ready
unfolding on_worker_started relocate_worker move_worker account_if keep_min_if
    keep_min_idle_workers_count start_workers start_new_worker create_broker empty_broker
    derive_options
Reach-ready = next (next here (started 1 0 (omega arith))) (started 1 1 (omega arith))

ready-IsConsistent : IsConsistent ready
ready-IsConsistent = Reach-IsConsistent (create_broker-IsConsistent 0 4 pid config) Reach-ready

free :
    (is_app_rate_limit_reached ready "app" ≡ false)
    × (ready.rate_limit_enabled ≡ true)
    × (0 < get_app_rate_limit ready "app")
unfolding is_app_rate_limit_reached get_app_rate_limit lookup on_worker_started relocate_worker
    move_worker account_if keep_min_if keep_min_idle_workers_count start_workers start_new_worker
    create_broker empty_broker derive_options
free = (refl, refl, omega arith)

on_task-le_limit_example :
    let b' = (on_task deflate none 2 main_tasks task master).workers_broker in
    count_app b'.worker "app" b'.busy_workers ≤ get_app_rate_limit ready "app"
unfolding create_master
on_task-le_limit_example =
    on_task-le_limit deflate none 2 main_tasks task master 0 taken_from ready-IsConsistent fresh
      free.0 free.1 free.2 refl ready-found
