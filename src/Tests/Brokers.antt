-- ===== src/Tests/Brokers.antt =====
-- The theorems on the workers broker at the states of one run.
use js_code_runner.Common.{
  ℕ, ◌+◌, ◌≡◌, ◌≤◌, ◌<◌, refl, true, false, none, some, List, [], ◌∷◌, ◌++◌, occurs, arith, ◌↔◌,
  remove, get_elem?,
}
use js_code_runner.Common.Int.{pos}
use js_code_runner.Common.Dict.{lookup}
use js_code_runner.Broker.{
  Broker, sends, place, load_of, get_app_rate_limit, is_app_rate_limit_reached,
}
use js_code_runner.Broker.Pools.{
  start_new_worker, start_workers, keep_min_idle_workers_count, move_worker, account, account_if,
  keep_min_if, relocate_worker, kill_worker,
}
use js_code_runner.Broker.Dispatch.{
  found, waiting, evict_least_active, take_idle, search_from, get_worker_for_task, process_task,
}
use js_code_runner.Broker.Events.{
  on_worker_started, on_worker_message, on_idling_message, on_worker_idling, on_worker_exit,
  kill_all_app_workers,
}
use js_code_runner.Broker.Start.{
  create_broker, empty_broker, derive_options, create_broker-IsConsistent, Reach-load_of,
  Reach-pools_disjoint,
}
use js_code_runner.Broker.Invariant.{IsConsistent, count_app}
use js_code_runner.Broker.Invariant.Steps.{Reach-IsConsistent}
use js_code_runner.Broker.Isolation.Apps.{Reach-same_app}
use js_code_runner.Broker.RateLimit.{is_app_rate_limit_reached_iff}
use js_code_runner.Broker.Assign.{get_worker_for_task-progress}
use js_code_runner.Broker.Log.{killed_of}
use js_code_runner.Broker.Redeploy.{kill_all_app_workers-skips}
use js_code_runner.Broker.Stale.{on_worker_exit-starting}
use js_code_runner.Tests.States.{
  config, pid, created, taken_from, at_work, broker_of, both_cached, both_cached-IsConsistent,
  Reach-at_work, next_task, task_sent, at_work_again, Reach-at_work_again,
}

Reach-load_of_example :
    load_of at_work "app" ≡ pos (count_app at_work.worker "app" at_work.busy_workers)
Reach-load_of_example = Reach-load_of 0 4 pid config at_work "app" Reach-at_work

Reach-pools_disjoint_example :
    occurs 0 at_work.idle_workers + occurs 0 at_work.cached_workers + occurs 0 at_work.busy_workers
    ≤ 1
Reach-pools_disjoint_example = Reach-pools_disjoint 0 4 pid config at_work 0 Reach-at_work

sent_last : get_elem? at_work_again.effects 1 ≡ some (sends 0 next_task)
unfolding process_task get_worker_for_task search_from take_idle on_worker_started relocate_worker
    move_worker account_if account keep_min_if keep_min_idle_workers_count start_workers
    start_new_worker create_broker empty_broker derive_options on_worker_message on_idling_message
    on_worker_idling
sent_last = refl

sent_first : get_elem? at_work_again.effects 4 ≡ some (sends 0 task_sent)
unfolding process_task get_worker_for_task search_from take_idle on_worker_started relocate_worker
    move_worker account_if account keep_min_if keep_min_idle_workers_count start_workers
    start_new_worker create_broker empty_broker derive_options on_worker_message on_idling_message
    on_worker_idling
sent_first = refl

Reach-same_app_example : next_task.application_id ≡ task_sent.application_id
Reach-same_app_example =
    Reach-same_app 0 4 pid config at_work_again 0 next_task task_sent 1 4 Reach-at_work_again
      sent_last sent_first

pub at_work-IsConsistent : IsConsistent at_work
at_work-IsConsistent = Reach-IsConsistent (create_broker-IsConsistent 0 4 pid config) Reach-at_work

limit : 0 < get_app_rate_limit at_work "app"
unfolding get_app_rate_limit lookup process_task get_worker_for_task search_from take_idle
    on_worker_started relocate_worker move_worker account_if account keep_min_if
    keep_min_idle_workers_count start_workers start_new_worker create_broker empty_broker
    derive_options
limit = omega arith

is_app_rate_limit_reached_iff_example : (is_app_rate_limit_reached at_work "app" ≡ true) ↔ (
    (at_work.rate_limit_enabled ≡ true)
    × (get_app_rate_limit at_work "app" ≤ count_app at_work.worker "app" at_work.busy_workers))
is_app_rate_limit_reached_iff_example =
    is_app_rate_limit_reached_iff at_work "app" at_work-IsConsistent limit

born : 0 < taken_from.forked
unfolding get_worker_for_task search_from take_idle on_worker_started relocate_worker move_worker
    account_if keep_min_if keep_min_idle_workers_count start_workers start_new_worker create_broker
    empty_broker derive_options
born = omega arith

-- No worker is there: the task waits for one to be forked.
abbrev nobody : Broker
nobody = empty_broker (derive_options 4 pid config)

abbrev forking : Broker
forking = broker_of (get_worker_for_task 5 "app" true nobody)

must_wait : get_worker_for_task 5 "app" true nobody ≡ waiting 0 forking
unfolding get_worker_for_task search_from take_idle evict_least_active start_new_worker empty_broker
    derive_options
must_wait = refl

get_worker_for_task-progress_example :
    (v : ℕ) × (t : Broker) × (get_worker_for_task 7 "app" true (on_worker_started 7 0 forking)
      ≡ found v t)
get_worker_for_task-progress_example =
    get_worker_for_task-progress 5 7 "app" true nobody forking 0 must_wait

kill_all_app_workers-skips_example :
    let s' = kill_all_app_workers 8 "app" "deployed" both_cached in
    ((more : List ℕ) × (killed_of s'.effects ≡ more ++ 1 ∷ killed_of both_cached.effects)
      × (occurs 0 more ≡ 0))
    × ((rest : List ℕ) × (s'.cached_workers ≡ 0 ∷ rest) × (occurs 0 rest ≡ 0))
kill_all_app_workers-skips_example =
    kill_all_app_workers-skips 8 "app" "deployed" both_cached 1 0 [] both_cached-IsConsistent refl
      refl refl

-- A worker that is killed at work, and reports the end of its task nevertheless.
abbrev killed_at_work : Broker
killed_at_work = kill_worker 6 0 at_work

nowhere : place created 0 ≡ none
unfolding keep_min_idle_workers_count start_workers start_new_worker create_broker empty_broker
    derive_options
nowhere = refl

on_worker_exit-starting_example :
    ((on_worker_exit 3 0 false created).starting_workers_count ≡ created.starting_workers_count)
    × ((on_worker_exit 3 0 false created).forked ≡ created.forked)
    × ((on_worker_exit 3 0 false created).cluster_workers ≡ remove 0 created.cluster_workers)
on_worker_exit-starting_example = on_worker_exit-starting 3 0 false created nowhere
