-- ===== src/Broker/Stale.antt =====
-- Messages of workers that the broker has given up: a killed worker that still reports is put back
-- among the cached workers and stays there, and a worker that exits before it has started is counted
-- as starting for ever.
use js_code_runner.Common.{ℕ, ◌≡◌, Bool, none, remove, arith}
use js_code_runner.Task.{Task}
use js_code_runner.Broker.{Broker, place}
use js_code_runner.Broker.Pools.{move_worker, account_if, keep_min_if, relocate_worker}
use js_code_runner.Broker.Events.{on_worker_exit}

-- The exit of a worker that is in no pool, as it is before it has started, leaves the number of
-- starting workers as it was, and no other worker is started for it.
pub on_worker_exit-starting :
    (now w : ℕ) (after : Bool) (s : Broker)
    → place s w ≡ none
    → ((on_worker_exit now w after s).starting_workers_count ≡ s.starting_workers_count)
      × ((on_worker_exit now w after s).forked ≡ s.forked)
      × ((on_worker_exit now w after s).cluster_workers ≡ remove w s.cluster_workers)
unfolding on_worker_exit relocate_worker account_if keep_min_if move_worker
on_worker_exit-starting now w after s nowhere = (ground arith, ground arith, ground arith)
