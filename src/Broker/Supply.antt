-- ===== src/Broker/Supply.antt =====
-- How many workers keepMinIdleWorkersCount starts, and what starting a worker leaves alone.
use js_code_runner.Common.{
  ℕ, zero, suc, ◌+◌, ◌-◌, ◌≤◌, ◌<◌, ◌≡◌, refl, ◌∙◌, [], ◌∷◌, length, length-append, min, arith,
}
use js_code_runner.Broker.{Broker, get_started_workers_count}
use js_code_runner.Broker.Pools.{
  start_new_worker, start_workers, required_workers_count, keep_min_idle_workers_count,
}

start_workers-starting :
    (n now : ℕ) (s : Broker)
    → (start_workers n now s).starting_workers_count ≡ s.starting_workers_count + n
unfolding start_workers start_new_worker
start_workers-starting zero now s = omega arith
start_workers-starting (suc n) now s =
    omega (arith, start_workers-starting n now (start_new_worker now s))

start_workers-started :
    (n now : ℕ) (s : Broker)
    → get_started_workers_count (start_workers n now s) ≡ get_started_workers_count s + n
unfolding start_workers start_new_worker
start_workers-started zero now s = omega arith
start_workers-started (suc n) now s = omega (
  arith,
  start_workers-started n now (start_new_worker now s),
  length-append {0} s.cluster_workers (s.forked ∷ []),
)

-- A worker that is there already is not touched.
pub start_workers-worker :
    (n now w : ℕ) (s : Broker) → w < s.forked → (start_workers n now s).worker w ≡ s.worker w
unfolding start_workers start_new_worker
start_workers-worker zero now w s born = refl
start_workers-worker (suc n) now w s born =
    start_workers-worker n now w (start_new_worker now s) (omega arith) ∙ ground arith

pub start_workers-pools :
    (n now : ℕ) (s : Broker)
    → ((start_workers n now s).idle_workers ≡ s.idle_workers)
      × ((start_workers n now s).cached_workers ≡ s.cached_workers)
      × ((start_workers n now s).busy_workers ≡ s.busy_workers)
unfolding start_workers start_new_worker
start_workers-pools zero now s = (refl, refl, refl)
start_workers-pools (suc n) now s = start_workers-pools n now (start_new_worker now s)

pub start_workers-apps_load :
    (n now : ℕ) (s : Broker)
    → ((start_workers n now s).apps_load ≡ s.apps_load)
      × ((start_workers n now s).options ≡ s.options)
unfolding start_workers start_new_worker
start_workers-apps_load zero now s = (refl, refl)
start_workers-apps_load (suc n) now s = start_workers-apps_load n now (start_new_worker now s)

-- Keeping the minimum of idle workers tops the number of starting workers up to the idle workers that
-- are missing, or to the room left under the limit on workers if that is less, and every worker it
-- starts is a new one of the cluster.
pub keep_min_idle_workers_count-starting :
    (now : ℕ) (s : Broker)
    → let s' = keep_min_idle_workers_count now s in
      let wanting = s.min_idle_workers_count - length s.idle_workers in
      let allowed = s.concurrent_workers_limit - get_started_workers_count s in
      (s'.starting_workers_count
        ≡ s.starting_workers_count + (min wanting allowed - s.starting_workers_count))
      × (get_started_workers_count s'
          ≡ get_started_workers_count s + (min wanting allowed - s.starting_workers_count))
unfolding keep_min_idle_workers_count
keep_min_idle_workers_count-starting now s = (
  start_workers-starting (required_workers_count s) now s,
  start_workers-started (required_workers_count s) now s,
)

-- Keeping the minimum of idle workers does not take a cluster above the limit on workers.
pub keep_min_idle_workers_count-le_limit :
    (now : ℕ) (s : Broker)
    → get_started_workers_count s ≤ s.concurrent_workers_limit
    → get_started_workers_count (keep_min_idle_workers_count now s) ≤ s.concurrent_workers_limit
keep_min_idle_workers_count-le_limit now s h =
    omega (arith, keep_min_idle_workers_count-starting now s)
