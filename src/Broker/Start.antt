-- ===== src/Broker/Start.antt =====
-- lib/server-code/runners/cloud-workers-broker.js, the constructor of WorkersBroker: the options that
-- it derives from the configuration, and the first workers. What holds in every state that the broker
-- can come to from there.
use js_code_runner.Common.{
  ℕ, zero, suc, ◌+◌, ◌*◌, ◌≤◌, ◌≡◌, refl, String, Bool, Option, none, some, List, [], occurs, min,
  arith, if◌then◌else◌, ◌==◌,
}
use js_code_runner.Common.Int.{ℤ, pos, pos_part}
use js_code_runner.Common.Dict.{lookup}
use js_code_runner.Broker.{Broker, Options, good, load_of, or_zero, get_started_workers_count}
use js_code_runner.Broker.Pools.{new_worker, keep_min_idle_workers_count}
use js_code_runner.Broker.Invariant.{IsConsistent, count_app}
use js_code_runner.Broker.Invariant.Moves.{start_workers-IsConsistent}
use js_code_runner.Broker.Invariant.Steps.{Reach, Reach-IsConsistent}
use js_code_runner.Broker.Supply.{keep_min_idle_workers_count-starting}

-- `options.cache`: missing or false, true, or an object with its limit.
pub data CacheOption : Type 0 where
  no_cache default_cache : CacheOption
  cache_limit : Option ℕ → CacheOption

-- The configuration: `options` and `rateLimit` of the code runner's options. Times are in seconds.
pub record WorkersConfig : Type 0 where
  pub heartbeat_timeout : ℕ
  pub heartbeat_code_inspection_timeout : ℕ
  pub concurrent : Option ℕ
  pub min_idle : Option ℤ
  pub cache : CacheOption
  pub cached_idle_ttl : Option ℕ
  pub rate_limit_enabled : Bool
  pub rate_limit_default : ℕ
  pub rate_limit_overrides : List (String × ℕ)

-- `a || b`
abbrev or_number : Option ℕ → ℕ → ℕ
or_number none b = b
or_number (some a) b = if a == 0 then b else a

abbrev concurrent_limit : ℕ → WorkersConfig → ℕ
concurrent_limit cpus c = or_number c.concurrent cpus

abbrev cached_limit : ℕ → CacheOption → Option ℕ
cached_limit limit no_cache = none
cached_limit limit default_cache = some (4 * limit)
cached_limit limit (cache_limit n) = n

abbrev cached_ttl : CacheOption → Option ℕ → Option ℕ
cached_ttl no_cache ttl = none
cached_ttl _ none = none
cached_ttl _ (some zero) = none
cached_ttl _ (some (suc n)) = some (suc n * 1000)

-- `Math.min(Math.max(minIdle || 0, 0), limit)`: the positive part of a number is its maximum with 0.
unfoldable pub derive_options : ℕ → (ℕ → ℕ) → WorkersConfig → Options
derive_options cpus pid c = record {
  default_heartbeat_timeout = c.heartbeat_timeout * 1000;
  code_inspection_heartbeat_timeout = c.heartbeat_code_inspection_timeout * 1000;
  concurrent_workers_limit = concurrent_limit cpus c;
  min_idle_workers_count = min (pos_part (or_zero c.min_idle)) (concurrent_limit cpus c);
  cached_workers_limit = cached_limit (concurrent_limit cpus c) c.cache;
  cached_workers_idle_ttl = cached_ttl c.cache c.cached_idle_ttl;
  rate_limit_enabled = c.rate_limit_enabled;
  rate_limit_default = c.rate_limit_default;
  rate_limit_overrides = c.rate_limit_overrides;
  pid_of_fork = pid;
}

-- The fields before any worker starts.
unfoldable pub empty_broker : Options → Broker
empty_broker o = record {
  options = o;
  status = good;
  starting_workers_count = 0;
  idle_workers = [];
  cached_workers = [];
  busy_workers = [];
  apps_load = [];
  stopper = none;
  worker = λ w. new_worker (o.pid_of_fork w) 0;
  forked = 0;
  cluster_workers = [];
  effects = [];
}

unfoldable pub create_broker : ℕ → ℕ → (ℕ → ℕ) → WorkersConfig → Broker
create_broker now cpus pid c =
    keep_min_idle_workers_count now (empty_broker (derive_options cpus pid c))

-- A new broker has started as many workers as are to be kept idle: no more than the limit on workers,
-- and exactly the configured number where that is no more than the limit.
pub create_broker-starting :
    (now cpus : ℕ) (pid : ℕ → ℕ) (c : WorkersConfig)
    → let s = create_broker now cpus pid c in
      (s.starting_workers_count ≡ min (pos_part (or_zero c.min_idle)) (concurrent_limit cpus c))
      × (get_started_workers_count s ≡ s.starting_workers_count)
      × (get_started_workers_count s ≤ concurrent_limit cpus c)
unfolding create_broker empty_broker derive_options
create_broker-starting now cpus pid c =
    let h = keep_min_idle_workers_count-starting now (empty_broker (derive_options cpus pid c)) in
    (omega (arith, h), omega (arith, h), omega (arith, h))

empty_broker-IsConsistent : (o : Options) → IsConsistent (empty_broker o)
unfolding empty_broker lookup count_app
empty_broker-IsConsistent o = record {
  idle_once = λ w. ground arith;
  cached_once = λ w. ground arith;
  busy_once = λ w. ground arith;
  unborn = λ w h. refl;
  load = λ a. refl;
}

pub create_broker-IsConsistent :
    (now cpus : ℕ) (pid : ℕ → ℕ) (c : WorkersConfig) → IsConsistent (create_broker now cpus pid c)
unfolding create_broker keep_min_idle_workers_count
create_broker-IsConsistent now cpus pid c =
    start_workers-IsConsistent _ now _ (empty_broker-IsConsistent _)

-- In every state that a broker comes to, `appsLoad` of each app is the number of the busy workers that
-- belong to it.
pub Reach-load_of :
    (now cpus : ℕ) (pid : ℕ → ℕ) (c : WorkersConfig) (s : Broker) (app : String)
    → Reach (create_broker now cpus pid c) s
    → load_of s app ≡ pos (count_app s.worker app s.busy_workers)
Reach-load_of now cpus pid c s app r =
    (Reach-IsConsistent (create_broker-IsConsistent now cpus pid c) r).load app

-- In every state that a broker comes to no worker is twice in the pools: not in two of them, nor twice
-- in one.
pub Reach-pools_disjoint :
    (now cpus : ℕ) (pid : ℕ → ℕ) (c : WorkersConfig) (s : Broker) (w : ℕ)
    → Reach (create_broker now cpus pid c) s
    → occurs w s.idle_workers + occurs w s.cached_workers + occurs w s.busy_workers ≤ 1
Reach-pools_disjoint now cpus pid c s w r =
    let v = Reach-IsConsistent (create_broker-IsConsistent now cpus pid c) r in
    ground (arith, v.idle_once w, v.cached_once w, v.busy_once w)
