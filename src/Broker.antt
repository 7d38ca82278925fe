-- ===== src/Broker.antt =====
-- lib/server-code/runners/cloud-workers-broker.js, the class WorkersBroker: its options, its state
-- and the methods that only read it. The worker objects of `cluster` are shared and mutated, so they
-- live in a store: a worker is named by the number of the fork that made it, and `worker` gives the
-- object behind a name. The calls that leave the program (fork, send, kill, emit) are recorded in
-- `effects`, the latest first. The time is an argument of the calls that read the clock.
pub mod Pools
pub mod Dispatch
pub mod Events
pub mod Timers
pub mod Invariant
pub mod Start
pub mod Supply
pub mod Log
pub mod Assign
pub mod Load
pub mod RateLimit
pub mod Redeploy
pub mod Stale
pub mod Isolation
use js_code_runner.Common.{
  ℕ, suc, ◌+◌, ◌-◌, ◌*◌, String, Bool, true, false, ◌&&◌, not, Option, none, some, List, length,
  ltb, leb, if◌then◌else◌, ◌==◌,
}
use js_code_runner.Common.Int.{ℤ, pos, ltb_ℤ}
use js_code_runner.Common.Dict.{lookup}
use js_code_runner.Task.{Task}

pub data Place : Type 0 where
  idle cached busy : Place

-- The property `currentPlace` of a worker, compared with one of the three arrays.
abbrev pub at : Place → Option Place → Bool
at p none = false
at idle (some idle) = true
at cached (some cached) = true
at busy (some busy) = true
at _ (some _) = false

pub data Status : Type 0 where
  critical warning good : Status

-- What the broker asks of the operating system and of its listeners.
pub data Effect : Type 0 where
  forks : ℕ → Effect
  sends : ℕ → Task → Effect
  kills : ℕ → Effect
  ready_for_next_task : Effect
  task_processed : Option Task → Option String → Effect

pub record Worker : Type 0 where
  pub pid : ℕ
  pub heartbeat : ℕ
  pub awaits_started : Bool
  pub app_id : Option String
  pub current_place : Option Place
  pub task : Option Task
  pub expire_timer : Option ℤ
  pub idling_timer : Option ℕ
  pub start_idling_time : Option ℕ
  pub to_be_removed : Bool
  pub to_be_removed_reason : Option String
  pub killed : Bool

-- `cached_workers_limit` is missing or 0 when the cache is off.
pub record Options : Type 0 where
  pub default_heartbeat_timeout : ℕ
  pub code_inspection_heartbeat_timeout : ℕ
  pub concurrent_workers_limit : ℕ
  pub min_idle_workers_count : ℕ
  pub cached_workers_limit : Option ℕ
  pub cached_workers_idle_ttl : Option ℕ
  pub rate_limit_enabled : Bool
  pub rate_limit_default : ℕ
  pub rate_limit_overrides : List (String × ℕ)
  pub pid_of_fork : ℕ → ℕ

pub record Broker : Type 0 where
  pub options : Options
  pub open options use *
  pub status : Status
  pub starting_workers_count : ℕ
  pub idle_workers : List ℕ
  pub cached_workers : List ℕ
  pub busy_workers : List ℕ
  pub apps_load : List (String × ℤ)
  pub stopper : Option Bool
  pub worker : ℕ → Worker
  pub forked : ℕ
  pub cluster_workers : List ℕ
  pub effects : List Effect

abbrev pub place : Broker → ℕ → Option Place
place s w = (s.worker w).current_place

-- A property name: `undefined` turns into text.
abbrev pub key : Option String → String
key none = "undefined"
key (some a) = a

abbrev pub is_some {ℓ} : {A : Type ℓ} → Option A → Bool
is_some none = false
is_some (some _) = true

-- A number that is missing or 0 is falsy.
abbrev pub truthy : Option ℕ → Bool
truthy none = false
truthy (some n) = not (n == 0)

abbrev pub is_cache_enabled : Broker → Bool
is_cache_enabled s = truthy s.cached_workers_limit

abbrev pub is_available_for_task_processing : Broker → Bool
is_available_for_task_processing s =
    not (is_some s.stopper) && ltb (length s.busy_workers) s.concurrent_workers_limit

unfoldable pub get_available_workers_count : Broker → ℕ
get_available_workers_count s = s.concurrent_workers_limit - length s.busy_workers

abbrev pub get_started_workers_count : Broker → ℕ
get_started_workers_count s = length s.cluster_workers

-- The load is the fraction of busy workers; `load > n / 10` without the division.
abbrev pub is_load_above : Broker → ℕ → Bool
is_load_above s n = ltb (n * s.concurrent_workers_limit) (10 * length s.busy_workers)

unfoldable pub update_status : Broker → Broker
update_status s = record s {
  status = if is_load_above s 9 then critical else if is_load_above s 7 then warning else good;
}

-- An override that is missing or 0 is falsy: the default stands.
unfoldable pub get_app_rate_limit : Broker → String → ℕ
unfolding lookup
get_app_rate_limit s app = elim (lookup app s.rate_limit_overrides) [
  | none ↦ s.rate_limit_default
  | some n ↦ if n == 0 then s.rate_limit_default else n
]

abbrev pub or_zero : Option ℤ → ℤ
or_zero none = pos 0
or_zero (some z) = z

abbrev pub load_of : Broker → String → ℤ
load_of s app = or_zero (lookup app s.apps_load)

-- `undefined >= limit` is false.
abbrev pub at_least : Option ℤ → ℕ → Bool
at_least none limit = false
at_least (some load) limit = not (ltb_ℤ load (pos limit))

unfoldable pub is_app_rate_limit_reached : Broker → String → Bool
is_app_rate_limit_reached s app =
    if not s.rate_limit_enabled
    then false
    else at_least (lookup app s.apps_load) (get_app_rate_limit s app)
