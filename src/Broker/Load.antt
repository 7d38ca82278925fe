-- ===== src/Broker/Load.antt =====
-- The load of the apps when a task is assigned: what a search and the dispatch do to it.
use js_code_runner.Common.{
  ℕ, ◌≡◌, refl, ◌∙◌, String, Bool, true, false, ◌||◌, Option, none, some, List, arith, pop, ap,
  Option-cases, inl, inr,
}
use js_code_runner.Common.Int.{ℤ, pos, ◌+ℤ◌}
use js_code_runner.Common.Dict.{lookup, insert, lookup-insert}
use text.Mathlib.TextPositions.{eq_refl}
use js_code_runner.Task.{Task}
use js_code_runner.Broker.{Broker, key, load_of, or_zero}
use js_code_runner.Broker.Pools.{
  keep_min_idle_workers_count, move_worker, account, account_if, keep_min_if, relocate_worker,
}
use js_code_runner.Broker.Dispatch.{
  found, take_idle, search_from, get_worker_for_task, process_task,
}
use js_code_runner.Broker.Supply.{start_workers-apps_load}

keep_min_if-apps_load :
    (b : Bool) (now : ℕ) (s : Broker)
    → ((keep_min_if b now s).apps_load ≡ s.apps_load) × ((keep_min_if b now s).options ≡ s.options)
unfolding keep_min_if keep_min_idle_workers_count
keep_min_if-apps_load true now s = start_workers-apps_load _ now s
keep_min_if-apps_load false now s = (refl, refl)

or_true : (b : Bool) → (b || true) ≡ true
or_true true = refl
or_true false = refl

account_if-options :
    (b : Bool) (w : ℕ) (to_busy : Bool) (s : Broker)
    → (account_if b w to_busy s).options ≡ s.options
unfolding account_if account
account_if-options true w to_busy s = refl
account_if-options false w to_busy s = refl

lookup-add :
    (k app : String) (m : List (String × ℤ))
    → k ≡ app
    → or_zero (lookup app (insert k (or_zero (lookup k m) +ℤ pos 1) m))
      ≡ or_zero (lookup app m) +ℤ pos 1
lookup-add k app m e = rw e (simp (lookup-insert, eq_refl))

account_if-load_of :
    (b : Bool) (w : ℕ) (s : Broker) (app : String)
    → b ≡ true
    → (s.worker w).app_id ≡ some app
    → load_of (account_if b w true s) app ≡ load_of s app +ℤ pos 1
unfolding account_if account
account_if-load_of false w s app b of_app = cc
account_if-load_of true w s app b of_app =
    lookup-add (key (s.worker w).app_id) app s.apps_load (ap key of_app)

-- A task that a worker is given adds one to the load of the worker's app.
pub process_task-load_of :
    (now : ℕ) (task : Task) (w : ℕ) (s : Broker) (app : String)
    → (s.worker w).app_id ≡ some app
    → load_of (process_task now task w s) app ≡ load_of s app +ℤ pos 1
unfolding process_task relocate_worker move_worker
process_task-load_of now task w s app of_app =
    ap (λ (l : List (String × ℤ)). or_zero (lookup app l)) (keep_min_if-apps_load _ now _).0
    ∙ account_if-load_of _ w _ app (or_true _) (ground (arith, of_app))

pub process_task-options :
    (now : ℕ) (task : Task) (w : ℕ) (s : Broker) → (process_task now task w s).options ≡ s.options
unfolding process_task relocate_worker move_worker
process_task-options now task w s =
    (keep_min_if-apps_load _ now _).1 ∙ account_if-options _ w true _

search_from-same :
    (now : ℕ) (app : String) (cacheable : Bool) (s : Broker) (r : Option ℕ) (w : ℕ) (t : Broker)
    → search_from now app cacheable s r ≡ found w t
    → (t.apps_load ≡ s.apps_load)
      × (t.options ≡ s.options)
      × (t.busy_workers ≡ s.busy_workers)
      × (t.effects ≡ s.effects)
unfolding search_from take_idle
search_from-same now app cacheable s (some v) w t e =
    (ground arith, ground arith, ground arith, ground arith)
search_from-same now app cacheable s none w t e = elim (Option-cases (pop s.idle_workers)) [
  | inl empty ↦ absurd (ground (arith, empty))
  | inr ((v, rest), popped) ↦ (
    ground (arith, popped),
    ground (arith, popped),
    ground (arith, popped),
    ground (arith, popped),
  )
]

-- A search that succeeds leaves the load of the apps and the busy workers alone,
-- and sends nothing.
pub get_worker_for_task-same :
    (now : ℕ) (app : String) (cacheable : Bool) (s : Broker) (w : ℕ) (t : Broker)
    → get_worker_for_task now app cacheable s ≡ found w t
    → (t.apps_load ≡ s.apps_load)
      × (t.options ≡ s.options)
      × (t.busy_workers ≡ s.busy_workers)
      × (t.effects ≡ s.effects)
unfolding get_worker_for_task
get_worker_for_task-same now app cacheable s w t e = search_from-same now app cacheable s _ w t e
