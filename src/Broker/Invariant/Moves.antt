-- ===== src/Broker/Invariant/Moves.antt =====
-- The invariant is kept by starting workers, by changing a worker object in other fields, by moving a
-- worker between the pools, and by killing one.
use js_code_runner.Common.{
  ℕ, zero, suc, ◌≤◌, ◌≡◌, refl, String, Bool, true, false, if◌then◌else◌, Option, remove, none,
  occurs, occurs-remove, arith, eq_iff, ◌||◌, ◌&&◌, ap, sym, ◌∙◌,
}
use js_code_runner.Common.Int.{pos, negsuc, ◌+ℤ◌}
use js_code_runner.Common.Dict.{lookup-insert}
use js_code_runner.Broker.{Broker, Worker, Place, idle, cached, busy, at, place, key, load_of}
use js_code_runner.Broker.Pools.{
  set_worker, start_new_worker, start_workers, keep_min_idle_workers_count, move_worker, account,
  account_if, keep_min_if, relocate_worker, kill_worker, moved, set_killed,
}
use js_code_runner.Broker.Invariant.{IsConsistent, count_app}
use js_code_runner.Broker.Invariant.Count.{
  count_app-update_absent, count_app-update_same, count_app-remove,
}

-- A change of a worker object that leaves its place and its app alone.
pub set_worker-IsConsistent :
    (w : ℕ) (x : Worker) (s : Broker)
    → x.current_place ≡ place s w
    → x.app_id ≡ (s.worker w).app_id
    → IsConsistent s
    → IsConsistent (set_worker w x s)
set_worker-IsConsistent w x s p a c = record {
  idle_once = λ v. ground (arith, c.idle_once v);
  cached_once = λ v. ground (arith, c.cached_once v);
  busy_once = λ v. ground (arith, c.busy_once v);
  unborn = λ v h. ground (arith, c.unborn v h);
  load = λ b. c.load b ∙ ap pos (sym (count_app-update_same s.worker w x b s.busy_workers a));
}

pub start_new_worker-IsConsistent :
    (now : ℕ) (s : Broker) → IsConsistent s → IsConsistent (start_new_worker now s)
unfolding start_new_worker
start_new_worker-IsConsistent now s c = record {
  idle_once = λ v. ground (arith, c.idle_once v, c.unborn v);
  cached_once = λ v. ground (arith, c.cached_once v, c.unborn v);
  busy_once = λ v. ground (arith, c.busy_once v, c.unborn v);
  unborn = λ v h. ground (arith, c.unborn v (omega arith));
  load = λ b.
      c.load b
      ∙ ap pos (
          sym (
            count_app-update_absent s.worker s.forked _ b s.busy_workers
              (ground (arith, c.busy_once s.forked, c.unborn s.forked))));
}

pub start_workers-IsConsistent :
    (n now : ℕ) (s : Broker) → IsConsistent s → IsConsistent (start_workers n now s)
unfolding start_workers
start_workers-IsConsistent zero now s c = c
start_workers-IsConsistent (suc n) now s c =
    start_workers-IsConsistent n now _ (start_new_worker-IsConsistent now s c)

keep_min_if-IsConsistent :
    (b : Bool) (now : ℕ) (s : Broker) → IsConsistent s → IsConsistent (keep_min_if b now s)
unfolding keep_min_if keep_min_idle_workers_count
keep_min_if-IsConsistent true now s c = start_workers-IsConsistent _ now s c
keep_min_if-IsConsistent false now s c = c

-- relocateWorker without its last step.
abbrev reseat : ℕ → ℕ → Option Place → Broker → Broker
reseat now w new s =
    account_if (at busy (place s w) || at busy new) w (at busy new) (move_worker now w new s)

moved_place :
    (now : ℕ) (s : Broker) (new : Option Place) (x : Worker)
    → ((moved now s new x).current_place ≡ new) × ((moved now s new x).app_id ≡ x.app_id)
moved_place now s new x = (refl, ground arith)

module _ (now w : ℕ) (new : Option Place) (s : Broker) (c : IsConsistent s) where
  reseat-idle_once :
      (v : ℕ)
      → occurs v (reseat now w new s).idle_workers
        ≤ (if at idle (place (reseat now w new s) v) then 1 else 0)
  unfolding account_if account move_worker
  reseat-idle_once v =
      ground (arith, c.idle_once v, c.idle_once w, occurs-remove v w s.idle_workers)

  reseat-cached_once :
      (v : ℕ)
      → occurs v (reseat now w new s).cached_workers
        ≤ (if at cached (place (reseat now w new s) v) then 1 else 0)
  unfolding account_if account move_worker
  reseat-cached_once v =
      ground (arith, c.cached_once v, c.cached_once w, occurs-remove v w s.cached_workers)

  reseat-busy_once :
      (v : ℕ)
      → occurs v (reseat now w new s).busy_workers
        ≡ (if at busy (place (reseat now w new s) v) then 1 else 0)
  unfolding account_if account move_worker
  reseat-busy_once v =
      ground (arith, c.busy_once v, c.busy_once w, occurs-remove v w s.busy_workers)

  reseat-unborn :
      (s.forked ≤ w → new ≡ none)
      → (v : ℕ) → (reseat now w new s).forked ≤ v
      → place (reseat now w new s) v ≡ none
  unfolding account_if account move_worker
  reseat-unborn born v h = ground (arith, c.unborn v, born)

  -- The count of the app `a` over the busy workers, and what `appsLoad` gets for it.
  reseat-load :
      (at busy (place s w) && at busy new) ≡ false
      → (a : String)
      → load_of (reseat now w new s) a
        ≡ pos (count_app (reseat now w new s).worker a (reseat now w new s).busy_workers)
  unfolding account_if account move_worker count_app ◌+ℤ◌
  reseat-load apart a =
      let f = s.worker in
      let k = key (f w).app_id in
      let x = moved now s new (f w) in
      let same = (moved_place now s new (f w)).1 in
      ground (
        arith,
        eq_iff k a,
        lookup-insert k a (load_of s k +ℤ pos 1) s.apps_load,
        lookup-insert k a (load_of s k +ℤ negsuc 0) s.apps_load,
        c.load a,
        c.load k,
        c.busy_once w,
        same,
        count_app-update_same f w x a s.busy_workers same,
        count_app-update_same f w x a (remove w s.busy_workers) same,
        count_app-remove f w a s.busy_workers,
      )

  pub reseat-IsConsistent :
      (s.forked ≤ w → new ≡ none)
      → (at busy (place s w) && at busy new) ≡ false
      → IsConsistent (reseat now w new s)
  reseat-IsConsistent born apart = record {
    idle_once = reseat-idle_once;
    cached_once = reseat-cached_once;
    busy_once = reseat-busy_once;
    unborn = reseat-unborn born;
    load = reseat-load apart;
  }

  pub relocate_worker-IsConsistent :
      (s.forked ≤ w → new ≡ none)
      → (at busy (place s w) && at busy new) ≡ false
      → IsConsistent (relocate_worker now w new s)
  unfolding relocate_worker
  relocate_worker-IsConsistent born apart =
      keep_min_if-IsConsistent _ now _ (reseat-IsConsistent born apart)

-- The effects, the timers and the counters play no part.
pub IsConsistent-same :
    (s t : Broker)
    → t.idle_workers ≡ s.idle_workers
    → t.cached_workers ≡ s.cached_workers
    → t.busy_workers ≡ s.busy_workers
    → t.worker ≡ s.worker
    → t.forked ≡ s.forked
    → t.apps_load ≡ s.apps_load
    → IsConsistent s
    → IsConsistent t
IsConsistent-same s t i k b f n l c = record {
  idle_once = λ v. rw (i, f) (c.idle_once v);
  cached_once = λ v. rw (k, f) (c.cached_once v);
  busy_once = λ v. rw (b, f) (c.busy_once v);
  unborn = λ v. rw (n, f) (c.unborn v);
  load = λ a. rw (l, b, f) (c.load a);
}

-- Any worker may leave all pools, whatever its place.
pub kill_worker-IsConsistent :
    (now w : ℕ) (s : Broker) → IsConsistent s → IsConsistent (kill_worker now w s)
unfolding kill_worker
kill_worker-IsConsistent now w s c =
    let s' = relocate_worker now w none s in
    let killed : Worker = record (s'.worker w) { killed = true } in
    IsConsistent-same (set_worker w killed s') (set_killed w s') refl refl refl refl refl refl (
      set_worker-IsConsistent w killed s' refl refl
        (relocate_worker-IsConsistent now w none s c (λ _. refl) (ground arith)))
