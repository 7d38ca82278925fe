-- ===== src/Broker/Isolation/Moves.antt =====
-- The invariant of isolation through the start of a worker and its way between the pools.
use js_code_runner.Common.{
  ℕ, zero, suc, ◌≡◌, ◌≢◌, refl, ◌∙◌, String, Bool, true, false, Option, none, occurs, occurs-remove,
  arith,
}
use js_code_runner.Broker.{Broker, Worker, Place, idle, at}
use js_code_runner.Broker.Pools.{
  set_worker, start_new_worker, start_workers, keep_min_idle_workers_count, move_worker, moved,
  account, account_if, keep_min_if, relocate_worker, kill_worker,
}
use js_code_runner.Broker.Isolation.{count_sent, count_foreign, IsFresh, IsApart, IsIsolated}

-- A state with the same history, whose workers have the same apps, start no anew, and are idle only
-- where they were or are fresh.
pub IsIsolated-carry :
    (s t : Broker)
    → ((w : ℕ) → count_sent w t.effects ≡ count_sent w s.effects)
    → ((w : ℕ) (app : String) → count_foreign w app t.effects ≡ count_foreign w app s.effects)
    → ((w : ℕ) → (t.worker w).app_id ≡ (s.worker w).app_id)
    → ((w : ℕ) → (t.worker w).awaits_started ≡ true → (s.worker w).awaits_started ≡ true)
    → ((w : ℕ) → (t.worker w).awaits_started ≡ true → IsApart t w)
    → ((w : ℕ) → occurs w t.idle_workers ≢ 0 → IsFresh s w)
    → s.forked ≡ t.forked
    → IsIsolated s
    → IsIsolated t
IsIsolated-carry s t sent foreign app starting apart idle_now same c = record {
  idle_fresh = λ w h. let (n, a) = idle_now w h in (sent w ∙ n, app w ∙ a);
  starting_fresh = λ w h. let (n, a) = c.starting_fresh w (starting w h) in (sent w ∙ n, app w ∙ a);
  starting_apart = apart;
  unborn_fresh = λ w h. let (n, a) = c.unborn_fresh w (omega arith) in (sent w ∙ n, app w ∙ a);
  own = λ w a h. foreign w a ∙ c.own w a (rw (← app w) h);
  single = λ w h. omega (arith, sent w, c.single w (rw (← app w) h));
}

pub start_new_worker-IsIsolated :
    (now : ℕ) (s : Broker) → IsIsolated s → IsIsolated (start_new_worker now s)
unfolding start_new_worker count_sent count_foreign
start_new_worker-IsIsolated now s c = record {
  idle_fresh = λ w h. ground (arith, c.idle_fresh w h);
  starting_fresh = λ w h. ground (arith, c.starting_fresh w, c.unborn_fresh w);
  starting_apart = λ w h. ground (arith, c.starting_apart w);
  unborn_fresh = λ w h. ground (arith, c.unborn_fresh w);
  own = λ w app h. ground (arith, c.own w app);
  single = λ w h. ground (arith, c.single w, c.unborn_fresh w);
}

pub start_workers-IsIsolated :
    (n now : ℕ) (s : Broker) → IsIsolated s → IsIsolated (start_workers n now s)
unfolding start_workers
start_workers-IsIsolated zero now s c = c
start_workers-IsIsolated (suc n) now s c =
    start_workers-IsIsolated n now _ (start_new_worker-IsIsolated now s c)

keep_min_if-IsIsolated :
    (b : Bool) (now : ℕ) (s : Broker) → IsIsolated s → IsIsolated (keep_min_if b now s)
unfolding keep_min_if keep_min_idle_workers_count
keep_min_if-IsIsolated true now s c = start_workers-IsIsolated _ now s c
keep_min_if-IsIsolated false now s c = c

account-IsIsolated :
    (b : Bool) (w : ℕ) (to_busy : Bool) (s : Broker)
    → IsIsolated s
    → IsIsolated (account_if b w to_busy s)
unfolding account_if account count_sent count_foreign
account-IsIsolated true w to_busy s c =
    IsIsolated-carry s _ (λ v. ground arith) (λ v a. ground arith) (λ v. refl) (λ v h. h)
      c.starting_apart c.idle_fresh refl c
account-IsIsolated false w to_busy s c = c

moved-same :
    (now : ℕ) (s : Broker) (new : Option Place) (x : Worker)
    → ((moved now s new x).app_id ≡ x.app_id)
      × ((moved now s new x).awaits_started ≡ x.awaits_started)
      × ((moved now s new x).task ≡ x.task)
moved-same now s new x = (ground arith, ground arith, ground arith)

move_worker-IsIsolated :
    (now w : ℕ) (new : Option Place) (s : Broker)
    → (at idle new ≡ true → IsFresh s w)
    → ((s.worker w).awaits_started ≡ true → new ≡ none)
    → IsIsolated s
    → IsIsolated (move_worker now w new s)
unfolding move_worker
move_worker-IsIsolated now w new s fresh started c =
    IsIsolated-carry s _ (λ v. refl) (λ v a. refl)
      (λ v. ground (arith, moved-same now s new (s.worker w)))
      (λ v h. ground (arith, moved-same now s new (s.worker w)))
      (λ v h.
        ground (
          arith,
          started,
          moved-same now s new (s.worker w),
          c.starting_apart v,
          c.starting_apart w,
        ))
      (λ v h. ground (arith, fresh, c.idle_fresh v, occurs-remove v w s.idle_workers)) refl c

pub relocate_worker-IsIsolated :
    (now w : ℕ) (new : Option Place) (s : Broker)
    → (at idle new ≡ true → IsFresh s w)
    → ((s.worker w).awaits_started ≡ true → new ≡ none)
    → IsIsolated s
    → IsIsolated (relocate_worker now w new s)
unfolding relocate_worker
relocate_worker-IsIsolated now w new s fresh started c =
    keep_min_if-IsIsolated _ now _
      (account-IsIsolated _ w _ _ (move_worker-IsIsolated now w new s fresh started c))

-- A worker object that changes neither its app nor its start.
pub set_worker-IsIsolated :
    (w : ℕ) (x : Worker) (s : Broker)
    → x.app_id ≡ (s.worker w).app_id
    → (x.awaits_started ≡ true → (s.worker w).awaits_started ≡ true)
    → (x.awaits_started ≡ true → (x.current_place ≡ none) × (x.task ≡ none))
    → IsIsolated s
    → IsIsolated (set_worker w x s)
set_worker-IsIsolated w x s same starting apart c =
    IsIsolated-carry s _ (λ v. refl) (λ v a. refl) (λ v. ground (arith, same))
      (λ v h. ground (arith, starting)) (λ v h. ground (arith, apart, c.starting_apart v))
      c.idle_fresh refl c

pub kill_worker-IsIsolated :
    (now w : ℕ) (s : Broker) → IsIsolated s → IsIsolated (kill_worker now w s)
unfolding kill_worker count_sent count_foreign
kill_worker-IsIsolated now w s c =
    let d = relocate_worker-IsIsolated now w none s (λ h. absurd (ground arith)) (λ h. refl) c in
    IsIsolated-carry _ _ (λ v. refl) (λ v a. refl) (λ v. ground arith) (λ v h. ground arith)
      (λ v h. ground (arith, d.starting_apart v)) d.idle_fresh refl d
