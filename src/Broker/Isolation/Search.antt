-- ===== src/Broker/Isolation/Search.antt =====
-- The invariant of isolation through the search for a worker, and through sending it a task.
use js_code_runner.Common.{
  ℕ, ◌≤◌, ◌<◌, ◌≡◌, ◌≢◌, refl, String, Bool, true, false, Option, none, some, List, [], ◌∷◌, occurs,
  pop, pop-occurs, arith, eq_iff, ◌⊎◌, inl, inr, find,
}
use js_code_runner.Task.{Task}
use js_code_runner.Broker.{
  Broker, busy, Effect, forks, sends, kills, ready_for_next_task, task_processed,
}
use js_code_runner.Broker.Dispatch.{
  Search, found, waiting, same_app, find_cached, evict_least_active, kill_popped, assign_app,
  take_idle, search_from, get_worker_for_task, process_task,
}
use js_code_runner.Broker.Invariant.{IsConsistent}
use js_code_runner.Broker.Isolation.{count_sent, count_foreign, IsFresh, IsIsolated}
use js_code_runner.Broker.Isolation.Moves.{
  IsIsolated-carry, start_new_worker-IsIsolated, relocate_worker-IsIsolated, kill_worker-IsIsolated,
}
use js_code_runner.Broker.Assign.{same_app_sound}

count_foreign-le-count_sent :
    (w : ℕ) (app : String) (es : List Effect) → count_foreign w app es ≤ count_sent w es
unfolding count_foreign count_sent
count_foreign-le-count_sent w app [] = omega arith
count_foreign-le-count_sent w app (forks v ∷ es) = count_foreign-le-count_sent w app es
count_foreign-le-count_sent w app (sends v t ∷ es) =
    ground (arith, count_foreign-le-count_sent w app es)
count_foreign-le-count_sent w app (kills v ∷ es) = count_foreign-le-count_sent w app es
count_foreign-le-count_sent w app (ready_for_next_task ∷ es) = count_foreign-le-count_sent w app es
count_foreign-le-count_sent w app (task_processed t r ∷ es) = count_foreign-le-count_sent w app es

-- A worker that may get a task of an app.
pub record IsFit (app : String) (w : ℕ) (s : Broker) : Type 0 where
  pub isolated : IsIsolated s
  pub not_idle : occurs w s.idle_workers ≡ 0
  pub is_started : (s.worker w).awaits_started ≡ false
  pub is_born : w < s.forked
  pub fits : ((s.worker w).app_id ≡ some app) ⊎ IsFresh s w

pub process_task-IsIsolated :
    (now : ℕ) (task : Task) (w : ℕ) (s : Broker)
    → IsFit task.application_id w s
    → IsIsolated (process_task now task w s)
unfolding process_task count_sent count_foreign
process_task-IsIsolated now task w s f =
    let c = f.isolated in
    let started = f.is_started in
    relocate_worker-IsIsolated now w (some busy) _ (λ h. absurd (ground arith))
      (λ h. absurd (ground (arith, started)))
      (record {
        idle_fresh = λ v h. ground (arith, c.idle_fresh v, f.not_idle);
        starting_fresh = λ v h. ground (arith, c.starting_fresh v, started);
        starting_apart = λ v h. ground (arith, c.starting_apart v, started);
        unborn_fresh = λ v h. ground (arith, c.unborn_fresh v, f.is_born);
        own = λ v app h. ground (arith, c.own v app, f.fits, eq_iff task.application_id app);
        single = λ v h. ground (arith, c.single v, f.fits);
      })

drop_idle-IsIsolated :
    (s : Broker) (w : ℕ) (rest : List ℕ)
    → pop s.idle_workers ≡ some (w, rest)
    → IsIsolated s
    → IsIsolated (record s { idle_workers = rest })
drop_idle-IsIsolated s w rest e c =
    IsIsolated-carry s _ (λ v. refl) (λ v a. refl) (λ v. refl) (λ v h. h) c.starting_apart
      (λ v h. ground (arith, c.idle_fresh v, pop-occurs s.idle_workers w rest v e)) refl c

drop_cached-IsIsolated :
    (s : Broker) (rest : List ℕ) → IsIsolated s → IsIsolated (record s { cached_workers = rest })
drop_cached-IsIsolated s rest c =
    IsIsolated-carry s _ (λ v. refl) (λ v a. refl) (λ v. refl) (λ v h. h) c.starting_apart
      c.idle_fresh refl c

-- An idle worker that is popped may get any task, once it is assigned to the app of a cacheable one.
assign_app-IsFit :
    (cacheable : Bool) (app : String) (w : ℕ) (rest : List ℕ) (s : Broker)
    → pop s.idle_workers ≡ some (w, rest)
    → IsConsistent s
    → IsIsolated s
    → IsFit app w (assign_app cacheable app w (record s { idle_workers = rest }))
assign_app-IsFit false app w rest s e c i =
    let there = pop-occurs s.idle_workers w rest w e in
    record {
      isolated = drop_idle-IsIsolated s w rest e i;
      not_idle = ground (arith, there, c.idle_once w);
      is_started = ground (arith, there, c.idle_once w, i.starting_apart w);
      is_born = ground (arith, there, c.idle_once w, c.unborn w);
      fits = inr (i.idle_fresh w (ground (arith, there)));
    }
assign_app-IsFit true app w rest s e c i =
    let there = pop-occurs s.idle_workers w rest w e in
    let fresh = i.idle_fresh w (ground (arith, there)) in
    let gone : occurs w rest ≡ 0 = ground (arith, there, c.idle_once w) in
    let started : (s.worker w).awaits_started ≡ false =
      ground (arith, there, c.idle_once w, i.starting_apart w) in
    let d = drop_idle-IsIsolated s w rest e i in
    record {
      isolated = record {
        idle_fresh = λ v h. ground (arith, d.idle_fresh v, gone);
        starting_fresh = λ v h. ground (arith, d.starting_fresh v, started);
        starting_apart = λ v h. ground (arith, d.starting_apart v, started);
        unborn_fresh = λ v h. ground (arith, d.unborn_fresh v, there, c.idle_once w, c.unborn w);
        own = λ v a h. ground (arith, d.own v a, fresh, count_foreign-le-count_sent w a s.effects);
        single = λ v h. ground (arith, d.single v);
      };
      not_idle = gone;
      is_started = ground (arith, started);
      is_born = ground (arith, there, c.idle_once w, c.unborn w);
      fits = inl (ground arith);
    }

find-occurs : (p : ℕ → Bool) (l : List ℕ) (w : ℕ) → find p l ≡ some w → occurs w l ≢ 0
find-occurs p [] w e = cc
find-occurs p (v ∷ vs) w e = ground (arith, find-occurs p vs w)

find-holds : (p : ℕ → Bool) (l : List ℕ) (w : ℕ) → find p l ≡ some w → p w ≡ true
find-holds p [] w e = cc
find-holds p (v ∷ vs) w e = ground (arith, find-holds p vs w)

find_cached-IsFit :
    (cacheable : Bool) (app : String) (w : ℕ) (s : Broker)
    → find_cached app cacheable s ≡ some w
    → IsConsistent s
    → IsIsolated s
    → IsFit app w s
find_cached-IsFit cacheable app w s e c i =
    let p = λ (v : ℕ). same_app (s.worker v).app_id app in
    let hit : find p s.cached_workers ≡ some w = ground (arith, e) in
    let there = find-occurs p s.cached_workers w hit in
    record {
      isolated = i;
      not_idle = ground (arith, there, c.idle_once w, c.cached_once w);
      is_started = ground (arith, there, c.cached_once w, i.starting_apart w);
      is_born = ground (arith, there, c.cached_once w, c.unborn w);
      fits = inl (same_app_sound (s.worker w).app_id app (find-holds p s.cached_workers w hit));
    }

-- What the search leaves: a worker that may get the task, or a state to wait in.
abbrev pub Finds : String → Search → Type 0
Finds app (found w s) = IsFit app w s
Finds app (waiting w s) = IsIsolated s

kill_popped-IsIsolated :
    (now : ℕ) (s : Broker) (r : Option (ℕ × List ℕ))
    → IsIsolated s
    → IsIsolated (kill_popped now s r)
unfolding kill_popped
kill_popped-IsIsolated now s none i = i
kill_popped-IsIsolated now s (some (w, rest)) i =
    kill_worker-IsIsolated now w _ (drop_cached-IsIsolated s rest i)

evict-IsIsolated : (now : ℕ) (s : Broker) → IsIsolated s → IsIsolated (evict_least_active now s)
unfolding evict_least_active
evict-IsIsolated now s i = ground (arith, i, kill_popped-IsIsolated now s (pop s.cached_workers) i)

take_idle-Finds :
    (now : ℕ) (app : String) (cacheable : Bool) (s : Broker) (r : Option (ℕ × List ℕ))
    → pop s.idle_workers ≡ r
    → IsConsistent s
    → IsIsolated s
    → Finds app (take_idle now app cacheable s r)
unfolding take_idle
take_idle-Finds now app cacheable s none e c i =
    start_new_worker-IsIsolated now _ (evict-IsIsolated now s i)
take_idle-Finds now app cacheable s (some (w, rest)) e c i =
    assign_app-IsFit cacheable app w rest s e c i

search_from-Finds :
    (now : ℕ) (app : String) (cacheable : Bool) (s : Broker) (r : Option ℕ)
    → find_cached app cacheable s ≡ r
    → IsConsistent s
    → IsIsolated s
    → Finds app (search_from now app cacheable s r)
unfolding search_from
search_from-Finds now app cacheable s none e c i = take_idle-Finds now app cacheable s _ refl c i
search_from-Finds now app cacheable s (some w) e c i = find_cached-IsFit cacheable app w s e c i

pub get_worker_for_task-Finds :
    (now : ℕ) (app : String) (cacheable : Bool) (s : Broker)
    → IsConsistent s
    → IsIsolated s
    → Finds app (get_worker_for_task now app cacheable s)
unfolding get_worker_for_task
get_worker_for_task-Finds now app cacheable s c i = search_from-Finds now app cacheable s _ refl c i
