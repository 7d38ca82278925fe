-- ===== src/Broker/Invariant/Search.antt =====
-- The invariant through the search for a worker: a worker that is found is forked and not busy.
use js_code_runner.Common.{
  ℕ, ◌<◌, ◌≡◌, refl, ◌≢◌, ap, sym, ◌∙◌, String, Bool, true, false, Option, none, some, List, [],
  ◌∷◌, occurs, pop, pop-occurs, find, arith,
}
use js_code_runner.Common.Int.{pos}
use js_code_runner.Task.{Task}
use js_code_runner.Broker.{Broker, busy, at, place}
use js_code_runner.Broker.Pools.{set_worker}
use js_code_runner.Broker.Dispatch.{
  Search, found, waiting, same_app, find_cached, evict_least_active, kill_popped, assign_app,
  take_idle, search_from, get_worker_for_task, with_task, process_task,
}
use js_code_runner.Broker.Invariant.{IsConsistent}
use js_code_runner.Broker.Invariant.Count.{count_app-update_absent}
use js_code_runner.Broker.Invariant.Moves.{
  IsConsistent-same, set_worker-IsConsistent, start_new_worker-IsConsistent,
  relocate_worker-IsConsistent, kill_worker-IsConsistent,
}

find-occurs : (p : ℕ → Bool) (l : List ℕ) (w : ℕ) → find p l ≡ some w → occurs w l ≢ 0
find-occurs p [] w e = cc
find-occurs p (v ∷ vs) w e = ground (arith, find-occurs p vs w)

-- Dropping elements of a pool leaves the state consistent, except for the busy ones.
drop_idle-IsConsistent :
    (s : Broker) (w : ℕ) (rest : List ℕ)
    → pop s.idle_workers ≡ some (w, rest)
    → IsConsistent s
    → IsConsistent (record s { idle_workers = rest })
drop_idle-IsConsistent s w rest e c = record {
  idle_once = λ v. omega (arith, c.idle_once v, pop-occurs s.idle_workers w rest v e);
  cached_once = c.cached_once;
  busy_once = c.busy_once;
  unborn = c.unborn;
  load = c.load;
}

drop_cached-IsConsistent :
    (s : Broker) (w : ℕ) (rest : List ℕ)
    → pop s.cached_workers ≡ some (w, rest)
    → IsConsistent s
    → IsConsistent (record s { cached_workers = rest })
drop_cached-IsConsistent s w rest e c = record {
  idle_once = c.idle_once;
  cached_once = λ v. omega (arith, c.cached_once v, pop-occurs s.cached_workers w rest v e);
  busy_once = c.busy_once;
  unborn = c.unborn;
  load = c.load;
}

assign_app-IsConsistent :
    (b : Bool) (app : String) (w : ℕ) (s : Broker)
    → at busy (place s w) ≡ false
    → IsConsistent s
    → IsConsistent (assign_app b app w s)
assign_app-IsConsistent false app w s h c = c
assign_app-IsConsistent true app w s h c = record {
  idle_once = λ v. ground (arith, c.idle_once v);
  cached_once = λ v. ground (arith, c.cached_once v);
  busy_once = λ v. ground (arith, c.busy_once v);
  unborn = λ v k. ground (arith, c.unborn v k);
  load = λ b.
      c.load b
      ∙ ap pos (
          sym (
            count_app-update_absent s.worker w _ b s.busy_workers (ground (arith, c.busy_once w))));
}

-- A worker that the search returns is forked and not busy.
abbrev pub IsFree : Broker → ℕ → Type 0
IsFree s w = (w < s.forked) × (at busy (place s w) ≡ false)

idle-IsFree :
    (s : Broker) (w : ℕ) (rest : List ℕ)
    → pop s.idle_workers ≡ some (w, rest)
    → IsConsistent s
    → IsFree s w
idle-IsFree s w rest e c = (
  ground (arith, c.idle_once w, c.unborn w, pop-occurs s.idle_workers w rest w e),
  ground (arith, c.idle_once w, pop-occurs s.idle_workers w rest w e),
)

cached-IsFree : (s : Broker) (w : ℕ) → occurs w s.cached_workers ≢ 0 → IsConsistent s → IsFree s w
cached-IsFree s w h c =
    (ground (arith, c.cached_once w, c.unborn w), ground (arith, c.cached_once w))

assign_app-IsFree :
    (b : Bool) (app : String) (w : ℕ) (s : Broker) → IsFree s w → IsFree (assign_app b app w s) w
assign_app-IsFree false app w s h = h
assign_app-IsFree true app w s h = (h.0, ground (arith, h.1))

find_cached-occurs :
    (app : String) (cacheable : Bool) (s : Broker) (w : ℕ)
    → find_cached app cacheable s ≡ some w
    → occurs w s.cached_workers ≢ 0
find_cached-occurs app cacheable s w e =
    ground (arith, find-occurs (λ v. same_app (s.worker v).app_id app) s.cached_workers w)

-- Where a search succeeds, its worker is free.
abbrev pub Succeeds : Search → Type 0
Succeeds (found w s) = IsConsistent s × IsFree s w
Succeeds (waiting w s) = IsConsistent s

kill_popped-IsConsistent :
    (now : ℕ) (s : Broker) (r : Option (ℕ × List ℕ))
    → pop s.cached_workers ≡ r
    → IsConsistent s
    → IsConsistent (kill_popped now s r)
unfolding kill_popped
kill_popped-IsConsistent now s none e c = c
kill_popped-IsConsistent now s (some (w, rest)) e c =
    kill_worker-IsConsistent now w _ (drop_cached-IsConsistent s w rest e c)

evict-IsConsistent :
    (now : ℕ) (s : Broker) → IsConsistent s → IsConsistent (evict_least_active now s)
unfolding evict_least_active
evict-IsConsistent now s c =
    ground (arith, kill_popped-IsConsistent now s (pop s.cached_workers) refl c)

take_idle-Succeeds :
    (now : ℕ) (app : String) (cacheable : Bool) (s : Broker) (r : Option (ℕ × List ℕ))
    → pop s.idle_workers ≡ r
    → IsConsistent s
    → Succeeds (take_idle now app cacheable s r)
unfolding take_idle
take_idle-Succeeds now app cacheable s none e c =
    start_new_worker-IsConsistent now _ (evict-IsConsistent now s c)
take_idle-Succeeds now app cacheable s (some (w, rest)) e c =
    let free = idle-IsFree s w rest e c in
    (
      assign_app-IsConsistent cacheable app w _ free.1 (drop_idle-IsConsistent s w rest e c),
      assign_app-IsFree cacheable app w (record s { idle_workers = rest }) free,
    )

search_from-Succeeds :
    (now : ℕ) (app : String) (cacheable : Bool) (s : Broker) (r : Option ℕ)
    → find_cached app cacheable s ≡ r
    → IsConsistent s
    → Succeeds (search_from now app cacheable s r)
unfolding search_from
search_from-Succeeds now app cacheable s none e c = take_idle-Succeeds now app cacheable s _ refl c
search_from-Succeeds now app cacheable s (some w) e c =
    (c, cached-IsFree s w (find_cached-occurs app cacheable s w e) c)

pub get_worker_for_task-Succeeds :
    (now : ℕ) (app : String) (cacheable : Bool) (s : Broker)
    → IsConsistent s
    → Succeeds (get_worker_for_task now app cacheable s)
unfolding get_worker_for_task
get_worker_for_task-Succeeds now app cacheable s c =
    search_from-Succeeds now app cacheable s _ refl c

-- A free worker may be given a task.
pub process_task-IsConsistent :
    (now : ℕ) (task : Task) (w : ℕ) (s : Broker)
    → IsFree s w
    → IsConsistent s
    → IsConsistent (process_task now task w s)
unfolding process_task
process_task-IsConsistent now task w s free c =
    let x = with_task s w task in
    relocate_worker-IsConsistent now w (some busy) _
      (IsConsistent-same (set_worker w x s) _ refl refl refl refl refl refl
        (set_worker-IsConsistent w x s refl refl c))
      (λ h. absurd (omega arith)) (ground (arith, free.1))
