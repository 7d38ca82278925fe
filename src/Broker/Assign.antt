-- ===== src/Broker/Assign.antt =====
-- What a task's worker looks like once it has the task, and that a search that waits will succeed.
use js_code_runner.Common.{
  ℕ, ◌<◌, ◌≡◌, refl, ◌∙◌, String, Bool, true, false, ◌||◌, Option, none, some, List, [], ◌∷◌, arith,
  find, pop, ap, eq_iff, Option-cases, inl, inr,
}
use js_code_runner.Task.{Task}
use js_code_runner.Broker.{Broker, Worker, Place, idle, busy, at, place, sends}
use js_code_runner.Broker.Pools.{
  update, start_new_worker, keep_min_idle_workers_count, move_worker, account, account_if,
  keep_min_if, relocate_worker, moved,
}
use js_code_runner.Broker.Dispatch.{
  found, waiting, find_cached, take_idle, search_from, get_worker_for_task, prepared, with_task,
  process_task, same_app, assign_app,
}
use js_code_runner.Broker.Events.{on_worker_started}
use js_code_runner.Broker.Log.{sent_of, relocate_worker-SameLog}
use js_code_runner.Broker.Supply.{start_workers-worker, start_workers-pools}

keep_min_if-worker :
    (b : Bool) (now w : ℕ) (s : Broker) → w < s.forked → (keep_min_if b now s).worker w ≡ s.worker w
unfolding keep_min_if keep_min_idle_workers_count
keep_min_if-worker true now w s born = start_workers-worker _ now w s born
keep_min_if-worker false now w s born = refl

pub keep_min_if-pools :
    (b : Bool) (now : ℕ) (s : Broker)
    → ((keep_min_if b now s).idle_workers ≡ s.idle_workers)
      × ((keep_min_if b now s).cached_workers ≡ s.cached_workers)
      × ((keep_min_if b now s).busy_workers ≡ s.busy_workers)
unfolding keep_min_if keep_min_idle_workers_count
keep_min_if-pools true now s = start_workers-pools _ now s
keep_min_if-pools false now s = (refl, refl, refl)

account_if-same :
    (b : Bool) (w : ℕ) (to_busy : Bool) (s : Broker)
    → ((account_if b w to_busy s).forked ≡ s.forked)
      × ((account_if b w to_busy s).worker ≡ s.worker)
      × ((account_if b w to_busy s).idle_workers ≡ s.idle_workers)
      × ((account_if b w to_busy s).cached_workers ≡ s.cached_workers)
      × ((account_if b w to_busy s).busy_workers ≡ s.busy_workers)
unfolding account_if account
account_if-same true w to_busy s = (refl, refl, refl, refl, refl)
account_if-same false w to_busy s = (refl, refl, refl, refl, refl)

module _ (now w : ℕ) (new : Option Place) (s : Broker) where
  -- After a relocation the worker is the moved one, and the pools are those of `move_worker`.
  pub relocate_worker-worker :
      w < s.forked → (relocate_worker now w new s).worker w ≡ moved now s new (s.worker w)
  unfolding relocate_worker move_worker
  relocate_worker-worker born =
      let from = place s w in
      let b = at busy from || at busy new in
      let same = account_if-same b w (at busy new) (move_worker now w new s) in
      let born' : w < (account_if b w (at busy new) (move_worker now w new s)).forked =
        rw same.0 born in
      keep_min_if-worker _ now w _ born' ∙ (ap (λ (f : ℕ → Worker). f w) same.1 ∙ ground arith)

  pub relocate_worker-pools :
      ((relocate_worker now w new s).idle_workers ≡ (move_worker now w new s).idle_workers)
      × ((relocate_worker now w new s).cached_workers ≡ (move_worker now w new s).cached_workers)
      × ((relocate_worker now w new s).busy_workers ≡ (move_worker now w new s).busy_workers)
  unfolding relocate_worker
  relocate_worker-pools =
      let from = place s w in
      let same =
        account_if-same (at busy from || at busy new) w (at busy new) (move_worker now w new s) in
      let kept = keep_min_if-pools _ now _ in (kept.0 ∙ same.2, kept.1 ∙ same.3, kept.2 ∙ same.4)

-- A free worker that is given a task is busy with it and stands first among the busy ones, and the
-- task is what is sent last. The task is marked as not cacheable if the cache is off, and carries the
-- worker's process id.
pub process_task-busy :
    (now : ℕ) (task : Task) (w : ℕ) (s : Broker)
    → w < s.forked
    → at busy (place s w) ≡ false
    → let s' = process_task now task w s in
      (place s' w ≡ some busy)
      × ((s'.worker w).task ≡ some (prepared s w task))
      × (s'.busy_workers ≡ w ∷ s.busy_workers)
      × (sent_of s'.effects ≡ (w, prepared s w task) ∷ sent_of s.effects)
unfolding process_task move_worker sent_of
process_task-busy now task w s born free =
    let t : Broker = record s {
      worker = update s.worker w (with_task s w task);
      effects = sends w (prepared s w task) ∷ s.effects;
    } in
    let moved_w = relocate_worker-worker now w (some busy) t born in
    let pools = relocate_worker-pools now w (some busy) t in
    (
      ap (λ (x : Worker). x.current_place) moved_w ∙ ground arith,
      ap (λ (x : Worker). x.task) moved_w ∙ ground arith,
      pools.2 ∙ ground (arith, free),
      (relocate_worker-SameLog now w (some busy) t).1,
    )

-- A search that must wait has forked a worker that will be listened to.
take_idle-waiting :
    (now : ℕ) (app : String) (cacheable : Bool) (s : Broker) (r : Option (ℕ × List ℕ)) (w : ℕ)
    (s' : Broker)
    → take_idle now app cacheable s r ≡ waiting w s'
    → (s'.worker w).awaits_started ≡ true
unfolding take_idle start_new_worker
take_idle-waiting now app cacheable s (some (v, rest)) w s' e = cc
take_idle-waiting now app cacheable s none w s' e = ground arith

search_from-waiting :
    (now : ℕ) (app : String) (cacheable : Bool) (s : Broker) (r : Option ℕ) (w : ℕ) (s' : Broker)
    → search_from now app cacheable s r ≡ waiting w s'
    → (s'.worker w).awaits_started ≡ true
unfolding search_from
search_from-waiting now app cacheable s (some v) w s' e = cc
search_from-waiting now app cacheable s none w s' e = take_idle-waiting now app cacheable s _ w s' e

on_worker_started-idle :
    (now w : ℕ) (s : Broker)
    → (s.worker w).awaits_started ≡ true
    → (l : List ℕ) × ((on_worker_started now w s).idle_workers ≡ w ∷ l)
unfolding on_worker_started move_worker
on_worker_started-idle now w s e = rw e (_, (relocate_worker-pools now w (some idle) _).0)

pop-cons : (v : ℕ) (l : List ℕ) → (w : ℕ) × (rest : List ℕ) × (pop (v ∷ l) ≡ some (w, rest))
pop-cons v l = elim (Option-cases (pop l)) [
  | inl e ↦ (v, [], rw e)
  | inr ((x, rest), e) ↦ (x, v ∷ rest, rw e)
]

search_from-found :
    (now : ℕ) (app : String) (cacheable : Bool) (s : Broker) (r : Option ℕ) (v : ℕ) (l : List ℕ)
    → s.idle_workers ≡ v ∷ l
    → (w : ℕ) × (t : Broker) × (search_from now app cacheable s r ≡ found w t)
unfolding search_from take_idle
search_from-found now app cacheable s (some w) v l e = (w, s, refl)
search_from-found now app cacheable s none v l e =
    let (w, rest, popped) = pop-cons v l in
    (
      w,
      assign_app cacheable app w (record s { idle_workers = rest }),
      ap (take_idle now app cacheable s) (ap pop e ∙ popped),
    )

-- If the search for a worker has to wait, then once the worker that it forked reports that it has
-- started, with nothing else in between, the search that is then made succeeds.
pub get_worker_for_task-progress :
    (now later : ℕ) (app : String) (cacheable : Bool) (s s' : Broker) (w : ℕ)
    → get_worker_for_task now app cacheable s ≡ waiting w s'
    → (v : ℕ) × (t : Broker) × (get_worker_for_task later app cacheable
          (on_worker_started later w s')
        ≡ found v t)
unfolding get_worker_for_task
get_worker_for_task-progress now later app cacheable s s' w e =
    let waits = search_from-waiting now app cacheable s _ w s' e in
    let (l, first) = on_worker_started-idle later w s' waits in
    search_from-found later app cacheable (on_worker_started later w s') _ w l first

pub same_app_sound : (o : Option String) (app : String) → same_app o app ≡ true → o ≡ some app
same_app_sound none app h = cc
same_app_sound (some a) app h = ap some ((eq_iff a app).0 h)

find-holds : (p : ℕ → Bool) (l : List ℕ) (w : ℕ) → find p l ≡ some w → p w ≡ true
find-holds p [] w e = cc
find-holds p (v ∷ vs) w e = ground (arith, find-holds p vs w)

take_idle-app :
    (now : ℕ) (app : String) (s : Broker) (r : Option (ℕ × List ℕ)) (w : ℕ) (s' : Broker)
    → take_idle now app true s r ≡ found w s'
    → (s'.worker w).app_id ≡ some app
unfolding take_idle
take_idle-app now app s none w s' e = cc
take_idle-app now app s (some (v, rest)) w s' e = ground arith

search_from-app :
    (now : ℕ) (app : String) (s : Broker) (r : Option ℕ) (w : ℕ) (s' : Broker)
    → find_cached app true s ≡ r
    → search_from now app true s r ≡ found w s'
    → (s'.worker w).app_id ≡ some app
unfolding search_from
search_from-app now app s none w s' c e = take_idle-app now app s _ w s' e
search_from-app now app s (some v) w s' c e = ground (
  arith,
  find-holds (λ x. same_app (s.worker x).app_id app) s.cached_workers v,
  same_app_sound (s.worker v).app_id app,
)

-- The worker that is found for a cacheable task is assigned to the task's app: a cached worker of
-- another app is never given it.
pub get_worker_for_task-app :
    (now : ℕ) (app : String) (s : Broker) (w : ℕ) (s' : Broker)
    → get_worker_for_task now app true s ≡ found w s'
    → (s'.worker w).app_id ≡ some app
unfolding get_worker_for_task
get_worker_for_task-app now app s w s' e = search_from-app now app s _ w s' refl e
