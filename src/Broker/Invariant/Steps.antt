-- ===== src/Broker/Invariant/Steps.antt =====
-- Everything that can happen to the broker, as a step relation, and the invariant along every run.
use js_code_runner.Common.{
  ℕ, zero, suc, ◌<◌, ◌≡◌, refl, String, Bool, false, Option, none, some, List, [], ◌∷◌, arith,
  Bool-cases, inl, inr, remove, subst, eq_of_some,
}
use js_code_runner.Task.{Task}
use js_code_runner.Broker.{Broker, Worker, idle, cached, update_status}
use js_code_runner.Broker.Pools.{set_worker}
use js_code_runner.Broker.Dispatch.{found, waiting, get_worker_for_task, process_task}
use js_code_runner.Broker.Events.{
  Message, processed, critical_error, idling, heartbeat, other, on_worker_started,
  on_worker_task_processed, destroy_expiration_timer, on_worker_idling, on_worker_heartbeat,
  on_idling_message, on_worker_message, on_worker_exit, mark_app_workers, marked, visit,
  kill_cached, kill_all_app_workers, stop,
}
use js_code_runner.Broker.Timers.{
  check_heartbeats, on_heartbeat_timer, on_expiration_timer, on_idling_timer,
}
use js_code_runner.Broker.Invariant.{IsConsistent}
use js_code_runner.Broker.Invariant.Moves.{
  IsConsistent-same, set_worker-IsConsistent, relocate_worker-IsConsistent,
  kill_worker-IsConsistent,
}
use js_code_runner.Broker.Invariant.Search.{
  Succeeds, get_worker_for_task-Succeeds, process_task-IsConsistent,
}

on_worker_started-IsConsistent :
    (now w : ℕ) (s : Broker)
    → w < s.forked
    → IsConsistent s
    → IsConsistent (on_worker_started now w s)
unfolding on_worker_started
on_worker_started-IsConsistent now w s born c =
    let x : Worker = record (s.worker w) { awaits_started = false } in
    let d =
      relocate_worker-IsConsistent now w (some idle) _ (set_worker-IsConsistent w x s refl refl c)
        (λ h. absurd (omega arith)) (ground arith) in
    elim (Bool-cases (s.worker w).awaits_started) [
      | inl e ↦ rw e (IsConsistent-same _ _ refl refl refl refl refl refl d)
      | inr e ↦ rw e c
    ]

on_worker_idling-IsConsistent :
    (now w : ℕ) (s : Broker)
    → w < s.forked
    → IsConsistent s
    → IsConsistent (on_worker_idling now w s)
unfolding on_worker_idling
on_worker_idling-IsConsistent now w s born c =
    relocate_worker-IsConsistent now w (some cached) _ (set_worker-IsConsistent w _ s refl refl c)
      (λ h. absurd (omega arith)) (ground arith)

on_idling_message-IsConsistent :
    (now w : ℕ) (s s' : Broker) (t : Option Task)
    → w < s.forked
    → on_idling_message now w s t ≡ some s'
    → IsConsistent s
    → IsConsistent s'
unfolding on_idling_message
on_idling_message-IsConsistent now w s s' none born e c = cc
on_idling_message-IsConsistent now w s s' (some task) born e c =
    let x : Worker = record (s.worker w) { task = none } in
    ground (
      arith,
      on_worker_idling-IsConsistent now w (set_worker w x s) born
          (set_worker-IsConsistent w x s refl refl c),
      kill_worker-IsConsistent now w s c,
    )

on_worker_message-IsConsistent :
    (now w : ℕ) (m : Message) (s s' : Broker)
    → w < s.forked
    → on_worker_message now w m s ≡ some s'
    → IsConsistent s
    → IsConsistent s'
unfolding on_worker_message on_worker_task_processed on_worker_heartbeat
on_worker_message-IsConsistent now w (processed r) s s' born e c =
    subst IsConsistent (eq_of_some e) (IsConsistent-same s _ refl refl refl refl refl refl c)
on_worker_message-IsConsistent now w (critical_error r) s s' born e c =
    subst IsConsistent (eq_of_some e) (set_worker-IsConsistent w _ s refl refl c)
on_worker_message-IsConsistent now w idling s s' born e c =
    on_idling_message-IsConsistent now w s s' _ born e c
on_worker_message-IsConsistent now w heartbeat s s' born e c =
    subst IsConsistent (eq_of_some e) (set_worker-IsConsistent w _ s refl refl c)
on_worker_message-IsConsistent now w other s s' born e c = subst IsConsistent (eq_of_some e) c

on_worker_exit-IsConsistent :
    (now w : ℕ) (after : Bool) (s : Broker)
    → IsConsistent s
    → IsConsistent (on_worker_exit now w after s)
unfolding on_worker_exit
on_worker_exit-IsConsistent now w after s c =
    let gone : Broker = record s { cluster_workers = remove w s.cluster_workers } in
    let d =
      set_worker-IsConsistent w (record (s.worker w) { expire_timer = none }) gone refl refl
        (IsConsistent-same s gone refl refl refl refl refl refl c) in
    ground (
      arith,
      d,
      relocate_worker-IsConsistent now w none (destroy_expiration_timer w gone) d (λ _. refl)
          (ground arith),
    )

mark_app_workers-IsConsistent :
    (app reason : String) (ws : List ℕ) (s : Broker)
    → IsConsistent s
    → IsConsistent (mark_app_workers app reason ws s)
unfolding mark_app_workers
mark_app_workers-IsConsistent app reason [] s c = c
mark_app_workers-IsConsistent app reason (w ∷ ws) s c =
    mark_app_workers-IsConsistent app reason ws _
      (ground (arith, c, set_worker-IsConsistent w (marked reason w s) s refl refl c))

visit-IsConsistent :
    (now : ℕ) (app : String) (s : Broker) (o : Option ℕ)
    → IsConsistent s
    → IsConsistent (visit now app s o)
visit-IsConsistent now app s none c = c
visit-IsConsistent now app s (some w) c = ground (arith, c, kill_worker-IsConsistent now w s c)

kill_cached-IsConsistent :
    (rounds k now : ℕ) (app : String) (s : Broker)
    → IsConsistent s
    → IsConsistent (kill_cached rounds k now app s)
unfolding kill_cached
kill_cached-IsConsistent zero k now app s c = c
kill_cached-IsConsistent (suc rounds) k now app s c =
    kill_cached-IsConsistent rounds (suc k) now app _ (visit-IsConsistent now app s _ c)

check_heartbeats-IsConsistent :
    (now : ℕ) (ws : List ℕ) (s : Broker) → IsConsistent s → IsConsistent (check_heartbeats now ws s)
unfolding check_heartbeats
check_heartbeats-IsConsistent now [] s c = c
check_heartbeats-IsConsistent now (w ∷ ws) s c =
    check_heartbeats-IsConsistent now ws _ (ground (arith, c, kill_worker-IsConsistent now w s c))

-- What the surroundings of the broker may do to it. A worker that reports has been forked.
pub data Step (s : Broker) : Broker → Type 0 where
  started : (now w : ℕ) → w < s.forked → Step s (on_worker_started now w s)
  dispatched :
      (now : ℕ) (task : Task) (w : ℕ) {s' : Broker}
      → get_worker_for_task now task.application_id task.cacheable s ≡ found w s'
      → Step s (process_task now task w s')
  awaited :
      (now : ℕ) (task : Task) (w : ℕ) {s' : Broker}
      → get_worker_for_task now task.application_id task.cacheable s ≡ waiting w s'
      → Step s s'
  messaged :
      (now w : ℕ) (m : Message) {s' : Broker}
      → w < s.forked
      → on_worker_message now w m s ≡ some s'
      → Step s s'
  exited : (now w : ℕ) (after : Bool) → Step s (on_worker_exit now w after s)
  redeployed : (now : ℕ) (app reason : String) → Step s (kill_all_app_workers now app reason s)
  heartbeats_checked : (now : ℕ) → Step s (on_heartbeat_timer now s)
  task_expired : (now w : ℕ) → Step s (on_expiration_timer now w s)
  idled : (now w : ℕ) → Step s (on_idling_timer now w s)
  status_checked : Step s (update_status s)
  stopping : Step s (stop s)

pub data Reach (s : Broker) : Broker → Type 0 where
  here : Reach s s
  next : {t u : Broker} → Reach s t → Step t u → Reach s u

Step-IsConsistent : {s t : Broker} → Step s t → IsConsistent s → IsConsistent t
unfolding kill_all_app_workers on_heartbeat_timer on_expiration_timer on_idling_timer stop
    update_status
Step-IsConsistent {s} (started now w born) c = on_worker_started-IsConsistent now w s born c
Step-IsConsistent {s} (dispatched now task w {s'} e) c =
    let (d, free) = subst Succeeds e (get_worker_for_task-Succeeds now _ _ s c) in
    process_task-IsConsistent now task w s' free d
Step-IsConsistent {s} (awaited now task w e) c =
    subst Succeeds e (get_worker_for_task-Succeeds now _ _ s c)
Step-IsConsistent {s} (messaged now w m {s'} born e) c =
    on_worker_message-IsConsistent now w m s s' born e c
Step-IsConsistent {s} (exited now w after) c = on_worker_exit-IsConsistent now w after s c
Step-IsConsistent {s} (redeployed now app reason) c =
    kill_cached-IsConsistent _ _ now app _ (mark_app_workers-IsConsistent app reason _ s c)
Step-IsConsistent {s} (heartbeats_checked now) c = check_heartbeats-IsConsistent now _ s c
Step-IsConsistent {s} (task_expired now w) c = ground (arith, c, kill_worker-IsConsistent now w s c)
Step-IsConsistent {s} (idled now w) c = ground (arith, c, kill_worker-IsConsistent now w s c)
Step-IsConsistent {s} status_checked c = IsConsistent-same s _ refl refl refl refl refl refl c
Step-IsConsistent {s} stopping c = IsConsistent-same s _ refl refl refl refl refl refl c

pub Reach-IsConsistent : {s t : Broker} → IsConsistent s → Reach s t → IsConsistent t
Reach-IsConsistent c here = c
Reach-IsConsistent c (next r st) = Step-IsConsistent st (Reach-IsConsistent c r)
