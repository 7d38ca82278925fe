-- ===== src/Broker/Isolation/Steps.antt =====
-- The invariant of isolation along every run of the broker, and what it says of the tasks.
use js_code_runner.Common.{
  ℕ, zero, suc, ◌≡◌, refl, String, Bool, false, Option, none, some, List, [], ◌∷◌, arith,
  Bool-cases, inl, inr, remove, subst, eq_of_some,
}
use js_code_runner.Task.{Task}
use js_code_runner.Broker.{Broker, Worker, idle, cached, update_status}
use js_code_runner.Broker.Pools.{set_worker}
use js_code_runner.Broker.Events.{
  Message, processed, critical_error, idling, heartbeat, other, on_worker_started,
  on_worker_task_processed, destroy_expiration_timer, on_worker_idling, on_worker_heartbeat,
  on_idling_message, on_worker_message, on_worker_exit, mark_app_workers, marked, visit,
  kill_cached, kill_all_app_workers, stop,
}
use js_code_runner.Broker.Timers.{
  check_heartbeats, on_heartbeat_timer, on_expiration_timer, on_idling_timer,
}
use js_code_runner.Broker.Invariant.{IsConsistent}
use js_code_runner.Broker.Invariant.Steps.{
  Step, started, dispatched, awaited, messaged, exited, redeployed, heartbeats_checked,
  task_expired, idled, status_checked, stopping, Reach, here, next, Reach-IsConsistent,
}
use js_code_runner.Broker.Isolation.{count_sent, count_foreign, IsIsolated}
use js_code_runner.Broker.Isolation.Moves.{
  IsIsolated-carry, set_worker-IsIsolated, relocate_worker-IsIsolated, kill_worker-IsIsolated,
}
use js_code_runner.Broker.Isolation.Search.{
  Finds, get_worker_for_task-Finds, process_task-IsIsolated,
}

-- Changes of fields that play no part.
IsIsolated-same :
    (s t : Broker)
    → ((w : ℕ) → count_sent w t.effects ≡ count_sent w s.effects)
    → ((w : ℕ) (app : String) → count_foreign w app t.effects ≡ count_foreign w app s.effects)
    → t.worker ≡ s.worker
    → t.idle_workers ≡ s.idle_workers
    → s.forked ≡ t.forked
    → IsIsolated s
    → IsIsolated t
IsIsolated-same s t sent foreign f l n c =
    IsIsolated-carry s t sent foreign (λ w. rw f refl) (λ w h. rw (← f) h)
      (λ w h. rw f (c.starting_apart w (rw (← f) h))) (λ w h. c.idle_fresh w (rw (← l) h)) n c

on_worker_started-IsIsolated :
    (now w : ℕ) (s : Broker) → IsIsolated s → IsIsolated (on_worker_started now w s)
unfolding on_worker_started
on_worker_started-IsIsolated now w s c = elim (Bool-cases (s.worker w).awaits_started) [
  | inr e ↦ rw e c
  | inl e ↦
      let x : Worker = record (s.worker w) { awaits_started = false } in
      let d =
        relocate_worker-IsIsolated now w (some idle) (set_worker w x s)
          (λ h. ground (arith, c.starting_fresh w e)) (λ h. absurd (ground arith))
          (set_worker-IsIsolated w x s refl (λ h. cc) (λ h. absurd (cc)) c) in
      rw e (IsIsolated-same _ _ (λ v. refl) (λ v a. refl) refl refl refl d)
]

on_worker_idling-IsIsolated :
    (now w : ℕ) (s : Broker)
    → (s.worker w).awaits_started ≡ false
    → IsIsolated s
    → IsIsolated (on_worker_idling now w s)
unfolding on_worker_idling
on_worker_idling-IsIsolated now w s begun c =
    relocate_worker-IsIsolated now w (some cached) _ (λ h. absurd (ground arith))
      (λ h. absurd (ground (arith, begun)))
      (set_worker-IsIsolated w (record (s.worker w) { expire_timer = none }) s refl (λ h. h)
        (λ h. c.starting_apart w h) c)

on_idling_message-IsIsolated :
    (now w : ℕ) (s s' : Broker) (t : Option Task)
    → (s.worker w).task ≡ t
    → on_idling_message now w s t ≡ some s'
    → IsIsolated s
    → IsIsolated s'
unfolding on_idling_message
on_idling_message-IsIsolated now w s s' none has e c = cc
on_idling_message-IsIsolated now w s s' (some task) has e c =
    let x : Worker = record (s.worker w) { task = none } in
    let begun : (s.worker w).awaits_started ≡ false = ground (arith, has, c.starting_apart w) in
    ground (
      arith,
      on_worker_idling-IsIsolated now w (set_worker w x s) (ground (arith, begun))
          (set_worker-IsIsolated w x s refl (λ h. h) (λ h. absurd (ground (arith, begun))) c),
      kill_worker-IsIsolated now w s c,
    )

on_worker_message-IsIsolated :
    (now w : ℕ) (m : Message) (s s' : Broker)
    → on_worker_message now w m s ≡ some s'
    → IsIsolated s
    → IsIsolated s'
unfolding on_worker_message on_worker_task_processed on_worker_heartbeat count_sent count_foreign
on_worker_message-IsIsolated now w (processed r) s s' e c =
    subst IsIsolated (eq_of_some e) (IsIsolated-same s _ (λ v. refl) (λ v a. refl) refl refl refl c)
on_worker_message-IsIsolated now w (critical_error r) s s' e c =
    subst IsIsolated (eq_of_some e)
      (set_worker-IsIsolated w _ s refl (λ h. h) (λ h. c.starting_apart w h) c)
on_worker_message-IsIsolated now w idling s s' e c =
    on_idling_message-IsIsolated now w s s' (s.worker w).task refl e c
on_worker_message-IsIsolated now w heartbeat s s' e c =
    subst IsIsolated (eq_of_some e)
      (set_worker-IsIsolated w _ s refl (λ h. h) (λ h. c.starting_apart w h) c)
on_worker_message-IsIsolated now w other s s' e c = subst IsIsolated (eq_of_some e) c

on_worker_exit-IsIsolated :
    (now w : ℕ) (after : Bool) (s : Broker)
    → IsIsolated s
    → IsIsolated (on_worker_exit now w after s)
unfolding on_worker_exit
on_worker_exit-IsIsolated now w after s c =
    let gone : Broker = record s { cluster_workers = remove w s.cluster_workers } in
    let d =
      set_worker-IsIsolated w (record (s.worker w) { expire_timer = none }) gone refl (λ h. h)
        (λ h. c.starting_apart w h)
        (IsIsolated-same s gone (λ v. refl) (λ v a. refl) refl refl refl c) in
    ground (
      arith,
      d,
      relocate_worker-IsIsolated now w none (destroy_expiration_timer w gone)
          (λ h. absurd (ground arith)) (λ h. refl) d,
    )

mark_app_workers-IsIsolated :
    (app reason : String) (ws : List ℕ) (s : Broker)
    → IsIsolated s
    → IsIsolated (mark_app_workers app reason ws s)
unfolding mark_app_workers
mark_app_workers-IsIsolated app reason [] s c = c
mark_app_workers-IsIsolated app reason (w ∷ ws) s c = mark_app_workers-IsIsolated app reason ws _ (
    ground (
      arith,
      c,
      set_worker-IsIsolated w (marked reason w s) s refl (λ h. h) (λ h. c.starting_apart w h) c,
    ))

visit-IsIsolated :
    (now : ℕ) (app : String) (s : Broker) (o : Option ℕ)
    → IsIsolated s
    → IsIsolated (visit now app s o)
visit-IsIsolated now app s none c = c
visit-IsIsolated now app s (some w) c = ground (arith, c, kill_worker-IsIsolated now w s c)

kill_cached-IsIsolated :
    (rounds k now : ℕ) (app : String) (s : Broker)
    → IsIsolated s
    → IsIsolated (kill_cached rounds k now app s)
unfolding kill_cached
kill_cached-IsIsolated zero k now app s c = c
kill_cached-IsIsolated (suc rounds) k now app s c =
    kill_cached-IsIsolated rounds (suc k) now app _ (visit-IsIsolated now app s _ c)

check_heartbeats-IsIsolated :
    (now : ℕ) (ws : List ℕ) (s : Broker) → IsIsolated s → IsIsolated (check_heartbeats now ws s)
unfolding check_heartbeats
check_heartbeats-IsIsolated now [] s c = c
check_heartbeats-IsIsolated now (w ∷ ws) s c =
    check_heartbeats-IsIsolated now ws _ (ground (arith, c, kill_worker-IsIsolated now w s c))

Step-IsIsolated : {s t : Broker} → Step s t → IsConsistent s → IsIsolated s → IsIsolated t
unfolding kill_all_app_workers on_heartbeat_timer on_expiration_timer on_idling_timer stop
    update_status
Step-IsIsolated {s} (started now w born) c i = on_worker_started-IsIsolated now w s i
Step-IsIsolated {s} (dispatched now task w {s'} e) c i =
    process_task-IsIsolated now task w s'
      (subst (Finds task.application_id) e (get_worker_for_task-Finds now _ _ s c i))
Step-IsIsolated {s} (awaited now task w e) c i =
    subst (Finds task.application_id) e (get_worker_for_task-Finds now _ _ s c i)
Step-IsIsolated {s} (messaged now w m {s'} born e) c i =
    on_worker_message-IsIsolated now w m s s' e i
Step-IsIsolated {s} (exited now w after) c i = on_worker_exit-IsIsolated now w after s i
Step-IsIsolated {s} (redeployed now app reason) c i =
    kill_cached-IsIsolated _ _ now app _ (mark_app_workers-IsIsolated app reason _ s i)
Step-IsIsolated {s} (heartbeats_checked now) c i = check_heartbeats-IsIsolated now _ s i
Step-IsIsolated {s} (task_expired now w) c i = ground (arith, i, kill_worker-IsIsolated now w s i)
Step-IsIsolated {s} (idled now w) c i = ground (arith, i, kill_worker-IsIsolated now w s i)
Step-IsIsolated {s} status_checked c i =
    IsIsolated-same s _ (λ v. refl) (λ v a. refl) refl refl refl i
Step-IsIsolated {s} stopping c i = IsIsolated-same s _ (λ v. refl) (λ v a. refl) refl refl refl i

pub Reach-IsIsolated : {s t : Broker} → IsConsistent s → IsIsolated s → Reach s t → IsIsolated t
Reach-IsIsolated c i here = i
Reach-IsIsolated c i (next r st) =
    Step-IsIsolated st (Reach-IsConsistent c r) (Reach-IsIsolated c i r)
