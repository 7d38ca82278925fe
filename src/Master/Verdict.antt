-- ===== src/Master/Verdict.antt =====
-- What becomes of a task that the master receives.
use js_code_runner.Common.{
  ℕ, ◌≤◌, ◌<◌, ◌≡◌, ◌∙◌, ap, String, Bool, true, false, ◌||◌, Option, none, some, List, ◌∷◌, arith,
  ◌↔◌, subst, if◌then◌else◌, Bool-cases, inl, inr,
}
use js_code_runner.Common.Int.{ℤ, pos, ◌+ℤ◌}
use js_code_runner.Common.Dict.{lookup}
use js_code_runner.Task.{Task}
use js_code_runner.Broker.{Broker, is_app_rate_limit_reached, get_app_rate_limit, load_of, or_zero}
use js_code_runner.Broker.Dispatch.{found, get_worker_for_task, process_task}
use js_code_runner.Broker.Invariant.{IsConsistent, count_app}
use js_code_runner.Broker.Invariant.Search.{
  Succeeds, get_worker_for_task-Succeeds, process_task-IsConsistent,
}
use js_code_runner.Broker.Assign.{get_worker_for_task-app}
use js_code_runner.Broker.Load.{get_worker_for_task-same, process_task-load_of}
use js_code_runner.Broker.RateLimit.{is_app_rate_limit_reached_iff}
use js_code_runner.Compression.{compress_input}
use js_code_runner.Messages.{Channel, main_tasks, low_priority_tasks, pushes, push_task_back}
use js_code_runner.Master.{
  Master, on_ready_for_next_tasks, is_task_outdated, is_task_cacheable, ask_again, search_worker,
  start_dispatch, on_task,
}

-- The parts of the master that asking for tasks leaves alone.
ask_again-same :
    (channel : Channel) (m : Master)
    → ((ask_again channel m).workers_broker ≡ m.workers_broker)
      × ((ask_again channel m).requests ≡ m.requests)
      × ((ask_again channel m).dispatches ≡ m.dispatches)
unfolding ask_again on_ready_for_next_tasks
ask_again-same main_tasks m = (ground arith, ground arith, ground arith)
ask_again-same low_priority_tasks m = (ground arith, ground arith, ground arith)

push_task_back-plain :
    (deflate : ℕ → List ℕ → Option (List ℕ)) (threshold : Option ℕ) (b : Bool) (channel : Channel)
    (task : Task)
    → b ≡ false
    → push_task_back deflate b threshold channel task ≡ some (pushes channel task)
unfolding push_task_back
push_task_back-plain deflate threshold b channel task e = ground arith

push_task_back-compressed :
    (deflate : ℕ → List ℕ → Option (List ℕ)) (threshold : Option ℕ) (b : Bool) (channel : Channel)
    (task : Task)
    → b ≡ true
    → push_task_back deflate b threshold channel task ≡ none
unfolding push_task_back compress_input
push_task_back-compressed deflate threshold b channel task e = ground arith

-- A task that is outdated, or else belongs to an app whose rate limit is reached, goes to no worker and
-- waits for none. It is put back, unchanged, into the queue that it came from if it is not outdated and
-- compression is off; an outdated task is not put back, and with compression on no task is.
pub on_task-undispatched :
    (deflate : ℕ → List ℕ → Option (List ℕ)) (threshold : Option ℕ) (now : ℕ) (channel : Channel)
    (task : Task) (m : Master)
    → (is_task_outdated now task || is_app_rate_limit_reached m.workers_broker task.application_id)
      ≡ true
    → let m' = on_task deflate threshold now channel task m in
      (m'.workers_broker ≡ m.workers_broker)
      × (m'.requests ≡ (
          if is_task_outdated now task || m.compression_enabled
          then m.requests
          else pushes channel task ∷ m.requests))
      × (m'.dispatches ≡ m.dispatches)
unfolding on_task
on_task-undispatched deflate threshold now channel task m held =
    elim (Bool-cases (is_task_outdated now task)) [
      | inl old ↦ rw old (ask_again-same channel m)
      | inr fresh ↦
          let reached : is_app_rate_limit_reached m.workers_broker task.application_id ≡ true =
            ground (arith, held, fresh) in
          elim (Bool-cases m.compression_enabled) [
            | inl on ↦
                let same = ask_again-same channel m in
                rw
                  (
                    fresh,
                    reached,
                    push_task_back-compressed deflate threshold m.compression_enabled channel task
                        on,
                  )
                  (same.0, same.1 ∙ ground (arith, on), same.2)
            | inr off ↦
                let same =
                  ask_again-same channel
                    (record m { requests = pushes channel task ∷ m.requests }) in
                rw
                  (
                    fresh,
                    reached,
                    push_task_back-plain deflate threshold m.compression_enabled channel task off,
                  )
                  (same.0, same.1 ∙ ground (arith, off), same.2)
          ]
    ]

-- The task as it goes to a worker.
abbrev pub flagged : Task → Task
flagged task = record task { cacheable = is_task_cacheable task }

start_dispatch-found :
    (now : ℕ) (channel : Channel) (task : Task) (m : Master) (w : ℕ) (b : Broker)
    → get_worker_for_task now task.application_id (is_task_cacheable task) m.workers_broker
      ≡ found w b
    → (start_dispatch now channel task m).workers_broker ≡ process_task now (flagged task) w b
unfolding start_dispatch search_worker
start_dispatch-found now main_tasks task m w b e = ground (arith, e)
start_dispatch-found now low_priority_tasks task m w b e = ground (arith, e)

below :
    (reached enabled : Bool) (limit n n' : ℕ) (l l' : ℤ)
    → (reached ≡ true) ↔ ((enabled ≡ true) × (limit ≤ n))
    → reached ≡ false
    → enabled ≡ true
    → l ≡ pos n
    → l' ≡ pos n'
    → l' ≡ l +ℤ pos 1
    → n' ≤ limit
unfolding ◌+ℤ◌
below reached enabled limit n n' l l' iff free on before after add = ground arith

-- If the pools are consistent, limiting is on and the limit of an app is at least 1, then a task of the
-- app that is not outdated, whose kind can be cached, which comes while the limit is not reached, and
-- for which a worker is found at once, leaves no more workers busy with the app than its limit allows.
pub on_task-le_limit :
    (deflate : ℕ → List ℕ → Option (List ℕ)) (threshold : Option ℕ) (now : ℕ) (channel : Channel)
    (task : Task) (m : Master) (w : ℕ) (b : Broker)
    → IsConsistent m.workers_broker
    → is_task_outdated now task ≡ false
    → is_app_rate_limit_reached m.workers_broker task.application_id ≡ false
    → m.workers_broker.rate_limit_enabled ≡ true
    → 0 < get_app_rate_limit m.workers_broker task.application_id
    → is_task_cacheable task ≡ true
    → get_worker_for_task now task.application_id true m.workers_broker ≡ found w b
    → let b' = (on_task deflate threshold now channel task m).workers_broker in
      count_app b'.worker task.application_id b'.busy_workers
      ≤ get_app_rate_limit m.workers_broker task.application_id
unfolding on_task
on_task-le_limit deflate threshold now channel task m w b c fresh free enabled positive cacheable
      e =
    let s = m.workers_broker in
    let app = task.application_id in
    let (d, born_free) = subst Succeeds e (get_worker_for_task-Succeeds now app true s c) in
    let found_now : get_worker_for_task now app (is_task_cacheable task) s ≡ found w b =
      rw cacheable e in
    let later = process_task-IsConsistent now (flagged task) w b born_free d in
    let same = get_worker_for_task-same now app true s w b e in
    let load : load_of (process_task now (flagged task) w b) app ≡ load_of s app +ℤ pos 1 =
      process_task-load_of now (flagged task) w b app (get_worker_for_task-app now app s w b e)
      ∙ ap (λ (l : List (String × ℤ)). or_zero (lookup app l) +ℤ pos 1) same.0 in
    rw (fresh, free, start_dispatch-found now channel task m w b found_now)
      (below _ _ _ _ _ _ _ (is_app_rate_limit_reached_iff s app c positive) free enabled
        (c.load app) (later.load app) load)
