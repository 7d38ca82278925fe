-- ===== src/Master/Ready.antt =====
-- When the master asks for a task.
use js_code_runner.Common.{◌+◌, ◌*◌, ◌≤◌, ◌<◌, ◌≡◌, ◌≢◌, true, false, length, arith, ◌↔◌, ◌⊎◌}
use js_code_runner.Broker.{get_available_workers_count}
use js_code_runner.Master.{Master, on_ready_for_next_tasks}

-- A running master that has no request for a low priority task open makes one exactly when a
-- threshold is set, the load is below it, and at least two workers are not busy.
pub on_ready_for_next_tasks-low_priority_iff :
    (m : Master)
    → m.stopped ≡ false
    → m.low_priority_requested ≡ false
    → let b = m.workers_broker in
      ((on_ready_for_next_tasks m).low_priority_requested ≡ true) ↔ (
        (m.threshold_numerator ≢ 0)
        × (length b.busy_workers * m.threshold_denominator
            < m.threshold_numerator * b.concurrent_workers_limit)
        × (length b.busy_workers + 2 ≤ b.concurrent_workers_limit))
unfolding on_ready_for_next_tasks get_available_workers_count
on_ready_for_next_tasks-low_priority_iff m running free = ground arith

-- A running master has a request for a main task open afterwards exactly when it had one before or
-- some worker is not busy.
pub on_ready_for_next_tasks-main_iff :
    (m : Master)
    → m.stopped ≡ false
    → let b = m.workers_broker in
      ((on_ready_for_next_tasks m).main_requested ≡ true)
      ↔ (((m.main_requested ≡ true)) ⊎ (length b.busy_workers < b.concurrent_workers_limit))
unfolding on_ready_for_next_tasks get_available_workers_count
on_ready_for_next_tasks-main_iff m running = ground arith

-- Being ready twice asks for nothing more than being ready once: each channel has at most one request
-- open.
pub on_ready_for_next_tasks-twice :
    (m : Master) → on_ready_for_next_tasks (on_ready_for_next_tasks m) ≡ on_ready_for_next_tasks m
unfolding on_ready_for_next_tasks
on_ready_for_next_tasks-twice m = ground arith

-- A stopped master asks for nothing.
on_ready_for_next_tasks-stopped : (m : Master) → m.stopped ≡ true → on_ready_for_next_tasks m ≡ m
unfolding on_ready_for_next_tasks
on_ready_for_next_tasks-stopped m stopped = ground arith
