-- ===== src/Broker/Isolation.antt =====
-- Which tasks a worker process gets over its life, and the invariant that keeps applications apart: a
-- worker that is assigned to an app gets tasks of that app only, and one that is not gets one task.
pub mod Moves
pub mod Search
pub mod Steps
pub mod Apps
use js_code_runner.Common.{
  ℕ, ◌+◌, ◌≤◌, ◌≡◌, ◌≢◌, String, true, Option, none, some, List, [], ◌∷◌, occurs, if◌then◌else◌,
  ◌==◌,
}
use text.Mathlib.Text.{◌==◌ as str_eq}
use js_code_runner.Task.{Task}
use js_code_runner.Broker.{Broker, Worker, Effect, sends, place}

-- How many tasks were sent to a worker.
unfoldable pub count_sent : ℕ → List Effect → ℕ
count_sent w [] = 0
count_sent w (sends v task ∷ es) = (if w == v then 1 else 0) + count_sent w es
count_sent w (_ ∷ es) = count_sent w es

-- How many of them belong to another app than the given one.
unfoldable pub count_foreign : ℕ → String → List Effect → ℕ
count_foreign w app [] = 0
count_foreign w app (sends v task ∷ es) =
    (if w == v then if str_eq task.application_id app then 0 else 1 else 0) + count_foreign w app es
count_foreign w app (_ ∷ es) = count_foreign w app es

-- A worker that no task was sent to, and that is assigned to no app.
abbrev pub IsFresh : Broker → ℕ → Type 0
IsFresh s w = (count_sent w s.effects ≡ 0) × ((s.worker w).app_id ≡ none)

-- A worker that is in no pool and has no task.
abbrev pub IsApart : Broker → ℕ → Type 0
IsApart s w = (place s w ≡ none) × ((s.worker w).task ≡ none)

pub record IsIsolated (s : Broker) : Type 0 where
  pub idle_fresh : (w : ℕ) → occurs w s.idle_workers ≢ 0 → IsFresh s w
  pub starting_fresh : (w : ℕ) → (s.worker w).awaits_started ≡ true → IsFresh s w
  pub starting_apart : (w : ℕ) → (s.worker w).awaits_started ≡ true → IsApart s w
  pub unborn_fresh : (w : ℕ) → s.forked ≤ w → IsFresh s w
  pub own :
      (w : ℕ) (app : String) → (s.worker w).app_id ≡ some app → count_foreign w app s.effects ≡ 0
  pub single : (w : ℕ) → (s.worker w).app_id ≡ none → count_sent w s.effects ≤ 1
