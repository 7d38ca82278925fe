-- ===== src/Broker/Invariant.antt =====
-- The invariant of the broker's pools: each pool holds the workers that say they are in it, and
-- `appsLoad` counts the busy workers of each app.
pub mod Count
pub mod Moves
pub mod Search
pub mod Steps
use js_code_runner.Common.{ℕ, ◌+◌, ◌≤◌, ◌≡◌, String, if◌then◌else◌, none, List, [], ◌∷◌, occurs}
use text.Mathlib.Text.{◌==◌}
use js_code_runner.Common.Int.{pos}
use js_code_runner.Broker.{Broker, Worker, idle, cached, busy, at, place, key, load_of}

abbrev pub tally : String → String → ℕ
tally app a = if app == a then 1 else 0

-- How many of the listed workers belong to an app.
unfoldable pub count_app : (ℕ → Worker) → String → List ℕ → ℕ
count_app f a [] = 0
count_app f a (w ∷ ws) = tally (key (f w).app_id) a + count_app f a ws

pub record IsConsistent (s : Broker) : Type 0 where
  pub idle_once : (w : ℕ) → occurs w s.idle_workers ≤ (if at idle (place s w) then 1 else 0)
  pub cached_once : (w : ℕ) → occurs w s.cached_workers ≤ (if at cached (place s w) then 1 else 0)
  pub busy_once : (w : ℕ) → occurs w s.busy_workers ≡ (if at busy (place s w) then 1 else 0)
  pub unborn : (w : ℕ) → s.forked ≤ w → place s w ≡ none
  pub load : (a : String) → load_of s a ≡ pos (count_app s.worker a s.busy_workers)
