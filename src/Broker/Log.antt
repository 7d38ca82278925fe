-- ===== src/Broker/Log.antt =====
-- What the broker has sent to its workers, which workers it has killed and what it has passed on to its
-- listeners, read off the effects, the latest first.
use js_code_runner.Common.{
  ℕ, zero, suc, ◌≡◌, refl, ◌∙◌, String, Bool, true, false, ◌||◌, Option, List, [], ◌∷◌, arith,
}
use js_code_runner.Task.{Task}
use js_code_runner.Broker.{Broker, Place, busy, at, place, Effect, sends, kills, task_processed}
use js_code_runner.Broker.Pools.{
  start_new_worker, start_workers, keep_min_idle_workers_count, move_worker, account, account_if,
  keep_min_if, relocate_worker,
}

-- The results passed on, each with the task of its worker.
unfoldable pub results_of : List Effect → List (Option Task × Option String)
results_of [] = []
results_of (task_processed task result ∷ es) = (task, result) ∷ results_of es
results_of (_ ∷ es) = results_of es

-- The tasks sent, each with the worker that it was sent to.
unfoldable pub sent_of : List Effect → List (ℕ × Task)
sent_of [] = []
sent_of (sends w task ∷ es) = (w, task) ∷ sent_of es
sent_of (_ ∷ es) = sent_of es

-- The workers killed.
unfoldable pub killed_of : List Effect → List ℕ
killed_of [] = []
killed_of (kills w ∷ es) = w ∷ killed_of es
killed_of (_ ∷ es) = killed_of es

-- Two lists of effects that do not differ in these.
abbrev pub SameLog : List Effect → List Effect → Type 0
SameLog es fs =
    (results_of es ≡ results_of fs) × (sent_of es ≡ sent_of fs) × (killed_of es ≡ killed_of fs)

SameLog-trans : (es fs gs : List Effect) → SameLog es fs → SameLog fs gs → SameLog es gs
SameLog-trans es fs gs h k = (h.0 ∙ k.0, h.1 ∙ k.1, h.2 ∙ k.2)

start_workers-SameLog : (n now : ℕ) (s : Broker) → SameLog (start_workers n now s).effects s.effects
unfolding start_workers start_new_worker results_of sent_of killed_of
start_workers-SameLog zero now s = (refl, refl, refl)
start_workers-SameLog (suc n) now s = start_workers-SameLog n now (start_new_worker now s)

keep_min_if-SameLog :
    (b : Bool) (now : ℕ) (s : Broker) → SameLog (keep_min_if b now s).effects s.effects
unfolding keep_min_if keep_min_idle_workers_count
keep_min_if-SameLog true now s = start_workers-SameLog _ now s
keep_min_if-SameLog false now s = (refl, refl, refl)

account_if-SameLog :
    (b : Bool) (w : ℕ) (to_busy : Bool) (s : Broker)
    → SameLog (account_if b w to_busy s).effects s.effects
unfolding account_if account results_of sent_of killed_of
account_if-SameLog true w to_busy s = (ground arith, ground arith, ground arith)
account_if-SameLog false w to_busy s = (refl, refl, refl)

pub relocate_worker-SameLog :
    (now w : ℕ) (new : Option Place) (s : Broker)
    → SameLog (relocate_worker now w new s).effects s.effects
unfolding relocate_worker move_worker
relocate_worker-SameLog now w new s = SameLog-trans _ _ _ (keep_min_if-SameLog _ now _) (
    account_if-SameLog (at busy (place s w) || at busy new) w (at busy new)
      (move_worker now w new s))
