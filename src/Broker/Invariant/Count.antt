-- ===== src/Broker/Invariant/Count.antt =====
-- How the count of an app's workers changes when a worker object or a list of workers changes.
use js_code_runner.Common.{ℕ, ◌+◌, ◌≡◌, ◌≢◌, String, List, [], ◌∷◌, occurs, remove, arith}
use js_code_runner.Broker.{Worker, key}
use js_code_runner.Broker.Pools.{update}
use js_code_runner.Broker.Invariant.{count_app, tally}

pub count_app-update_absent :
    (f : ℕ → Worker) (w : ℕ) (x : Worker) (a : String) (l : List ℕ)
    → occurs w l ≡ 0
    → count_app (update f w x) a l ≡ count_app f a l
unfolding count_app
count_app-update_absent f w x a [] h = ground arith
count_app-update_absent f w x a (v ∷ vs) h = ground (arith, count_app-update_absent f w x a vs)

pub count_app-update_same :
    (f : ℕ → Worker) (w : ℕ) (x : Worker) (a : String) (l : List ℕ)
    → x.app_id ≡ (f w).app_id
    → count_app (update f w x) a l ≡ count_app f a l
unfolding count_app
count_app-update_same f w x a [] h = ground arith
count_app-update_same f w x a (v ∷ vs) h = ground (arith, count_app-update_same f w x a vs h)

pub count_app-remove :
    (f : ℕ → Worker) (w : ℕ) (a : String) (l : List ℕ)
    → occurs w l ≢ 0
    → count_app f a l ≡ count_app f a (remove w l) + tally (key (f w).app_id) a
unfolding count_app
count_app-remove f w a [] h = ground arith
count_app-remove f w a (v ∷ vs) h = ground (arith, count_app-remove f w a vs)
