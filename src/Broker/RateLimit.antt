-- ===== src/Broker/RateLimit.antt =====
-- The rate limit of an app, in terms of its busy workers.
use js_code_runner.Common.{ℕ, ◌≤◌, ◌<◌, ◌≡◌, String, true, Option, none, some, ◌↔◌, arith}
use js_code_runner.Common.Int.{ℤ, pos}
use js_code_runner.Common.Dict.{lookup}
use js_code_runner.Broker.{Broker, get_app_rate_limit, or_zero, at_least, is_app_rate_limit_reached}
use js_code_runner.Broker.Invariant.{IsConsistent, count_app}

at_least-count :
    (o : Option ℤ) (limit n : ℕ)
    → 0 < limit
    → or_zero o ≡ pos n
    → (at_least o limit ≡ true) ↔ (limit ≤ n)
at_least-count none limit n h e = ground arith
at_least-count (some z) limit n h e = ground arith

-- With consistent pools and a limit of at least 1, the limit of an app counts as reached exactly when
-- limiting is on and at least that many busy workers belong to the app.
pub is_app_rate_limit_reached_iff :
    (s : Broker) (app : String)
    → IsConsistent s
    → 0 < get_app_rate_limit s app
    → (is_app_rate_limit_reached s app ≡ true) ↔ (
        (s.rate_limit_enabled ≡ true)
        × (get_app_rate_limit s app ≤ count_app s.worker app s.busy_workers))
unfolding is_app_rate_limit_reached
is_app_rate_limit_reached_iff s app c h =
    let reached =
      at_least-count (lookup app s.apps_load) (get_app_rate_limit s app) _ h (c.load app) in
    ground (arith, reached)
