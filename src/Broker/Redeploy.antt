-- ===== src/Broker/Redeploy.antt =====
-- What killAllAppWorkers does to the cached workers of an app that is deployed anew: the loop over
-- them changes the array that it walks.
use js_code_runner.Common.{
  ℕ, zero, suc, ◌≤◌, ◌≡◌, ◌≢◌, refl, ◌∙◌, ap, String, true, none, some, List, [], ◌∷◌, ◌++◌, length,
  occurs, occurs-remove, remove, arith, get_elem?, if◌then◌else◌, Option-cases, Bool-cases, inl,
  inr, subst, eq_iff,
}
use js_code_runner.Broker.{Broker, Effect, cached, at, place}
use js_code_runner.Broker.Pools.{move_worker, kill_worker}
use js_code_runner.Broker.Dispatch.{same_app}
use js_code_runner.Broker.Events.{
  mark_one, mark_app_workers, visit, kill_cached, kill_all_app_workers,
}
use js_code_runner.Broker.Invariant.{IsConsistent}
use js_code_runner.Broker.Log.{killed_of, relocate_worker-SameLog}
use js_code_runner.Broker.Assign.{relocate_worker-pools}

-- A worker `v` that stands first among the cached ones, and not again.
abbrev StaysFirst : ℕ → Broker → Type 0
StaysFirst v s = (rest : List ℕ) × (s.cached_workers ≡ v ∷ rest) × (occurs v rest ≡ 0)

-- The workers killed after those of `ks`, and that `v` is not one of them.
abbrev IsSpared : ℕ → List ℕ → Broker → Type 0
IsSpared v ks s = (more : List ℕ) × (killed_of s.effects ≡ more ++ ks) × (occurs v more ≡ 0)

kill_worker-killed_of :
    (now u : ℕ) (s : Broker) → killed_of (kill_worker now u s).effects ≡ u ∷ killed_of s.effects
unfolding kill_worker killed_of
kill_worker-killed_of now u s = ap (λ (l : List ℕ). u ∷ l) (relocate_worker-SameLog now u none s).2

kill_worker-IsSpared :
    (now u v : ℕ) (ks : List ℕ) (s : Broker)
    → v ≢ u
    → IsSpared v ks s
    → IsSpared v ks (kill_worker now u s)
kill_worker-IsSpared now u v ks s apart (more, e, never) = (
  u ∷ more,
  kill_worker-killed_of now u s ∙ ap (λ (l : List ℕ). u ∷ l) e,
  ground (arith, apart, never),
)

get_elem?-occurs : (l : List ℕ) (k u v : ℕ) → get_elem? l k ≡ some u → occurs v l ≡ 0 → v ≢ u
get_elem?-occurs [] k u v e h = cc
get_elem?-occurs (x ∷ xs) zero u v e h = λ same. absurd (ground arith)
get_elem?-occurs (x ∷ xs) (suc k) u v e h = get_elem?-occurs xs k u v e (ground arith)

kill_worker-StaysFirst :
    (now u v : ℕ) (s : Broker) → v ≢ u → StaysFirst v s → StaysFirst v (kill_worker now u s)
unfolding kill_worker move_worker
kill_worker-StaysFirst now u v s apart (rest, e, once) =
    let pools = (relocate_worker-pools now u none s).1 in
    elim (Bool-cases (at cached (place s u))) [
      | inl here ↦
          (remove u rest, pools ∙ ground (arith, here, e), ground (arith, occurs-remove v u rest))
      | inr away ↦ (rest, pools ∙ ground (arith, away, e), once)
    ]

visit-StaysFirst :
    (now k v : ℕ) (ks : List ℕ) (app : String) (s : Broker)
    → StaysFirst v s × IsSpared v ks s
    → StaysFirst v (visit now app s (get_elem? s.cached_workers (suc k)))
      × IsSpared v ks (visit now app s (get_elem? s.cached_workers (suc k)))
visit-StaysFirst now k v ks app s ((rest, e, once), spared) =
    elim (Option-cases (get_elem? rest k)) [
      | inl none_there ↦
          rw (ap (λ (l : List ℕ). get_elem? l (suc k)) e ∙ none_there) ((rest, e, once), spared)
      | inr (u, there) ↦
          rw (ap (λ (l : List ℕ). get_elem? l (suc k)) e ∙ there)
            (elim (Bool-cases (same_app (s.worker u).app_id app)) [
              | inl same ↦
                  let apart = get_elem?-occurs rest k u v there once in
                  rw same (
                    kill_worker-StaysFirst now u v s apart (rest, e, once),
                    kill_worker-IsSpared now u v ks s apart spared,
                  )
              | inr other ↦ rw other ((rest, e, once), spared)
            ])
    ]

kill_cached-StaysFirst :
    (rounds k now v : ℕ) (ks : List ℕ) (app : String) (s : Broker)
    → StaysFirst v s × IsSpared v ks s
    → StaysFirst v (kill_cached rounds (suc k) now app s)
      × IsSpared v ks (kill_cached rounds (suc k) now app s)
unfolding kill_cached
kill_cached-StaysFirst zero k now v ks app s h = h
kill_cached-StaysFirst (suc rounds) k now v ks app s h =
    kill_cached-StaysFirst rounds (suc k) now v ks app _ (visit-StaysFirst now k v ks app s h)

mark_one-same :
    (app reason : String) (x : ℕ) (s : Broker) (w : ℕ)
    → ((mark_one app reason x s).cached_workers ≡ s.cached_workers)
      × (place (mark_one app reason x s) w ≡ place s w)
      × (((mark_one app reason x s).worker w).app_id ≡ (s.worker w).app_id)
      × ((mark_one app reason x s).effects ≡ s.effects)
mark_one-same app reason x s w = (ground arith, ground arith, ground arith, ground arith)

-- Marking changes neither the cached workers, nor the places and the apps of the workers, nor kills.
mark_app_workers-same :
    (app reason : String) (ws : List ℕ) (s : Broker) (w : ℕ)
    → ((mark_app_workers app reason ws s).cached_workers ≡ s.cached_workers)
      × (place (mark_app_workers app reason ws s) w ≡ place s w)
      × (((mark_app_workers app reason ws s).worker w).app_id ≡ (s.worker w).app_id)
      × ((mark_app_workers app reason ws s).effects ≡ s.effects)
unfolding mark_app_workers
mark_app_workers-same app reason [] s w = (refl, refl, refl, refl)
mark_app_workers-same app reason (x ∷ xs) s w =
    let one = mark_one-same app reason x s w in
    let ih = mark_app_workers-same app reason xs (mark_one app reason x s) w in
    (ih.0 ∙ one.0, ih.1 ∙ one.1, ih.2 ∙ one.2, ih.3 ∙ one.3)

kill_first :
    (now w v : ℕ) (app : String) (s : Broker) (rest : List ℕ)
    → s.cached_workers ≡ w ∷ v ∷ rest
    → at cached (place s w) ≡ true
    → occurs v rest ≡ 0
    → StaysFirst v (kill_worker now w s)
unfolding kill_worker move_worker
kill_first now w v app s rest e here once =
    (rest, (relocate_worker-pools now w none s).1 ∙ ground (arith, e, here), once)

kill_cached-skips :
    (n now w v : ℕ) (app : String) (s : Broker) (rest : List ℕ)
    → s.cached_workers ≡ w ∷ v ∷ rest
    → at cached (place s w) ≡ true
    → same_app (s.worker w).app_id app ≡ true
    → occurs v rest ≡ 0
    → StaysFirst v (kill_cached (suc n) 0 now app s)
      × IsSpared v (w ∷ killed_of s.effects) (kill_cached (suc n) 0 now app s)
unfolding kill_cached
kill_cached-skips n now w v app s rest e here same once =
    kill_cached-StaysFirst n 0 now v (w ∷ killed_of s.effects) app _ (
      rw (ap (λ (l : List ℕ). get_elem? l 0) e, same)
        (kill_first now w v app s rest e here once, ([], kill_worker-killed_of now w s, refl)))

-- If the pools are consistent and two workers of the app stand first among the cached ones: the first
-- is killed, but no worker killed after it is the second, which at the end stands first among the
-- cached ones, although it is of the same app.
pub kill_all_app_workers-skips :
    (now : ℕ) (app reason : String) (s : Broker) (w v : ℕ) (rest : List ℕ)
    → IsConsistent s
    → s.cached_workers ≡ w ∷ v ∷ rest
    → (s.worker w).app_id ≡ some app
    → (s.worker v).app_id ≡ some app
    → let s' = kill_all_app_workers now app reason s in
      ((more : List ℕ) × (killed_of s'.effects ≡ more ++ w ∷ killed_of s.effects)
        × (occurs v more ≡ 0))
      × ((rest' : List ℕ) × (s'.cached_workers ≡ v ∷ rest') × (occurs v rest' ≡ 0))
unfolding kill_all_app_workers
kill_all_app_workers-skips now app reason s w v rest c e app_w app_v =
    let m = mark_app_workers app reason s.cluster_workers s in
    let same = mark_app_workers-same app reason s.cluster_workers s w in
    let e' : m.cached_workers ≡ w ∷ v ∷ rest = same.0 ∙ e in
    let once_w =
      subst (λ l. occurs w l ≤ (if at cached (place s w) then 1 else 0)) e (c.cached_once w) in
    let once_v =
      subst (λ l. occurs v l ≤ (if at cached (place s v) then 1 else 0)) e (c.cached_once v) in
    let (first, (more, killed, spared)) =
      kill_cached-skips (suc (length rest)) now w v app m rest e'
        (rw same.1 (ground (arith, once_w))) (rw (same.2 ∙ app_w) ((eq_iff app app).1 refl))
        (ground (arith, once_v)) in
    rw (ap (λ (l : List ℕ). length l) e')
      ((more, killed ∙ ap (λ (es : List Effect). more ++ w ∷ killed_of es) same.3, spared), first)
