-- ===== src/Broker/Isolation/Apps.antt =====
-- lib/server-code/runners/cloud-workers-broker.js, from the constructor on: no worker process runs the
-- code of two applications.
use js_code_runner.Common.{
  ℕ, ◌≤◌, ◌≡◌, sym, ◌∙◌, String, some, List, [], ◌∷◌, arith, eq_iff, eq_of_some, ap, subst, inl,
  inr, Option-cases, get_elem?, zero, suc,
}
use js_code_runner.Task.{Task}
use js_code_runner.Broker.{
  Broker, Options, Effect, forks, sends, kills, ready_for_next_task, task_processed,
}
use js_code_runner.Broker.Pools.{keep_min_idle_workers_count}
use js_code_runner.Broker.Start.{
  WorkersConfig, empty_broker, create_broker, create_broker-IsConsistent,
}
use js_code_runner.Broker.Invariant.Steps.{Reach}
use js_code_runner.Broker.Isolation.{count_sent, count_foreign, IsIsolated}
use js_code_runner.Broker.Isolation.Moves.{start_workers-IsIsolated}
use js_code_runner.Broker.Isolation.Steps.{Reach-IsIsolated}

empty_broker-IsIsolated : (o : Options) → IsIsolated (empty_broker o)
unfolding empty_broker count_sent count_foreign
empty_broker-IsIsolated o = record {
  idle_fresh = λ w h. ground arith;
  starting_fresh = λ w h. ground arith;
  starting_apart = λ w h. ground arith;
  unborn_fresh = λ w h. ground arith;
  own = λ w app h. ground arith;
  single = λ w h. ground arith;
}

create_broker-IsIsolated :
    (now cpus : ℕ) (pid : ℕ → ℕ) (c : WorkersConfig) → IsIsolated (create_broker now cpus pid c)
unfolding create_broker keep_min_idle_workers_count
create_broker-IsIsolated now cpus pid c =
    start_workers-IsIsolated _ now _ (empty_broker-IsIsolated _)

-- Effects are never taken back, so what was counted stays counted.
count_foreign_rest :
    (w : ℕ) (app : String) (x : Effect) (es : List Effect)
    → count_foreign w app (x ∷ es) ≡ 0
    → count_foreign w app es ≡ 0
unfolding count_foreign
count_foreign_rest w app (sends v u) es n = ground arith
count_foreign_rest w app (forks v) es n = n
count_foreign_rest w app (kills v) es n = n
count_foreign_rest w app ready_for_next_task es n = n
count_foreign_rest w app (task_processed u r) es n = n

count_sent_rest : (w : ℕ) (x : Effect) (es : List Effect) → count_sent w es ≤ count_sent w (x ∷ es)
unfolding count_sent
count_sent_rest w (sends v u) es = ground arith
count_sent_rest w (forks v) es = omega arith
count_sent_rest w (kills v) es = omega arith
count_sent_rest w ready_for_next_task es = omega arith
count_sent_rest w (task_processed u r) es = omega arith

sent-own :
    (w : ℕ) (t : Task) (app : String) (es : List Effect) (i : ℕ)
    → get_elem? es i ≡ some (sends w t)
    → count_foreign w app es ≡ 0
    → t.application_id ≡ app
unfolding count_foreign
sent-own w t app [] i e n = cc
sent-own w t app (x ∷ es) zero e n =
    let made : x ≡ sends w t = eq_of_some e in
    let counted : count_foreign w app (sends w t ∷ es) ≡ 0 =
      subst (λ y. count_foreign w app (y ∷ es) ≡ 0) made n in
    ground (arith, counted, eq_iff t.application_id app)
sent-own w t app (x ∷ es) (suc i) e n = sent-own w t app es i e (count_foreign_rest w app x es n)

sent-counted :
    (w : ℕ) (t : Task) (es : List Effect) (i : ℕ)
    → get_elem? es i ≡ some (sends w t)
    → 1 ≤ count_sent w es
unfolding count_sent
sent-counted w t [] i e = cc
sent-counted w t (x ∷ es) zero e =
    let made : x ≡ sends w t = eq_of_some e in
    let counted : 1 ≤ count_sent w (sends w t ∷ es) = ground arith in rw made counted
sent-counted w t (x ∷ es) (suc i) e = omega (arith, sent-counted w t es i e, count_sent_rest w x es)

-- Where one task at most was sent, two that were sent are the same.
sent-single :
    (w : ℕ) (t u : Task) (es : List Effect) (i j : ℕ)
    → get_elem? es i ≡ some (sends w t)
    → get_elem? es j ≡ some (sends w u)
    → count_sent w es ≤ 1
    → t ≡ u
unfolding count_sent
sent-single w t u [] i j e f n = cc
sent-single w t u (x ∷ es) zero zero e f n = cc
sent-single w t u (x ∷ es) zero (suc j) e f n =
    let made : x ≡ sends w t = eq_of_some e in
    let counted : count_sent w (sends w t ∷ es) ≤ 1 =
      subst (λ y. count_sent w (y ∷ es) ≤ 1) made n in
    absurd (ground (arith, counted, sent-counted w u es j f))
sent-single w t u (x ∷ es) (suc i) zero e f n =
    let made : x ≡ sends w u = eq_of_some f in
    let counted : count_sent w (sends w u ∷ es) ≤ 1 =
      subst (λ y. count_sent w (y ∷ es) ≤ 1) made n in
    absurd (ground (arith, counted, sent-counted w t es i e))
sent-single w t u (x ∷ es) (suc i) (suc j) e f n =
    sent-single w t u es i j e f (omega (arith, n, count_sent_rest w x es))

-- In every state that a broker comes to, whatever happened since its constructor and in whatever
-- order, all the tasks that were ever sent to one worker process belong to the same app.
pub Reach-same_app :
    (now cpus : ℕ) (pid : ℕ → ℕ) (c : WorkersConfig) (s : Broker) (w : ℕ) (t u : Task) (i j : ℕ)
    → Reach (create_broker now cpus pid c) s
    → get_elem? s.effects i ≡ some (sends w t)
    → get_elem? s.effects j ≡ some (sends w u)
    → t.application_id ≡ u.application_id
Reach-same_app now cpus pid c s w t u i j r e f =
    let v =
      Reach-IsIsolated (create_broker-IsConsistent now cpus pid c)
        (create_broker-IsIsolated now cpus pid c) r in
    elim (Option-cases (s.worker w).app_id) [
      | inl unassigned ↦
          ap (λ x. x.application_id) (sent-single w t u s.effects i j e f (v.single w unassigned))
      | inr (app, assigned) ↦
          let foreign = v.own w app assigned in
          sent-own w t app s.effects i e foreign ∙ sym (sent-own w u app s.effects j f foreign)
    ]
