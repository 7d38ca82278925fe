-- ===== src/Executor/Runs.antt =====
-- What execute answers in the cases that are not plain: a long response, a timeout, a missing value.

use js_code_runner.Common.{
  ℕ, ◌≤◌, ◌<◌, ◌≡◌, refl, sym, ◌∙◌, ap, String, Bool, true, false, Option, none, some, [], ltb,
  arith, Option-cases, Bool-cases, ◌⊎◌, inl, inr,
}
use js_code_runner.Common.Int.{ℤ, pos, negsuc}
use js_code_runner.Executor.Types.{
  Response, InvocationTask, Outcome, returns, throws, Finish, blocks, never, late, in_time, Run,
  absent, encoded, InvocationResult, Environment, RunOptions,
}
use js_code_runner.Executor.Results.{invocation_result, error_of, exception_of}
use js_code_runner.Executor.{
  Execution, timeout_message, timeout_error, settled_with_timer, race, critical_error_of,
  enrich_task, get_task_executor, execute_task, choose_model, run_with, attempt, respond,
  encode_arguments, error_text, no_length, limit_exceeded, limited, execute,
}
use js_code_runner.Executor.Laws.{enrich_task-same, conclude-answer}

-- A promise that has not settled when the timer of the task fires.
abbrev pub is_overdue {ℓ} : {A : Type ℓ} → Finish A → Bool
is_overdue blocks = false
is_overdue never = true
is_overdue (late o) = true
is_overdue (in_time o) = false

overdue-settled {ℓ} :
    {A : Type ℓ} (f : Finish A)
    → is_overdue f ≡ true
    → settled_with_timer f ≡ some (throws (some timeout_error))
overdue-settled blocks h = cc
overdue-settled never h = refl
overdue-settled (late o) h = refl
overdue-settled (in_time o) h = cc

module _ {ℓ} {M V : Type ℓ} (env : Environment M V) (opts : RunOptions) where
  limited-le :
      (t : InvocationTask) (left : Response) (o : Outcome (Option (InvocationResult V)))
      (text : String)
      → 0 < opts.response_size_limit
      → limited env opts t left o ≡ returns (some text)
      → (env.string_length text ≤ opts.response_size_limit)
        ⊎ ((m : String) × (text ≡ error_text env opts t left m))
  unfolding limited
  limited-le t left (throws e) text on made = cc
  limited-le t left (returns none) text on made = inr (no_length, ground arith)
  limited-le t left (returns (some r)) text on made =
      elim (Bool-cases (ltb opts.response_size_limit (env.string_length (env.stringify r)))) [
        | inl over ↦ inr (limit_exceeded, ground (arith, over))
        | inr under ↦ inl (ground (arith, under))
      ]

  error_text-same :
      (task : InvocationTask) (left : Response) (m : String)
      → error_text env opts (enrich_task env opts task) left m ≡ error_text env opts task left m
  error_text-same task left m =
      ap (λ (i : String). env.stringify (invocation_result i left (some (error_of m)) absent))
        (enrich_task-same env opts task).1

  -- With a limit on the size of a response, a text that is longer than the limit is never the
  -- response of the application: it is the text of an exception, without a value, for the same task.
  pub execute-le_limit :
      (task : InvocationTask) (model : Option M) (x : Execution) (text : String)
      → 0 < opts.response_size_limit
      → execute env opts task model ≡ some x
      → x.answer ≡ returns (some text)
      → opts.response_size_limit < env.string_length text
      → (left : Response) × (m : String) × (text ≡ error_text env opts task left m)
  unfolding execute
  execute-le_limit task model x text on done made long =
      let t = enrich_task env opts task in
      let a = attempt env opts t model in
      elim (Option-cases a.settled) [
        | inl pending ↦ absurd (ground (arith, pending))
        | inr (o, ended) ↦
            elim (limited-le t a.left _ text on
              (sym (conclude-answer env opts t a o x a.settled ended done) ∙ made)) [
                | inl short ↦ absurd (omega (arith, short, long))
                | inr (m, same) ↦ (a.left, m, same ∙ error_text-same task a.left m)
              ]
      ]

  race-timed :
      (timeout : ℤ) (n : ℕ) (r : Run V)
      → timeout ≡ pos n
      → race timeout r ≡ record { left = r.left; settled = settled_with_timer r.finish }
  unfolding race
  race-timed (pos m) n r e = refl
  race-timed (negsuc m) n r e = cc

  attempt-chosen :
      (t : InvocationTask) (model : Option M)
      → env.set_up t ≡ none
      → attempt env opts t model ≡ run_with env opts t (choose_model env opts t model)
  unfolding attempt
  attempt-chosen t model fine = rw (fine, attempt) refl

  execute_task-known :
      (t : InvocationTask) (model : Option M) (run : InvocationTask → Option M → Run V)
      → get_task_executor env opts t.jsonclass ≡ some run
      → execute_task env opts t model ≡ race t.timeout (run t model)
  unfolding execute_task
  execute_task-known t model run known = rw (known, execute_task) refl

  limited-unlimited :
      (t : InvocationTask) (left : Response) (r : InvocationResult V)
      → opts.response_size_limit ≡ 0
      → limited env opts t left (returns (some r)) ≡ returns (some (env.stringify r))
  unfolding limited
  limited-unlimited t left r unlimited = ground arith

  limited-undefined :
      (t : InvocationTask) (left : Response)
      → 0 < opts.response_size_limit
      → limited env opts t left (returns none)
        ≡ returns (some (error_text env opts t left no_length))
  unfolding limited
  limited-undefined t left on = ground arith

  -- A task that is set up, and whose executor is run with the chosen model.
  module _ (task : InvocationTask) (model chosen : Option M)
      (run : InvocationTask → Option M → Run V) (n : ℕ) where
    abbrev pub enriched : InvocationTask
    enriched = enrich_task env opts task

    attempt-run :
        task.timeout ≡ pos n
        → env.set_up enriched ≡ none
        → choose_model env opts enriched model ≡ returns chosen
        → get_task_executor env opts enriched.jsonclass ≡ some run
        → attempt env opts enriched model ≡ record {
          left = (run enriched chosen).left;
          settled = settled_with_timer (run enriched chosen).finish;
        }
    unfolding run_with
    attempt-run timed fine picked known =
        attempt-chosen enriched model fine
        ∙ ap (run_with env opts enriched) picked
        ∙ execute_task-known enriched chosen run known
        ∙ race-timed enriched.timeout n (run enriched chosen)
            ((enrich_task-same env opts task).0 ∙ timed)

    execute-run :
        (o : Outcome (Option V))
        → task.timeout ≡ pos n
        → env.set_up enriched ≡ none
        → choose_model env opts enriched model ≡ returns chosen
        → get_task_executor env opts enriched.jsonclass ≡ some run
        → settled_with_timer (run enriched chosen).finish ≡ some o
        → execute env opts task model
          ≡ some (record {
            critical_error = critical_error_of o;
            answer = limited env opts enriched (run enriched chosen).left (
                encode_arguments env opts (respond env opts enriched (run enriched chosen).left o));
          })
    unfolding execute
    execute-run o timed fine picked known ends = rw (attempt-run timed fine picked known, ends) refl

    -- A task with a timeout whose set-up and model do not fail, and whose code comes back with a promise
    -- that has not settled when the timer fires, is answered with the exception of the timeout, and the
    -- timeout is the critical error of the execution. There is no limit on the size of responses here.
    pub execute-overdue :
        task.timeout ≡ pos n
        → env.set_up enriched ≡ none
        → choose_model env opts enriched model ≡ returns chosen
        → get_task_executor env opts enriched.jsonclass ≡ some run
        → is_overdue (run enriched chosen).finish ≡ true
        → opts.response_size_limit ≡ 0
        → execute env opts task model
          ≡ some (record {
            critical_error = some timeout_message;
            answer =
                returns
                  (some (error_text env opts task (run enriched chosen).left timeout_message));
          })
    unfolding encode_arguments respond invocation_result exception_of
    execute-overdue timed fine picked known overdue unlimited =
        execute-run (throws (some timeout_error)) timed fine picked known
          (overdue-settled (run enriched chosen).finish overdue)
        ∙ ap
            (λ (a : Outcome (Option String)).
              some (record { critical_error = some timeout_message; answer = a }))
            (limited-unlimited enriched (run enriched chosen).left
                (invocation_result enriched.id (run enriched chosen).left (some timeout_error)
                  absent)
                unlimited
              ∙ ap (λ (s : String). returns (some s))
                  (error_text-same task (run enriched chosen).left timeout_message))

    -- With a limit on the size of responses, a task whose code returns `undefined` in time, as every
    -- asynchronous handler does, is answered with an exception.
    pub execute-undefined :
        task.timeout ≡ pos n
        → env.set_up enriched ≡ none
        → choose_model env opts enriched model ≡ returns chosen
        → get_task_executor env opts enriched.jsonclass ≡ some run
        → (run enriched chosen).finish ≡ in_time (returns none)
        → 0 < opts.response_size_limit
        → execute env opts task model
          ≡ some (record {
            critical_error = none;
            answer = returns (some (error_text env opts task (run enriched chosen).left no_length));
          })
    unfolding encode_arguments respond
    execute-undefined timed fine picked known ends on =
        execute-run (returns none) timed fine picked known (ap settled_with_timer ends)
        ∙ ap (λ (a : Outcome (Option String)). some (record { critical_error = none; answer = a }))
            (limited-undefined enriched (run enriched chosen).left on
              ∙ ap (λ (s : String). returns (some s))
                  (error_text-same task (run enriched chosen).left no_length))

    -- A task whose code throws a falsy value in time, as `Promise.reject()` does, is answered as a
    -- success with an empty list of arguments. There is no limit on the size of responses here.
    pub execute-falsy :
        task.timeout ≡ pos n
        → env.set_up enriched ≡ none
        → choose_model env opts enriched model ≡ returns chosen
        → get_task_executor env opts enriched.jsonclass ≡ some run
        → (run enriched chosen).finish ≡ in_time (throws none)
        → opts.response_size_limit ≡ 0
        → (r : InvocationResult V) × (execute env opts task model
            ≡ some (record { critical_error = none; answer = returns (some (env.stringify r)) }))
          × (r.request_id ≡ task.id)
          × (r.exception ≡ none)
          × (r.arguments ≡ encoded [])
    unfolding encode_arguments respond invocation_result
    execute-falsy timed fine picked known ends unlimited =
        let plain : InvocationResult V =
          invocation_result enriched.id (run enriched chosen).left none absent in
        let r : InvocationResult V = record plain { arguments = encoded [] } in
        (
          r,
          execute-run (throws none) timed fine picked known (ap settled_with_timer ends)
              ∙ ap
                  (λ (a : Outcome (Option String)).
                    some (record { critical_error = none; answer = a }))
                  (limited-unlimited enriched (run enriched chosen).left r unlimited),
          (enrich_task-same env opts task).1,
          refl,
          refl,
        )
