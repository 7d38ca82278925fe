-- ===== src/Executor/Laws.antt =====
-- What a caller of execute can rely on.

use js_code_runner.Common.{
  ℕ, ◌≡◌, ◌≢◌, ◌<◌, refl, sym, ◌∙◌, String, Bool, true, false, ◌&&◌, Option, none, some, List, [],
  ltb, arith, Option-cases, Bool-cases, ◌⊎◌, inl, inr, subst,
}
use js_code_runner.Executor.Types.{
  Response, InvocationTask, ErrorValue, Outcome, returns, throws, Finish, blocks, Payload, absent,
  raw, encoded, InvocationResult, Environment, RunOptions,
}
use js_code_runner.Executor.Results.{invocation_result}
use js_code_runner.Executor.{
  Attempt, Execution, enrich_task, attempt, respond, with_bytes, encode_arguments, error_result,
  no_length, limit_exceeded, limited, conclude, execute,
}

-- A call that does not come back.
abbrev pub is_blocked {ℓ} : {A : Type ℓ} → Finish A → Bool
is_blocked blocks = true
is_blocked _ = false

module _ {ℓ} {M V : Type ℓ} (env : Environment M V) (opts : RunOptions) where
  pub enrich_task-same :
      (task : InvocationTask)
      → ((enrich_task env opts task).timeout ≡ task.timeout)
        × ((enrich_task env opts task).id ≡ task.id)
  unfolding enrich_task
  enrich_task-same task = (ground arith, ground arith)

  -- The arguments of a result are the bytes of the value that the code returned, or no bytes at all if
  -- it threw a falsy value.
  pub data HoldsOutcome (o : Outcome (Option V)) (args : Payload V) : Type ℓ where
    of_value :
        (v : V) (bytes : List ℕ)
        → o ≡ returns (some v)
        → env.encode v ≡ returns bytes
        → args ≡ encoded bytes
        → HoldsOutcome o args
    of_nothing : o ≡ throws none → args ≡ encoded [] → HoldsOutcome o args

  -- Why there is an exception: the code threw one, or the size of responses is limited.
  abbrev pub IsExcused : Outcome (Option V) → Type ℓ
  IsExcused o = ((e : ErrorValue) × (o ≡ throws (some e))) ⊎ (0 < opts.response_size_limit)

  -- A result that can be sent for a task whose code ended with `o`.
  abbrev pub IsSendable : String → Outcome (Option V) → InvocationResult V → Type ℓ
  IsSendable id o r =
      (r.request_id ≡ id) × (((r.exception ≢ none) × IsExcused o) ⊎ HoldsOutcome o r.arguments)

  with_bytes-IsSendable :
      (id : String) (v : V) (r r' : InvocationResult V) (bytes : Outcome (List ℕ))
      → env.encode v ≡ bytes
      → r.request_id ≡ id
      → with_bytes env opts r bytes ≡ returns (some r')
      → IsSendable id (returns (some v)) r'
  with_bytes-IsSendable id v r r' (throws e) coded same made = cc
  with_bytes-IsSendable id v r r' (returns bytes) coded same made =
      let made' : record r { arguments = encoded bytes } ≡ r' = ground arith in
      subst (IsSendable id (returns (some v))) made' (same, inr (of_value v bytes refl coded refl))

  encode_arguments-IsSendable :
      (t : InvocationTask) (left : Response) (o : Outcome (Option V)) (r : InvocationResult V)
      → encode_arguments env opts (respond env opts t left o) ≡ returns (some r)
      → IsSendable t.id o r
  unfolding encode_arguments respond invocation_result
  encode_arguments-IsSendable t left (returns none) r e = cc
  encode_arguments-IsSendable t left (returns (some v)) r e =
      with_bytes-IsSendable t.id v (invocation_result t.id left none (raw v)) r (env.encode v) refl
        refl e
  encode_arguments-IsSendable t left (throws none) r e =
      let plain : InvocationResult V = invocation_result t.id left none absent in
      let made : record plain { arguments = encoded [] } ≡ r = ground arith in
      subst (IsSendable t.id (throws none)) made (refl, inr (of_nothing refl refl))
  encode_arguments-IsSendable t left (throws (some err)) r e =
      let made : invocation_result t.id left (some err) absent ≡ r = ground arith in
      subst (IsSendable t.id (throws (some err))) made (refl, inl (λ h. cc, inl (err, refl)))

  limited-IsSendable :
      (t : InvocationTask) (left : Response) (ended : Outcome (Option V))
      (o : Outcome (Option (InvocationResult V))) (text : String)
      → ((r : InvocationResult V) → o ≡ returns (some r) → IsSendable t.id ended r)
      → limited env opts t left o ≡ returns (some text)
      → (r : InvocationResult V) × (text ≡ env.stringify r) × IsSendable t.id ended r
  unfolding limited invocation_result
  limited-IsSendable t left ended (throws e) text fine made = cc
  limited-IsSendable t left ended (returns none) text fine made = (
    error_result env opts t left no_length,
    ground arith,
    (refl, inl (λ h. cc, inr (ground arith))),
  )
  limited-IsSendable t left ended (returns (some r)) text fine made =
      elim (Bool-cases (
        ltb 0 opts.response_size_limit
        && ltb opts.response_size_limit (env.string_length (env.stringify r)))) [
          | inl over ↦ (
            error_result env opts t left limit_exceeded,
            ground (arith, over),
            (refl, inl (λ h. cc, inr (ground (arith, over)))),
          )
          | inr under ↦ (r, ground (arith, under), fine r refl)
        ]

  pub conclude-answer :
      (t : InvocationTask) (a : Attempt V) (o : Outcome (Option V)) (x : Execution)
      (s : Option (Outcome (Option V)))
      → s ≡ some o
      → conclude env opts t a s ≡ some x
      → x.answer
        ≡ limited env opts t a.left (encode_arguments env opts (respond env opts t a.left o))
  conclude-answer t a o x none ended done = cc
  conclude-answer t a o x (some p) ended done = ground arith

  -- Every text that execute answers with is the text of a result of the task that it was given. The
  -- attempt to run the task has then ended, and the result holds an exception, which it does only if the
  -- attempt ended with an error that is not falsy or the size of responses is limited; or the bytes of
  -- the value that the attempt ended with; or no bytes, if the attempt ended with a falsy error.
  pub execute-IsSendable :
      (task : InvocationTask) (model : Option M) (x : Execution) (text : String)
      → execute env opts task model ≡ some x
      → x.answer ≡ returns (some text)
      → (o : Outcome (Option V)) × (r : InvocationResult V) × ((attempt env opts
            (enrich_task env opts task)
            model).settled
          ≡ some o)
        × (text ≡ env.stringify r)
        × IsSendable task.id o r
  unfolding execute
  execute-IsSendable task model x text done made =
      let t = enrich_task env opts task in
      let a = attempt env opts t model in
      elim (Option-cases a.settled) [
        | inl pending ↦ absurd (ground (arith, pending))
        | inr (o, ended) ↦
            let answered : limited env opts t a.left
                  (encode_arguments env opts (respond env opts t a.left o))
                ≡ returns (some text) =
              sym (conclude-answer t a o x a.settled ended done) ∙ made in
            let (r, same, sendable) =
              limited-IsSendable t a.left o _ text (encode_arguments-IsSendable t a.left o)
                answered in
            (o, r, ended, same, (sendable.0 ∙ (enrich_task-same task).1, sendable.1))
      ]
