-- ===== src/Executor/Handler/Keeps.antt =====
-- What a handler does not change goes back as it came.
use text.Mathlib.Text.{◌==◌}
use js_code_runner.Common.{
  ℕ, zero, suc, ◌+◌, ◌≡◌, ◌≤◌, refl, ◌∙◌, ap, sym, subst, String, Bool, true, false, not, ◌&&◌,
  Option, none, some, List, [], ◌∷◌, ◌++◌, length, Bool-cases, inl, inr, if◌then◌else◌, arith,
  eq_iff, ◌==◌ as nat_eq,
}
use js_code_runner.Common.Dict.{lookup, lookup-insert}
use js_code_runner.ServerCode.Model.{includes}
use js_code_runner.ServerCode.Events.Types.{EventType, id, args}
use js_code_runner.ServerCode.Events.{events, get}
use js_code_runner.ServerCode.Events.Laws.{all, get-all}
use js_code_runner.Executor.Handler.{
  Values, HandlerArguments, element, put_at, prepare_from, prepare, with_unit_of_work,
  argument_transformer, answer_for, build_from, with_result, build_response,
}

element-put_at {ℓ} :
    {V : Type ℓ} (n m : ℕ) (x : Option V) (l : List (Option V))
    → element (put_at n x l) m ≡ (if nat_eq n m then x else element l m)
unfolding element put_at
element-put_at zero zero x [] = refl
element-put_at zero (suc m) x [] = ground arith
element-put_at zero zero x (y ∷ ys) = refl
element-put_at zero (suc m) x (y ∷ ys) = ground arith
element-put_at (suc n) zero x [] = ground arith
element-put_at (suc n) (suc m) x [] = element-put_at n m x [] ∙ ground arith
element-put_at (suc n) zero x (y ∷ ys) = ground arith
element-put_at (suc n) (suc m) x (y ∷ ys) = element-put_at n m x ys ∙ ground arith

module _ {ℓ} {V : Type ℓ} (values : Values V) where
  prepare_from-other :
      (k : ℕ) (names : List String) (task_args : List (Option V)) (h : HandlerArguments V)
      (name : String)
      → includes names name ≡ false
      → lookup name (prepare_from values k names task_args h).req ≡ lookup name h.req
  unfolding prepare_from
  prepare_from-other k [] task_args h name absent = refl
  prepare_from-other k (x ∷ xs) task_args h name absent =
      prepare_from-other (suc k) xs task_args _ name (ground arith)
      ∙ ground (arith, eq_iff x name, lookup-insert x name (element task_args (suc k)) h.req)

  prepare_from-req :
      (k : ℕ) (before after : List String) (task_args : List (Option V)) (h : HandlerArguments V)
      (name : String)
      → (name == "result") ≡ false
      → includes after name ≡ false
      → lookup name (prepare_from values k (before ++ name ∷ after) task_args h).req
        ≡ some (element task_args (suc (k + length before)))
  unfolding prepare_from
  prepare_from-req k [] after task_args h name plain once =
      prepare_from-other (suc k) after task_args _ name once
      ∙ ground (
        arith,
        plain,
        lookup-insert name name (element task_args (suc k)) h.req,
        eq_iff name name,
      )
  prepare_from-req k (x ∷ xs) after task_args h name plain once =
      prepare_from-req (suc k) xs after task_args _ name plain once
      ∙ ap (λ (i : ℕ). some (element task_args i)) (omega arith)

  build_from-early :
      (k m : ℕ) (names : List String) (h : HandlerArguments V) (task_args : List (Option V))
      → m ≤ k
      → element (build_from values k names h task_args) m ≡ element task_args m
  unfolding build_from
  build_from-early k m [] h task_args early = refl
  build_from-early k m (x ∷ xs) h task_args early =
      build_from-early (suc k) m xs h _ (omega arith)
      ∙ (element-put_at (suc k) m (answer_for values x h) task_args ∙ ground arith)

  build_from-at :
      (k : ℕ) (before after : List String) (h : HandlerArguments V) (task_args : List (Option V))
      (name : String)
      → element (build_from values k (before ++ name ∷ after) h task_args) (suc (k + length before))
        ≡ answer_for values name h
  unfolding build_from
  build_from-at k [] after h task_args name =
      build_from-early (suc k) (suc (k + 0)) after h _ (omega arith)
      ∙ (element-put_at (suc k) (suc (k + 0)) (answer_for values name h) task_args ∙ ground arith)
  build_from-at k (x ∷ xs) after h task_args name =
      ap (element (build_from values k ((x ∷ xs) ++ name ∷ after) h task_args)) (omega arith)
      ∙ build_from-at (suc k) xs after h _ name

  with_unit_of_work-other :
      (name : String) (unit : Option V) (h : HandlerArguments V)
      → (name == "unitOfWork") ≡ false
      → lookup name (with_unit_of_work values unit h).req ≡ lookup name h.req
  with_unit_of_work-other name none h other = refl
  with_unit_of_work-other name (some v) h other = ground (
    arith,
    other,
    eq_iff "unitOfWork" name,
    eq_iff name "unitOfWork",
    lookup-insert "unitOfWork" name (some v) h.req,
  )

  argument_transformer-other :
      (i : ℕ) (name : String) (h : HandlerArguments V)
      → (name == "unitOfWork") ≡ false
      → lookup name (argument_transformer values i h).req ≡ lookup name h.req
  unfolding argument_transformer
  argument_transformer-other i name h other = elim (Bool-cases (nat_eq i 134)) [
    | inl before ↦ rw before (with_unit_of_work-other name _ h other)
    | inr later ↦ elim (Bool-cases (nat_eq i 135)) [
      | inl after ↦ rw (later, after) (with_unit_of_work-other name _ h other)
      | inr plain ↦ rw (later, plain) refl
    ]
  ]

  answer_for-with_result :
      (name : String) (returned : Option V) (h : HandlerArguments V)
      → (name == "result") ≡ false
      → answer_for values name (with_result values returned h) ≡ answer_for values name h
  answer_for-with_result name none h plain = refl
  answer_for-with_result name (some v) h plain = ground (arith, plain)

distinct : List String → Bool
distinct [] = true
distinct (x ∷ xs) = not (includes xs x) && distinct xs

distinct-append :
    (before after : List String) (name : String)
    → distinct (before ++ name ∷ after) ≡ true
    → includes after name ≡ false
unfolding distinct
distinct-append [] after name h = ground arith
distinct-append (x ∷ xs) after name h = distinct-append xs after name (ground arith)

all-distinct : all (λ e. distinct (args e)) events ≡ true
unfolding all distinct
all-distinct = refl

-- For an event of the table, and a handler that leaves `req` as it got it, whatever it returns: the
-- arguments that go back hold the first value, which is the context, and each argument other than
-- `result` and `unitOfWork` in the place where the task held them.
pub build_response-prepare {ℓ} :
    {V : Type ℓ} (values : Values V) (i : ℕ) (e : EventType) (before after : List String)
    (name : String) (returned : Option V) (task_args : List (Option V))
    → get i ≡ some e
    → args e ≡ before ++ name ∷ after
    → (name == "result") ≡ false
    → (name == "unitOfWork") ≡ false
    → let sent_back =
        build_response values (args e) (prepare values e task_args) returned task_args in
      (element sent_back (suc (length before)) ≡ element task_args (suc (length before)))
      × (element sent_back 0 ≡ element task_args 0)
unfolding build_response
build_response-prepare values i e before after name returned task_args found split plain other =
    let once = distinct-append before after name (
      subst (λ l. distinct l ≡ true) split
        (get-all (λ x. distinct (args x)) i e all-distinct found).0) in
    let h = prepare values e task_args in
    let back = build_from values 0 (args e) (with_result values returned h) task_args in
    let kept = with_result values returned h in
    let shift : length before ≡ 0 + length before = omega arith in
    let at_place : element back (suc (length before)) ≡ answer_for values name h =
      ap (λ (j : ℕ). element back (suc j)) shift
      ∙ (ap
            (λ (l : List String).
              element (build_from values 0 l kept task_args) (suc (0 + length before)))
            split
          ∙ (build_from-at values 0 before after kept task_args name
              ∙ answer_for-with_result values name returned h plain)) in
    let held : lookup name h.req ≡ some (element task_args (suc (length before))) =
      argument_transformer-other values (id e) name
        (prepare_from values 0 (args e) task_args
          (record { req = []; error = none; result = none }))
        other
      ∙ (ap
            (λ (l : List String).
              lookup name
                (prepare_from values 0 l task_args
                  (record { req = []; error = none; result = none })).req)
            split
          ∙ prepare_from-req values 0 before after task_args _ name plain once
          ∙ sym (ap (λ (j : ℕ). some (element task_args (suc j))) shift)) in
    (
      at_place ∙ ground (arith, plain, held),
      build_from-early values 0 0 (args e) kept task_args (omega arith),
    )
