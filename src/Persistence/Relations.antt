-- ===== src/Persistence/Relations.antt =====
-- lib/server-code/api/persistence-item.js, saveWithRelations: the walk over the relations of an item.
use js_code_runner.Common.{String, Option, none, some, List, [], if◌then◌else◌}
use js_code_runner.Common.Dict.{lookup}
use js_code_runner.Persistence.{
  Plain, Value, plain, item, array, Items, no_values, value_then, Fields, no_fields, field,
  is_array_of_persistable, trim_relations, saves, sets_relation, Plan, nothing, request, ◌then◌,
  ◌beside◌,
}
use js_code_runner.Persistence.Paths.{has_path, child_path}
use js_code_runner.Persistence.Save.{
  needs_save, assign, deletion, is_null, is_empty_array, process_answer,
}

module _ (respond : String → List (String × Plain) → List (String × Plain)) where
  -- `save`: the request, and what the server answers.
  abbrev pub save_plan : String → Fields → Plan
  save_plan c fs =
      if needs_save (trim_relations fs) then request (saves c (trim_relations fs)) else nothing

  abbrev pub answer : String → Fields → List (String × Plain)
  answer c fs = if needs_save (trim_relations fs) then respond c (trim_relations fs) else []

  -- What is left when the properties are processed.
  abbrev pub completed : String → Fields → List String → Plan × Fields → Plan × Fields
  completed c fs deletable (plan, processed) =
      let saved = answer c fs in
      (
        save_plan c fs then (plan beside process_answer c deletable fs saved),
        assign saved processed,
      )

  -- A value of the answer has taken the place of the property.
  abbrev pub answered_or :
      String → Option Plain → String → Value → List String → Plan × Value → Plan × Value
  answered_or c none name v deletable processed = processed
  answered_or c (some p) name v deletable processed = (deletion c name deletable (is_null p), v)

  -- The requests, and the properties afterwards.
  unfoldable mutual
    pub process_fields :
        String → List (String × Plain) → Fields → List String → List String → Plan × Fields
    process_fields c saved no_fields stale deletable = (nothing, no_fields)
    process_fields c saved (field name v fs) stale deletable =
        let first =
          answered_or c (lookup name saved) name v deletable
            (process_field c name v stale deletable) in
        let rest = process_fields c saved fs stale deletable in
        (first.0 beside rest.0, field name first.1 rest.1)

    pub process_field : String → String → Value → List String → List String → Plan × Value
    process_field c name (plain p) stale deletable =
        (deletion c name deletable (is_null p), plain p)
    process_field c name (item d fs) stale deletable =
        let below =
          completed d fs (child_path name deletable) (
            process_fields d (answer d fs) fs (child_path name stale)
              (child_path name deletable)) in
        if has_path name stale
        then (request (sets_relation c name (value_then (item d fs) no_values)), item d fs)
        else (
          below.0 then request (sets_relation c name (value_then (item d below.1) no_values)),
          item d below.1,
        )
    process_field c name (array vs) stale deletable =
        let below = save_values vs (child_path name stale) (child_path name deletable) in
        if is_array_of_persistable vs
        then (if has_path name stale
            then (request (sets_relation c name vs), array vs)
            else (below.0 then request (sets_relation c name below.1), array below.1))
        else (deletion c name deletable (is_empty_array vs), array vs)

    pub save_values : Items → List String → List String → Plan × Items
    save_values no_values stale deletable = (nothing, no_values)
    save_values (value_then v vs) stale deletable =
        let first = save_item v stale deletable in
        let rest = save_values vs stale deletable in
        (first.0 beside rest.0, value_then first.1 rest.1)

    pub save_item : Value → List String → List String → Plan × Value
    save_item (item d fs) stale deletable =
        let below = completed d fs deletable (process_fields d (answer d fs) fs stale deletable) in
        (below.0, item d below.1)
    save_item (plain p) stale deletable = (nothing, plain p)
    save_item (array vs) stale deletable = (nothing, array vs)

  unfoldable pub save_with_relations : String → Fields → List String → List String → Plan × Fields
  save_with_relations c fs stale deletable =
      completed c fs deletable (process_fields c (answer c fs) fs stale deletable)
