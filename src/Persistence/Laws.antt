-- ===== src/Persistence/Laws.antt =====
-- When an item is saved, and that relations which are named as stale are not.
use js_code_runner.Common.{
  ◌++◌, ◌≡◌, refl, ◌⊎◌, inl, inr, Bool-cases, ap, String, Bool, true, false, Option, none, some,
  List, [], ◌∷◌, if◌then◌else◌, arith,
}
use js_code_runner.Common.Dict.{lookup}
use js_code_runner.Persistence.{
  Plain, Value, plain, item, array, Fields, no_fields, field, is_array_of_persistable,
  trim_relations, StoreRequest, saves, sets_relation, deletes_relation, Plan, nothing, request,
  ◌then◌, ◌beside◌,
}
use js_code_runner.Persistence.Paths.{has_path}
use js_code_runner.Persistence.Needs.{MustSave, needs_save_iff}
use js_code_runner.Persistence.Save.{needs_save, deletion, is_null, is_empty_array, process_answer}
use js_code_runner.Persistence.Relations.{
  answer, answered_or, save_with_relations, process_fields, process_field,
}

abbrev save_of : StoreRequest → List (String × List (String × Plain))
save_of (saves c payload) = (c, payload) ∷ []
save_of (sets_relation c name vs) = []
save_of (deletes_relation c name w) = []

-- The saves of a plan: the class and the properties of each.
unfoldable pub saves_of : Plan → List (String × List (String × Plain))
saves_of nothing = []
saves_of (request r) = save_of r
saves_of (p then q) = saves_of p ++ saves_of q
saves_of (p beside q) = saves_of p ++ saves_of q

-- The relations of an item are all named.
abbrev pub is_stale : List String → String → Value → Bool
is_stale stale name (plain p) = true
is_stale stale name (item d fs) = has_path name stale
is_stale stale name (array vs) = if is_array_of_persistable vs then has_path name stale else true

abbrev pub all_stale : List String → Fields → Bool
all_stale stale no_fields = true
all_stale stale (field name v fs) = if is_stale stale name v then all_stale stale fs else false

deletion-saves_of :
    (c name : String) (deletable : List String) (empty : Bool)
    → saves_of (deletion c name deletable empty) ≡ []
unfolding saves_of
deletion-saves_of c name deletable empty = ground arith

process_answer-saves_of :
    (c : String) (deletable : List String) (fs : Fields) (saved : List (String × Plain))
    → saves_of (process_answer c deletable fs saved) ≡ []
unfolding saves_of
process_answer-saves_of c deletable fs [] = refl
process_answer-saves_of c deletable fs ((key, p) ∷ rest) = ground (
  arith,
  process_answer-saves_of c deletable fs rest,
  deletion-saves_of c key deletable (is_null p),
)

module _ (respond : String → List (String × Plain) → List (String × Plain)) where
  process_field-saves_of :
      (c name : String) (v : Value) (stale deletable : List String)
      → is_stale stale name v ≡ true
      → saves_of (process_field respond c name v stale deletable).0 ≡ []
  unfolding saves_of process_field
  process_field-saves_of c name (plain p) stale deletable h =
      deletion-saves_of c name deletable (is_null p)
  process_field-saves_of c name (item d fs) stale deletable h = ground (arith, h)
  process_field-saves_of c name (array vs) stale deletable h =
      ground (arith, h, deletion-saves_of c name deletable (is_empty_array vs))

  answered_or-saves_of :
      (c : String) (o : Option Plain) (name : String) (v : Value) (deletable : List String)
      (processed : Plan × Value)
      → saves_of processed.0 ≡ []
      → saves_of (answered_or respond c o name v deletable processed).0 ≡ []
  answered_or-saves_of c none name v deletable processed h = h
  answered_or-saves_of c (some p) name v deletable processed h =
      deletion-saves_of c name deletable (is_null p)

  process_fields-saves_of :
      (c : String) (saved : List (String × Plain)) (fs : Fields) (stale deletable : List String)
      → all_stale stale fs ≡ true
      → saves_of (process_fields respond c saved fs stale deletable).0 ≡ []
  unfolding saves_of process_fields
  process_fields-saves_of c saved no_fields stale deletable h = refl
  process_fields-saves_of c saved (field name v fs) stale deletable h = ground (
    arith,
    h,
    answered_or-saves_of c (lookup name saved) name v deletable
        (process_field respond c name v stale deletable)
        (process_field-saves_of c name v stale deletable (ground (arith, h))),
    process_fields-saves_of c saved fs stale deletable,
  )

-- A value that is neither an item nor an array.
abbrev pub as_plain : Value → Option Plain
as_plain (plain p) = some p
as_plain (item d fs) = none
as_plain (array vs) = none

-- The properties of an item that are not relations or arrays.
pub own_properties : Fields → List (String × Plain)
own_properties no_fields = []
own_properties (field k v fs) = elim (as_plain v) [
  | none ↦ own_properties fs
  | some p ↦ (k, p) ∷ own_properties fs
]

trim_relations-own : (fs : Fields) → trim_relations fs ≡ own_properties fs
unfolding trim_relations own_properties
trim_relations-own no_fields = refl
trim_relations-own (field k (plain p) fs) =
    ap (λ (l : List (String × Plain)). (k, p) ∷ l) (trim_relations-own fs)
trim_relations-own (field k (item d gs) fs) = trim_relations-own fs
trim_relations-own (field k (array vs) fs) = trim_relations-own fs

-- Where all relations of an item are named as stale, saveWithRelations saves no object but the item
-- itself: once, in the item's class and with those of its properties that are not items or
-- arrays, if it has no `objectId`, or an
-- `ownerId`, or a property of its own that is defined and is none of the six system properties; and not
-- at all otherwise.
pub save_with_relations-all_stale :
    (respond : String → List (String × Plain) → List (String × Plain)) (c : String) (fs : Fields)
    (stale deletable : List String)
    → all_stale stale fs ≡ true
    → let made = saves_of (save_with_relations respond c fs stale deletable).0 in
      (MustSave (own_properties fs) × (made ≡ (c, own_properties fs) ∷ []))
      ⊎ ((¬ MustSave (own_properties fs)) × (made ≡ []))
unfolding save_with_relations saves_of
save_with_relations-all_stale respond c fs stale deletable h =
    let fields = process_fields-saves_of respond c (answer respond c fs) fs stale deletable h in
    let answers = process_answer-saves_of c deletable fs (answer respond c fs) in
    let iff = needs_save_iff (trim_relations fs) in
    rw⁻¹ (trim_relations-own fs) (elim (Bool-cases (needs_save (trim_relations fs))) [
      | inl needed ↦ inl (iff.0 needed, ground (arith, needed, fields, answers))
      | inr idle ↦
          inr (
            λ must. absurd (ground (arith, idle, iff.1 must)),
            ground (arith, idle, fields, answers),
          )
    ])
