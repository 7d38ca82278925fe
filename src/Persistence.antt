-- ===== src/Persistence.antt =====
-- lib/server-code/api/persistence-item.js: the objects that a persistence handler works with, and what
-- saving them asks of the server. Objects are trees: an object that stands in two places is two.
pub mod Paths
pub mod Save
pub mod Needs
pub mod Relations
pub mod Laws
use js_code_runner.Common.{
  String, Bool, true, false, List, [], ◌∷◌, Option, none, some, if◌then◌else◌,
}
use text.Mathlib.Text.{◌==◌}

-- A value that is neither a persistence item nor an array.
pub data Plain : Type 0 where
  undefined_value null_value : Plain
  content : String → Plain

mutual
  pub data Value : Type 0 where
    plain : Plain → Value
    item : String → Fields → Value
    array : Items → Value

  pub data Items : Type 0 where
    no_values : Items
    value_then : Value → Items → Items

  pub data Fields : Type 0 where
    no_fields : Fields
    field : String → Value → Fields → Fields

abbrev pub is_persistable : Value → Bool
is_persistable (item c fs) = true
is_persistable (plain p) = false
is_persistable (array vs) = false

abbrev pub all_persistable : Items → Bool
all_persistable no_values = true
all_persistable (value_then v vs) = if is_persistable v then all_persistable vs else false

abbrev pub is_array_of_persistable : Items → Bool
is_array_of_persistable no_values = false
is_array_of_persistable (value_then v vs) = all_persistable (value_then v vs)

-- trimRelations
unfoldable pub trim_relations : Fields → List (String × Plain)
trim_relations no_fields = []
trim_relations (field key (plain p) fs) = (key, p) ∷ trim_relations fs
trim_relations (field key (item c gs) fs) = trim_relations fs
trim_relations (field key (array vs) fs) = trim_relations fs

-- The calls of the data store. An item that is given as a relation is wrapped in an array.
pub data StoreRequest : Type 0 where
  saves : String → List (String × Plain) → StoreRequest
  sets_relation : String → String → Items → StoreRequest
  deletes_relation : String → String → String → StoreRequest

-- Requests in order, and side by side, as `Promise.all` has them.
infixr 20 ◌then◌
infixr 25 ◌beside◌
pub data Plan : Type 0 where
  nothing : Plan
  request : StoreRequest → Plan
  ◌then◌ : Plan → Plan → Plan
  ◌beside◌ : Plan → Plan → Plan
