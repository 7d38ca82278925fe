-- ===== src/Persistence/Save.antt =====
-- lib/server-code/api/persistence-item.js, save, and what is left of saveWithRelations but the walk over the relations. What the server answers to a save
-- is an argument: plain values by name, as its documentation has it for a save without relations. They
-- are written to the item itself, so `saved` is the item.
use js_code_runner.Common.{
  String, Bool, true, false, not, Option, none, some, List, [], ◌∷◌, if◌then◌else◌, ◌||◌, ◌&&◌,
}
use js_code_runner.Common.Dict.{lookup}
use text.Mathlib.Text.{◌==◌}
use js_code_runner.Persistence.{
  Plain, undefined_value, null_value, content, plain, Items, no_values, value_then, Fields,
  no_fields, field, deletes_relation, Plan, nothing, request, ◌then◌, ◌beside◌,
}
use js_code_runner.Persistence.Paths.{has_path}

abbrev pub is_defined : Plain → Bool
is_defined undefined_value = false
is_defined null_value = true
is_defined (content t) = true

abbrev pub is_truthy : Option Plain → Bool
is_truthy none = false
is_truthy (some undefined_value) = false
is_truthy (some null_value) = false
is_truthy (some (content t)) = not (t == "")

abbrev pub is_present : Option Plain → Bool
is_present none = false
is_present (some p) = is_defined p

-- SYSTEM_PROPS
abbrev pub is_system_prop : String → Bool
is_system_prop key =
    if key == "objectId"
    then true
    else if key == "ownerId"
    then true
    else if key == "created"
    then true
    else if key == "updated"
    then true
    else if key == "___class"
    then true
    else key == "___jsonclass"

unfoldable pub has_custom_props : List (String × Plain) → Bool
has_custom_props [] = false
has_custom_props ((key, p) ∷ rest) =
    if is_defined p && not (is_system_prop key) then true else has_custom_props rest

-- The condition of `save`.
unfoldable pub needs_save : List (String × Plain) → Bool
needs_save payload =
    not (is_truthy (lookup "objectId" payload))
    || has_custom_props payload
    || is_present (lookup "ownerId" payload)

abbrev pub put_plain : String → Plain → Fields → Fields
put_plain key p no_fields = field key (plain p) no_fields
put_plain key p (field k v fs) =
    if k == key then field k (plain p) fs else field k v (put_plain key p fs)

-- `Object.assign(this, saved)`
abbrev pub assign : List (String × Plain) → Fields → Fields
assign [] fs = fs
assign ((key, p) ∷ rest) fs = assign rest (put_plain key p fs)

-- deleteRelation of a property that is empty.
abbrev pub deletion : String → String → List String → Bool → Plan
deletion c name deletable empty =
    if has_path name deletable && empty
    then request (deletes_relation c name "objectId is not null")
    else nothing

abbrev pub is_null : Plain → Bool
is_null null_value = true
is_null undefined_value = false
is_null (content t) = false

abbrev pub is_empty_array : Items → Bool
is_empty_array no_values = true
is_empty_array (value_then v vs) = false

abbrev pub has_field : String → Fields → Bool
has_field key no_fields = false
has_field key (field k v fs) = if k == key then true else has_field key fs

-- The properties of the answer that the item has not had: only a null can lead to a request.
abbrev pub process_answer : String → List String → Fields → List (String × Plain) → Plan
process_answer c deletable fs [] = nothing
process_answer c deletable fs ((key, p) ∷ rest) =
    (if has_field key fs then nothing else deletion c key deletable (is_null p))
    beside process_answer c deletable fs rest
