-- ===== src/ServerCode/Service/Laws.antt =====
-- Which configuration items are accepted, and what a call of a service is configured with.
use js_code_runner.Common.{
  ◌≡◌, refl, String, true, false, Option, none, some, List, [], ◌∷◌, if◌then◌else◌, ◌↔◌, ◌⊎◌, arith,
  eq_iff, Bool-cases, Option-cases, eq_of_some, sym, subst, ◌∙◌, inl, inr,
}
use js_code_runner.Common.Dict.{lookup, insert, lookup-insert}
use text.Mathlib.Text.{◌==◌}
use js_code_runner.ServerCode.Descriptor.{done, to_upper_case}
use js_code_runner.ServerCode.Service.{
  ConfigValue, missing, string_of, boolean, date_of, other as another, adapt, or_default,
  ItemOptions, ConfigItem, is_type, with_choices, type_of, config_item, actual_values, configured,
  config_from, build_config,
}

not_choice : (t : String) → is_type t ≡ true → (t == "choice") ≡ false
not_choice t h = elim (Bool-cases (t == "choice")) [
  | inr other ↦ other
  | inl is ↦
      let same : t ≡ "choice" = ground (arith, is, eq_iff t "choice") in
      let wrong : false ≡ true = subst (λ v. is_type v ≡ true) same h in absurd cc
]

choice_type : (o : ItemOptions) → with_choices o ≡ true → type_of o ≡ "CHOICE"
unfolding to_upper_case
choice_type o h = rw h refl

choice_valid : (o : ItemOptions) → with_choices o ≡ true → is_type (type_of o) ≡ true
choice_valid o h = subst (λ t. is_type t ≡ true) (sym (choice_type o h)) refl

abbrev item_of : String → ItemOptions → ConfigItem
item_of name o = record {
  item_name = name;
  item_type = type_of o;
  item_choices = o.choices;
  item_default = o.default_value;
}

abbrev Accepted : ItemOptions → Type 0
Accepted o =
    (with_choices o ≡ true)
    ⊎ ((t : String) × (o.type ≡ some t) × (is_type (to_upper_case t) ≡ true))

untyped_refused : (o : ItemOptions) → with_choices o ≡ false → o.type ≡ none → ¬ Accepted o
untyped_refused o bare untyped (inl has) = cc
untyped_refused o bare untyped (inr (t, typed, valid)) = cc

invalid_refused :
    (o : ItemOptions) (t : String)
    → with_choices o ≡ false
    → o.type ≡ some t
    → is_type (to_upper_case t) ≡ false
    → ¬ Accepted o
invalid_refused o t bare typed invalid (inl has) = cc
invalid_refused o t bare typed invalid (inr (u, other, valid)) =
    let same : t ≡ u = eq_of_some (sym typed ∙ other) in
    ground (arith, invalid, subst (λ v. is_type (to_upper_case v) ≡ true) (sym same) valid)

-- An item with a name is accepted exactly if it has choices, or a type whose name in capitals is one of
-- STRING, BOOL, DATE, CHOICE and TEXT.
pub config_item_iff :
    (o : ItemOptions) (name : String)
    → o.name ≡ some name
    → ((i : ConfigItem) × (config_item (some o) ≡ done i)) ↔ (
        (with_choices o ≡ true)
        ⊎ ((t : String) × (o.type ≡ some t) × (is_type (to_upper_case t) ≡ true)))
unfolding config_item
config_item_iff o name known = elim (Bool-cases (with_choices o)) [
  | inl has ↦ (
    λ made. inl has,
    λ accepted. (item_of name o, ground (arith, known, has, choice_valid o has)),
  )
  | inr bare ↦ elim (Option-cases o.type) [
    | inl untyped ↦ (
      λ (i, made). absurd (ground (arith, known, bare, untyped, made)),
      λ accepted. absurd (untyped_refused o bare untyped accepted),
    )
    | inr (t, typed) ↦
        let same : type_of o ≡ to_upper_case t = rw (bare, typed) refl in
        elim (Bool-cases (is_type (to_upper_case t))) [
          | inl valid ↦ (
            λ made. inr (t, typed, valid),
            λ accepted. (
              item_of name o,
              ground (arith, known, bare, typed, same, valid, not_choice (to_upper_case t) valid),
            ),
          )
          | inr invalid ↦ (
            λ (i, made). absurd (ground (arith, known, bare, typed, same, invalid, made)),
            λ accepted. absurd (invalid_refused o t bare typed invalid accepted),
          )
        ]
  ]
]

-- The last item that is declared for a name.
pub last_item : String → List ConfigItem → Option ConfigItem
last_item name [] = none
last_item name (i ∷ items) = elim (last_item name items) [
  | some later ↦ some later
  | none ↦ if i.item_name == name then some i else none
]

lookup-config_from :
    (name : String) (items : List ConfigItem) (actual result : List (String × ConfigValue))
    → lookup name (config_from items actual result) ≡ elim (last_item name items) [
      | none ↦ lookup name result
      | some i ↦ some (configured actual i)
    ]
unfolding config_from last_item
lookup-config_from name [] actual result = refl
lookup-config_from name (i ∷ items) actual result = ground (
  arith,
  lookup-config_from name items actual (insert i.item_name (configured actual i) result),
  lookup-insert i.item_name name (configured actual i) result,
  eq_iff i.item_name name,
)

abbrev pub last_value : String → List (String × ConfigValue) → Option ConfigValue
last_value name [] = none
last_value name ((key, value) ∷ rest) = elim (last_value name rest) [
  | some later ↦ some later
  | none ↦ if key == name then some value else none
]

lookup-actual_values :
    (name : String) (actual mapped : List (String × ConfigValue))
    → lookup name (actual_values actual mapped)
      ≡ elim (last_value name actual) [ none ↦ lookup name mapped | some v ↦ some v ]
unfolding actual_values
lookup-actual_values name [] mapped = refl
lookup-actual_values name ((key, value) ∷ rest) mapped = ground (
  arith,
  lookup-actual_values name rest (insert key value mapped),
  lookup-insert key name value mapped,
  eq_iff key name,
)

-- A text that is given or declared for an item of a type.
abbrev pub text_as : String → String → ConfigValue
text_as type t =
    if type == "BOOL"
    then boolean (t == "true")
    else if type == "DATE"
    then date_of t
    else string_of t

-- A default, for an item of a type.
abbrev pub default_as : String → ConfigValue → ConfigValue
default_as type (string_of t) = text_as type t
default_as type missing = missing
default_as type (boolean b) = boolean b
default_as type (date_of t) = date_of t
default_as type (another t) = another t

-- What the last value that is given for an item makes of it.
abbrev pub value_for : ConfigItem → Option ConfigValue → ConfigValue
value_for i none = default_as i.item_type i.item_default
value_for i (some missing) = default_as i.item_type i.item_default
value_for i (some (string_of t)) = text_as i.item_type t
value_for i (some (boolean b)) = boolean b
value_for i (some (date_of t)) = date_of t
value_for i (some (another t)) = another t

adapt-text : (type t : String) → adapt type (string_of t) ≡ text_as type t
adapt-text type t = refl

adapt-default : (type : String) (v : ConfigValue) → adapt type v ≡ default_as type v
adapt-default type (string_of t) = adapt-text type t
adapt-default type missing = refl
adapt-default type (boolean b) = refl
adapt-default type (date_of t) = refl
adapt-default type (another t) = refl

adapt-value_for :
    (i : ConfigItem) (given : Option ConfigValue)
    → adapt i.item_type (or_default (elim given [ none ↦ missing | some v ↦ v ]) i.item_default)
      ≡ value_for i given
adapt-value_for i none = adapt-default i.item_type i.item_default
adapt-value_for i (some missing) = adapt-default i.item_type i.item_default
adapt-value_for i (some (string_of t)) = adapt-text i.item_type t
adapt-value_for i (some (boolean b)) = refl
adapt-value_for i (some (date_of t)) = refl
adapt-value_for i (some (another t)) = refl

-- The configuration of a call has a value for the declared names and for no other: of the last item
-- declared for the name, the value that is given last for it, or the default of the item if that is
-- null or missing. A text is read as a Boolean for an item of the type BOOL, where only `true` is true,
-- and as a date for one of the type DATE.
pub lookup-build_config :
    (name : String) (declared : List ConfigItem) (actual : List (String × ConfigValue))
    → lookup name (build_config declared actual) ≡ elim (last_item name declared) [
      | none ↦ none
      | some i ↦ some (value_for i (last_value i.item_name actual))
    ]
unfolding build_config lookup
lookup-build_config name declared actual = elim (Option-cases (last_item name declared)) [
  | inl undeclared ↦
      ground (arith, undeclared, lookup-config_from name declared (actual_values actual []) [])
  | inr (i, declares) ↦ ground (
    arith,
    declares,
    lookup-config_from name declared (actual_values actual []) [],
    lookup-actual_values i.item_name actual [],
    adapt-value_for i (last_value i.item_name actual),
  )
]
