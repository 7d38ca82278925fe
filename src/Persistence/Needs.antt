-- ===== src/Persistence/Needs.antt =====
-- When `save` sends an item to the server, said without the order in which the code asks.
use js_code_runner.Common.{
  ◌≡◌, ◌≢◌, refl, String, Bool, true, false, not, Option, none, some, List, [], ◌∷◌, ◌↔◌, ◌⊎◌, inl,
  inr, ◌&&◌, ◌||◌, Bool-cases, arith,
}
use js_code_runner.Common.Dict.{lookup}
use text.Mathlib.Text.{◌==◌}
use js_code_runner.Persistence.{Plain, undefined_value, null_value, content}
use js_code_runner.Persistence.Save.{
  is_defined, is_truthy, is_present, is_system_prop, has_custom_props, needs_save,
}

abbrev is_one_of : List String → String → Bool
is_one_of [] key = false
is_one_of (name ∷ names) key = key == name || is_one_of names key

-- An `objectId` that is a text, and not an empty one.
abbrev pub HasId : Option Plain → Type 0
HasId (some (content t)) = (t == "") ≡ false
HasId (some null_value) = ⊥
HasId (some undefined_value) = ⊥
HasId none = ⊥

-- An `ownerId` that is null or a text.
abbrev pub HasOwner : Option Plain → Type 0
HasOwner (some (content t)) = Unit
HasOwner (some null_value) = Unit
HasOwner (some undefined_value) = ⊥
HasOwner none = ⊥

-- One of the properties is defined, and is no system property.
abbrev pub HasCustom : List (String × Plain) → Type 0
HasCustom [] = ⊥
HasCustom ((key, p) ∷ rest) =
    ((p ≢ undefined_value)
      × (is_one_of
            ("___class" ∷ "___jsonclass" ∷ "objectId" ∷ "ownerId" ∷ "created" ∷ "updated" ∷ []) key
          ≡ false))
    ⊎ HasCustom rest

abbrev pub MustSave : List (String × Plain) → Type 0
MustSave payload =
    (¬ HasId (lookup "objectId" payload)) ⊎ HasOwner (lookup "ownerId" payload) ⊎ HasCustom payload

is_truthy_iff : (o : Option Plain) → (is_truthy o ≡ true) ↔ HasId o
is_truthy_iff none = (λ h. absurd cc, λ h. absurd h)
is_truthy_iff (some undefined_value) = (λ h. absurd cc, λ h. absurd h)
is_truthy_iff (some null_value) = (λ h. absurd cc, λ h. absurd h)
is_truthy_iff (some (content t)) = (λ h. ground arith, λ h. ground arith)

is_present_iff : (o : Option Plain) → (is_present o ≡ true) ↔ HasOwner o
is_present_iff none = (λ h. absurd cc, λ h. absurd h)
is_present_iff (some undefined_value) = (λ h. absurd cc, λ h. absurd h)
is_present_iff (some null_value) = (λ h. tt, λ h. refl)
is_present_iff (some (content t)) = (λ h. tt, λ h. refl)

is_defined_iff : (p : Plain) → (is_defined p ≡ true) ↔ (p ≢ undefined_value)
is_defined_iff undefined_value = (λ h. absurd cc, λ h. absurd (h refl))
is_defined_iff null_value = (λ h e. cc, λ h. refl)
is_defined_iff (content t) = (λ h e. cc, λ h. refl)

system_props :
    (key : String)
    → is_system_prop key
      ≡ is_one_of
          ("___class" ∷ "___jsonclass" ∷ "objectId" ∷ "ownerId" ∷ "created" ∷ "updated" ∷ [])
          key
system_props key = ground arith

has_custom_props_iff :
    (payload : List (String × Plain)) → (has_custom_props payload ≡ true) ↔ HasCustom payload
unfolding has_custom_props
has_custom_props_iff [] = (λ h. absurd cc, λ h. absurd h)
has_custom_props_iff ((key, p) ∷ rest) =
    let ih = has_custom_props_iff rest in
    let defined = is_defined_iff p in
    let own = system_props key in
    elim (Bool-cases (is_defined p && not (is_system_prop key))) [
      | inl mine ↦ (
        λ h. inl (defined.0 (ground (arith, mine)), ground (arith, mine, own)),
        λ h. ground (arith, mine),
      )
      | inr others ↦ (
        λ h. inr (ih.0 (ground (arith, others, h))),
        λ h. elim h [
          | inl (p_defined, custom) ↦
              absurd (ground (arith, others, own, custom, defined.1 p_defined))
          | inr later ↦ ground (arith, others, ih.1 later)
        ],
      )
    ]

pub needs_save_iff :
    (payload : List (String × Plain)) → (needs_save payload ≡ true) ↔ MustSave payload
unfolding needs_save
needs_save_iff payload =
    let id_iff = is_truthy_iff (lookup "objectId" payload) in
    let owner_iff = is_present_iff (lookup "ownerId" payload) in
    let custom_iff = has_custom_props_iff payload in
    (
      λ h. elim (Bool-cases (is_truthy (lookup "objectId" payload))) [
        | inr fresh ↦ inl (λ has. absurd (ground (arith, fresh, id_iff.1 has)))
        | inl known ↦ elim (Bool-cases (is_present (lookup "ownerId" payload))) [
          | inl owned ↦ inr (inl (owner_iff.0 owned))
          | inr free ↦ inr (inr (custom_iff.0 (ground (arith, h, known, free))))
        ]
      ],
      λ must. elim must [
        | inl fresh ↦ elim (Bool-cases (is_truthy (lookup "objectId" payload))) [
          | inl known ↦ absurd (fresh (id_iff.0 known))
          | inr unknown ↦ ground (arith, unknown)
        ]
        | inr (inl owned) ↦ ground (arith, owner_iff.1 owned)
        | inr (inr custom) ↦ ground (arith, custom_iff.1 custom)
      ],
    )
