-- ===== src/ServerCode/Descriptor/Closed.antt =====
-- registerType and what calls it end, and grow the state.
use mathlib.Core.List.{append_assoc}
use js_code_runner.Common.{
  ℕ, zero, suc, ◌≤◌, ◌≡◌, ◌∙◌, ap, String, Bool, true, false, Option, none, some, List, [], ◌∷◌,
  ◌++◌, if◌then◌else◌, All, All-append, All-mono, arith, eq_iff, Option-cases, inl, inr,
}
use js_code_runner.Common.Dict.{lookup}
use js_code_runner.ServerCode.Classes.{TypeRef, PropertyDef, ClassDef}
use js_code_runner.ServerCode.Descriptor.{Outcome, done, thrown, exhausted, ◌>>=◌, or_text}
use js_code_runner.ServerCode.Descriptor.Mapping.{packaged, get_type_mapping}
use js_code_runner.ServerCode.Descriptor.Methods.{Typed}
use js_code_runner.ServerCode.Descriptor.Build.{
  Node, data_type, Build, has, unregistered, add, register_some, typed_node, field_nodes,
  push_data_type, register_type,
}
use js_code_runner.ServerCode.Descriptor.Grows.{
  count_data_types, count_data_types-append, type_names, field_type_names, IsSettled, has-snoc,
  IsSettled-mono, Grows, Grows-refl, Grows-trans,
}
use js_code_runner.ServerCode.Descriptor.Missing.{missing, missing_mono, missing-snoc}

-- The run does not run out of fuel, and an answer is as the predicate says.
abbrev pub Ends {ℓ} : {A : Type ℓ} → (A → Type 0) → Outcome A → Type 0
Ends P (done a) = P a
Ends P (thrown message) = Unit
Ends P exhausted = ⊥

pub Ends-bind {ℓ κ} :
    {A : Type ℓ} {B : Type κ} (P : A → Type 0) (Q : B → Type 0) (m : Outcome A) (f : A → Outcome B)
    → Ends P m
    → ((a : A) → P a → Ends Q (f a))
    → Ends Q (m >>= f)
Ends-bind P Q (done a) f h k = k a h
Ends-bind P Q (thrown message) f h k = tt
Ends-bind P Q exhausted f h k = absurd h

pub Ends-if {ℓ} :
    {A : Type ℓ} (P : A → Type 0) (b : Bool) (x y : Outcome A)
    → Ends P x
    → Ends P y
    → Ends P (if b then x else y)
Ends-if P true x y h k = h
Ends-if P false x y h k = k

pub Ends-mono {ℓ} :
    {A : Type ℓ} (P Q : A → Type 0) (m : Outcome A) → ((a : A) → P a → Q a) → Ends P m → Ends Q m
Ends-mono P Q (done a) imp h = imp a h
Ends-mono P Q (thrown message) imp h = tt
Ends-mono P Q exhausted imp h = h

module _ (definitions : List (String × ClassDef)) where
  -- The state has grown, and names of types are settled there.
  abbrev pub Reaches : List String → Build → Build → Type 0
  Reaches names s t = Grows definitions s t × All (IsSettled definitions t.types) names

  abbrev pub Answers {ℓ} : {A : Type ℓ} → (A → List String) → Build → A × Build → Type 0
  Answers names s (a, t) = Reaches (names a) s t

  abbrev pub Registers : (String → Build → Outcome Build) → ℕ → Type 0
  Registers register fuel =
      (t : String) (s : Build)
      → missing definitions s.types ≤ fuel
      → Ends (Reaches (t ∷ []) s) (register t s)

  pub Reaches-append :
      (xs ys : List String) (r s t : Build)
      → Reaches xs r s
      → Reaches ys s t
      → Reaches (xs ++ ys) r t
  Reaches-append xs ys r s t (g, h) (g', h') = (
    Grows-trans definitions r s t g g',
    All-append _ xs ys (All-mono _ _ xs (IsSettled-mono definitions s.types t.types g'.more) h) h',
  )

  pub missing_later :
      (fuel : ℕ) (s t : Build)
      → Grows definitions s t
      → missing definitions s.types ≤ fuel
      → missing definitions t.types ≤ fuel
  missing_later fuel s t g h = omega (arith, h, missing_mono definitions s.types t.types g.more)

  module _ (register : String → Build → Outcome Build) (fuel : ℕ)
      (spec : Registers register fuel) where
    register_some-Reaches :
        (t : Option String) (s : Build)
        → missing definitions s.types ≤ fuel
        → Ends
            (Reaches (elim t [ none ↦ [] | some e ↦ e ∷ [] ]) s)
            (register_some definitions register t s)
    register_some-Reaches none s h = (Grows-refl definitions s, tt)
    register_some-Reaches (some t) s h = spec t s h

    pub typed_node-Answers :
        (name : String) (type : Option TypeRef) (s : Build)
        → missing definitions s.types ≤ fuel
        → Ends (Answers type_names s) (typed_node definitions register name type s)
    unfolding typed_node
    typed_node-Answers name type s h =
        let m = get_type_mapping type definitions in
        Ends-bind (Reaches (m.type ∷ []) s) _ (register m.type s) _ (spec m.type s h) (λ s1 a.
          Ends-bind (Reaches (elim m.element_type [ none ↦ [] | some e ↦ e ∷ [] ]) s1) _
            (register_some definitions register m.element_type s1) _
            (register_some-Reaches m.element_type s1 (missing_later fuel s s1 a.0 h))
            (λ s2 b. Reaches-append (m.type ∷ []) _ s s1 s2 a b))

    pub field_nodes-Answers :
        (ps : List (String × PropertyDef)) (s : Build)
        → missing definitions s.types ≤ fuel
        → Ends (Answers field_type_names s) (field_nodes definitions register ps s)
    unfolding field_nodes
    field_nodes-Answers [] s h = (Grows-refl definitions s, tt)
    field_nodes-Answers ((name, p) ∷ ps) s h =
        Ends-bind (Answers type_names s) _ (typed_node definitions register _ _ s) _
          (typed_node-Answers _ _ s h)
          (λ (field, s1) a.
            Ends-bind (Answers field_type_names s1) _ (field_nodes definitions register ps s1) _
              (field_nodes-Answers ps s1 (missing_later fuel s s1 a.0 h))
              (λ (fields, s2) b.
                Reaches-append (type_names field) (field_type_names fields) s s1 s2 a b))

  -- A definition that nobody registered is added, and its node comes behind those of its fields.
  push_data_type-Reaches :
      (register : String → Build → Outcome Build) (fuel : ℕ) (t : String) (d : ClassDef) (s : Build)
      → Registers register fuel
      → unregistered definitions s.types t ≡ some d
      → missing definitions s.types ≤ suc fuel
      → Ends (Reaches (t ∷ []) s) (push_data_type definitions register d (add definitions t s))
  unfolding push_data_type unregistered count_data_types
  push_data_type-Reaches register fuel t d s spec found h =
      let made : List Typed → Node =
        data_type d.class_name (or_text d.description d.class_name) (packaged d.class_name) in
      let new : has t s.types ≡ false = ground arith in
      let defined : lookup t definitions ≡ some d = ground arith in
      Ends-bind (Answers field_type_names (add definitions t s)) _
        (field_nodes definitions register d.properties (add definitions t s)) _
        (field_nodes-Answers register fuel spec d.properties (add definitions t s)
          (omega (arith, h, missing-snoc definitions s.types t d defined new)))
        (λ (fields, s1) (g, k). (
          record {
            new = g.new ++ made fields ∷ [];
            appended =
                ap (λ (l : List Node). l ++ made fields ∷ []) g.appended ∙ append_assoc _ g.new _;
            more = λ x e. g.more x (ground (arith, has-snoc x t s.types));
            counted = λ named x. ground (
              arith,
              g.counted named x,
              count_data_types-append x g.new (made fields ∷ []),
              has-snoc x t s.types,
              named t d defined,
              eq_iff t x,
            );
            closed = All-append _ g.new _ g.closed (k, tt);
          },
          (ground (arith, g.more t, has-snoc t t s.types, eq_iff t t), tt),
        ))

  unregistered-missing :
      (types : List String) (t : String) (d : ClassDef)
      → unregistered definitions types t ≡ some d
      → ¬ missing definitions types ≤ 0
  unfolding unregistered
  unregistered-missing types t d found h =
      ground (arith, missing-snoc definitions types t d (ground arith) (ground arith))

  pub register_type-Registers : (fuel : ℕ) → Registers (register_type definitions fuel) fuel
  unfolding register_type
  register_type-Registers zero t s h = elim (Option-cases (unregistered definitions s.types t)) [
    | inl settled ↦ rw (settled, register_type) (Grows-refl definitions s, (settled, tt))
    | inr (d, found) ↦ absurd (unregistered-missing s.types t d found h)
  ]
  register_type-Registers (suc fuel) t s h =
      elim (Option-cases (unregistered definitions s.types t)) [
        | inl settled ↦ rw (settled, register_type) (Grows-refl definitions s, (settled, tt))
        | inr (d, found) ↦
            rw (found, register_type)
              (push_data_type-Reaches (register_type definitions fuel) fuel t d s
                (register_type-Registers fuel) found h)
      ]
