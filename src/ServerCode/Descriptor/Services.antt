-- ===== src/ServerCode/Descriptor/Services.antt =====
-- What buildServicesXml makes of the services: it ends, each data type stands in the result once, and
-- those that the result refers to stand in it.
use js_code_runner.Common.{
  ℕ, ◌≤◌, ◌≡◌, ◌≢◌, refl, sym, subst, ◌∙◌, String, true, some, List, [], ◌∷◌, ◌++◌, length,
  get_elem?, All, All-get_elem?, arith, Bool-cases, inl, inr,
}
use js_code_runner.Common.Dict.{lookup}
use text.Mathlib.Text.{◌==◌}
use text.Mathlib.TextEquality.{eq_iff}
use js_code_runner.ServerCode.Classes.{IsNamed, ParamDef, MethodDef, ClassDef}
use js_code_runner.ServerCode.Descriptor.{Outcome, done, thrown, exhausted}
use js_code_runner.ServerCode.Descriptor.Methods.{Texts, enrich_method_node}
use js_code_runner.ServerCode.Descriptor.Build.{
  Operation, Node, service, Build, has, unregistered, typed_node, register_type, argument_nodes,
  operation_node, operation_nodes, service_node, service_nodes, build_services_xml,
}
use js_code_runner.ServerCode.Descriptor.Grows.{
  bit, count_data_types, type_names, argument_type_names, operation_type_names, node_type_names,
  IsClosed, Grows, Grows-refl, Grows-trans,
}
use js_code_runner.ServerCode.Descriptor.Missing.{missing, missing-le_length}
use js_code_runner.ServerCode.Descriptor.Enriched.{enrich_method_node-Ends}
use js_code_runner.ServerCode.Descriptor.Closed.{
  Ends, Ends-bind, Ends-if, Ends-mono, Answers, Reaches-append, missing_later, typed_node-Answers,
  register_type-Registers,
}

module _ (definitions : List (String × ClassDef)) (fuel : ℕ) where
  abbrev register : String → Build → Outcome Build
  register = register_type definitions fuel

  abbrev Fits : Build → Type 0
  Fits s = missing definitions s.types ≤ fuel

  argument_nodes-Answers :
      (ps : List ParamDef) (s : Build)
      → Fits s
      → Ends (Answers definitions argument_type_names s) (argument_nodes definitions register ps s)
  unfolding argument_nodes
  argument_nodes-Answers [] s h = (Grows-refl definitions s, tt)
  argument_nodes-Answers (p ∷ ps) s h =
      Ends-bind (Answers definitions type_names s) _ (typed_node definitions register _ _ s) _
        (typed_node-Answers definitions register fuel (register_type-Registers definitions fuel) _ _
          s h)
        (λ (node, s1) a.
          Ends-bind (Answers definitions argument_type_names s1) _
            (argument_nodes definitions register ps s1) _
            (argument_nodes-Answers ps s1 (missing_later definitions fuel s s1 a.0 h))
            (λ (rest, s2) b.
              Reaches-append definitions (type_names node) (argument_type_names rest) s s1 s2 a b))

  abbrev names_of_operation : Operation → List String
  names_of_operation o = type_names o.operation.typed ++ argument_type_names o.arguments

  operation_node-Answers :
      (texts : Texts) (name : String) (m : MethodDef) (s : Build)
      → Fits s
      → Ends
          (Answers definitions names_of_operation s)
          (operation_node definitions texts register name m s)
  unfolding operation_node
  operation_node-Answers texts name m s h =
      Ends-bind (Answers definitions type_names s) _ (typed_node definitions register _ _ s) _
        (typed_node-Answers definitions register fuel (register_type-Registers definitions fuel) _ _
          s h)
        (λ (node, s1) a.
          Ends-bind (λ n. n.typed ≡ node) _ (enrich_method_node texts node m) _
            (enrich_method_node-Ends texts node m)
            (λ enriched same.
              Ends-bind (Answers definitions argument_type_names s1) _
                (argument_nodes definitions register m.params s1) _
                (argument_nodes-Answers m.params s1 (missing_later definitions fuel s s1 a.0 h))
                (λ (arguments, s2) b. rw same (
                  Reaches-append definitions (type_names node) (argument_type_names arguments) s s1
                    s2 a b))))

  operation_nodes-Answers :
      (texts : Texts) (ms : List (String × MethodDef)) (s : Build)
      → Fits s
      → Ends
          (Answers definitions operation_type_names s)
          (operation_nodes definitions texts register ms s)
  unfolding operation_nodes
  operation_nodes-Answers texts [] s h = (Grows-refl definitions s, tt)
  operation_nodes-Answers texts ((name, m) ∷ ms) s h =
      Ends-if (Answers definitions operation_type_names s) (m.access == "private")
        (operation_nodes definitions texts register ms s) _ (operation_nodes-Answers texts ms s h)
        (Ends-bind (Answers definitions names_of_operation s) _
          (operation_node definitions texts register name m s) _
          (operation_node-Answers texts name m s h)
          (λ (o, s1) a.
            Ends-bind (Answers definitions operation_type_names s1) _
              (operation_nodes definitions texts register ms s1) _
              (operation_nodes-Answers texts ms s1 (missing_later definitions fuel s s1 a.0 h))
              (λ (rest, s2) b.
                Reaches-append definitions (names_of_operation o) (operation_type_names rest) s s1
                  s2 a b)))

  service_node-Grows :
      (texts : Texts) (name : String) (s : Build)
      → Fits s
      → Ends (Grows definitions s) (service_node definitions texts register name s)
  unfolding service_node count_data_types
  service_node-Grows texts name s h =
      let start : Build = record s { nodes = [] } in
      Ends-bind (Answers definitions operation_type_names start) _
        (operation_nodes definitions texts register _ start) _
        (operation_nodes-Answers texts _ start h)
        (λ (operations, s1) (g, k). record {
          new = service name _ _ operations ∷ s1.nodes;
          appended = refl;
          more = g.more;
          counted = λ named x. rw g.appended (g.counted named x);
          closed = (k, rw g.appended g.closed);
        })

  service_nodes-Grows :
      (texts : Texts) (names : List String) (s : Build)
      → Fits s
      → Ends (Grows definitions s) (service_nodes definitions texts register names s)
  unfolding service_nodes
  service_nodes-Grows texts [] s h = Grows-refl definitions s
  service_nodes-Grows texts (name ∷ names) s h =
      Ends-bind (Grows definitions s) _ (service_node definitions texts register name s) _
        (service_node-Grows texts name s h)
        (λ s1 g.
          Ends-mono (Grows definitions s1) _ (service_nodes definitions texts register names s1)
            (λ s2 g'. Grows-trans definitions s s1 s2 g g')
            (service_nodes-Grows texts names s1 (missing_later definitions fuel s s1 g h)))

All-has : (P : String → Type 0) (l : List String) (t : String) → All P l → has t l ≡ true → P t
All-has P [] t h e = cc
All-has P (x ∷ xs) t (px, h) e = elim (Bool-cases (x == t)) [
  | inl same ↦ let equal : x ≡ t = ground (arith, same, eq_iff x t) in subst P equal px
  | inr other ↦ All-has P xs t h (ground (arith, e, other))
]

pub Ends-done {ℓ} :
    {A : Type ℓ} (P : A → Type 0) (m : Outcome A) (a : A) → Ends P m → m ≡ done a → P a
Ends-done P (done b) a h e = subst P (let same : b ≡ a = cc in same) h
Ends-done P (thrown message) a h e = cc
Ends-done P exhausted a h e = absurd h

Ends-exhausted {ℓ} : {A : Type ℓ} (P : A → Type 0) (m : Outcome A) → Ends P m → m ≢ exhausted
Ends-exhausted P (done b) h e = cc
Ends-exhausted P (thrown message) h e = cc
Ends-exhausted P exhausted h e = h

module _ (texts : Texts) (services : List String) (definitions : List (String × ClassDef)) where
  abbrev Produces : List Node → Type 0
  Produces nodes =
      (s : Build) × Grows definitions (record { types = []; nodes = [] }) s × (s.nodes ≡ nodes)

  build_services_xml-Ends : Ends Produces (build_services_xml texts services definitions)
  unfolding build_services_xml
  build_services_xml-Ends =
      let start : Build = record { types = []; nodes = [] } in
      Ends-bind (Grows definitions start) _
        (service_nodes definitions texts (register_type definitions (length definitions)) services
          start)
        _
        (service_nodes-Grows definitions (length definitions) texts services start
          (missing-le_length definitions []))
        (λ s g. (s, g, refl))

-- buildServicesXml comes to an end, also where data types refer to each other in a circle: a nesting
-- of calls of registerType no deeper than there are definitions is enough.
pub build_services_xml-ends :
    (texts : Texts) (services : List String) (definitions : List (String × ClassDef))
    → build_services_xml texts services definitions ≢ exhausted
build_services_xml-ends texts services definitions =
    Ends-exhausted _ _ (build_services_xml-Ends texts services definitions)

-- Where every definition is kept under its own name, a description that is made of services declares
-- no data type twice; and a name of a type in it, be it of a property, of what a method returns or
-- takes, or of the elements of such an array, is declared as one data type if it has a definition and
-- is not empty.
pub build_services_xml-closed :
    (texts : Texts) (services : List String) (definitions : List (String × ClassDef))
    (nodes : List Node) (node : Node) (i : ℕ) (t other : String) (d : ClassDef)
    → IsNamed definitions
    → build_services_xml texts services definitions ≡ done nodes
    → get_elem? nodes i ≡ some node
    → has t (node_type_names node) ≡ true
    → lookup t definitions ≡ some d
    → t ≢ ""
    → (count_data_types t nodes ≡ 1) × (count_data_types other nodes ≤ 1)
unfolding unregistered
build_services_xml-closed texts services definitions nodes node i t other d named made at mentioned
      defined given =
    let (s, g, same) =
      Ends-done _ _ nodes (build_services_xml-Ends texts services definitions) made in
    let all : s.nodes ≡ g.new = g.appended in
    let new : g.new ≡ nodes = sym all ∙ same in
    let counted : (x : String) → count_data_types x nodes ≡ bit (has x s.types) = λ x.
      subst (λ l. count_data_types x l ≡ bit (has x s.types)) new
        (omega (arith, g.counted named x)) in
    let closed : IsClosed definitions s.types node =
      All-get_elem? _ g.new i node g.closed (rw new at) in
    let settled = All-has _ (node_type_names node) t closed mentioned in
    (ground (arith, counted t, settled, eq_iff t ""), ground (arith, counted other))
