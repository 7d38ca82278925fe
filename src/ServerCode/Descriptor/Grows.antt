-- ===== src/ServerCode/Descriptor/Grows.antt =====
-- How the state of buildServicesXml grows: registered types stay registered, each that is added gets
-- its node, and what the new nodes refer to is registered.
use mathlib.Core.List.{append_assoc, append-nil}
use js_code_runner.Common.{
  ℕ, ◌+◌, ◌≡◌, sym, ◌∙◌, ap, String, Bool, true, none, some, List, [], ◌∷◌, ◌++◌, if◌then◌else◌,
  All, All-append, All-mono, arith,
}
use text.Mathlib.Text.{◌==◌}
use js_code_runner.ServerCode.Classes.{ClassDef, IsNamed}
use js_code_runner.ServerCode.Descriptor.Methods.{Typed}
use js_code_runner.ServerCode.Descriptor.Build.{
  Argument, Operation, Node, data_type, service, Build, has, unregistered,
}

abbrev pub bit : Bool → ℕ
bit b = if b then 1 else 0

-- How many data types of a name there are.
unfoldable pub count_data_types : String → List Node → ℕ
count_data_types x [] = 0
count_data_types x (data_type name d f fields ∷ ns) = bit (name == x) + count_data_types x ns
count_data_types x (service name d f operations ∷ ns) = count_data_types x ns

-- The names of types that stand in a node.
abbrev pub type_names : Typed → List String
type_names t = t.type ∷ elim t.element_type [ none ↦ [] | some e ↦ e ∷ [] ]

abbrev pub field_type_names : List Typed → List String
field_type_names [] = []
field_type_names (t ∷ ts) = type_names t ++ field_type_names ts

abbrev pub argument_type_names : List Argument → List String
argument_type_names [] = []
argument_type_names (a ∷ rest) = type_names a.typed ++ argument_type_names rest

abbrev pub operation_type_names : List Operation → List String
operation_type_names [] = []
operation_type_names (o ∷ rest) =
    (type_names o.operation.typed ++ argument_type_names o.arguments) ++ operation_type_names rest

abbrev pub node_type_names : Node → List String
node_type_names (data_type name d f fields) = field_type_names fields
node_type_names (service name d f operations) = operation_type_names operations

pub has-snoc :
    (x t : String) (l : List String) → has x (l ++ t ∷ []) ≡ (if has x l then true else t == x)
has-snoc x t [] = ground arith
has-snoc x t (y ∷ l) = ground (arith, has-snoc x t l)

pub count_data_types-append :
    (x : String) (a b : List Node)
    → count_data_types x (a ++ b) ≡ count_data_types x a + count_data_types x b
unfolding count_data_types
count_data_types-append x [] b = omega arith
count_data_types-append x (data_type name d f fields ∷ a) b =
    omega (arith, count_data_types-append x a b)
count_data_types-append x (service name d f operations ∷ a) b = count_data_types-append x a b

abbrev pub Extends : List String → List String → Type 0
Extends old types = (x : String) → has x old ≡ true → has x types ≡ true

module _ (definitions : List (String × ClassDef)) where
  -- Nothing is left to register for a name.
  abbrev pub IsSettled : List String → String → Type 0
  IsSettled types t = unregistered definitions types t ≡ none

  abbrev pub IsClosed : List String → Node → Type 0
  IsClosed types node = All (IsSettled types) (node_type_names node)

  pub IsSettled-mono :
      (old types : List String)
      → Extends old types
      → (t : String) → IsSettled old t
      → IsSettled types t
  unfolding unregistered
  IsSettled-mono old types more t h = ground (arith, h, more t)

  pub record Grows (s t : Build) : Type 0 where
    pub new : List Node
    pub appended : t.nodes ≡ s.nodes ++ new
    pub more : Extends s.types t.types
    pub counted :
        IsNamed definitions
        → (x : String) → count_data_types x new + bit (has x s.types) ≡ bit (has x t.types)
    pub closed : All (IsClosed t.types) new

  pub Grows-refl : (s : Build) → Grows s s
  unfolding count_data_types
  Grows-refl s = record {
    new = [];
    appended = sym (append-nil s.nodes);
    more = λ x h. h;
    counted = λ n x. omega arith;
    closed = tt;
  }

  pub Grows-trans : (r s t : Build) → Grows r s → Grows s t → Grows r t
  Grows-trans r s t a b = record {
    new = a.new ++ b.new;
    appended =
        b.appended
        ∙ ap (λ (l : List Node). l ++ b.new) a.appended
        ∙ append_assoc r.nodes a.new b.new;
    more = λ x h. b.more x (a.more x h);
    counted =
        λ n x. omega (arith, a.counted n x, b.counted n x, count_data_types-append x a.new b.new);
    closed =
        All-append _ a.new b.new
          (All-mono _ _ a.new
            (λ node. All-mono _ _ (node_type_names node) (IsSettled-mono s.types t.types b.more))
            a.closed)
          b.closed;
  }
