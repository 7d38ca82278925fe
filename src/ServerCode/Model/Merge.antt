-- ===== src/ServerCode/Model/Merge.antt =====
-- How Definitions joins the classes of a file with those that are known, and that a file is read once.
use text.Mathlib.Text.{◌==◌}
use text.Mathlib.TextPositions.{eq_refl}
use js_code_runner.Common.{
  ◌≡◌, String, true, Option, none, some, List, [], ◌∷◌, ◌++◌, if◌then◌else◌, arith, eq_iff,
  Option-cases, inl, inr,
}
use js_code_runner.Common.Dict.{lookup, insert, lookup-insert}
use js_code_runner.ServerCode.Events.{or_else}
use js_code_runner.ServerCode.Classes.{ClassDef, IsNamed}
use js_code_runner.ServerCode.Model.{
  Definitions, merge_class, add_class, add_classes, strategy_or, replace, Strategy, merge_to_front,
  is_strategy, FilePath, Definitions, includes, add_file, merge_members,
}

-- The last value that a list of entries has for a name.
pub last_value {ℓ} : {V : Type ℓ} → String → List (String × V) → Option V
last_value k [] = none
last_value k ((j, v) ∷ more) = or_else (last_value k more) (if j == k then some v else none)

-- With `merge_to_front` a member of the new class wins over a member of the same name, and with any
-- other strategy the known one stays; members of other names are all kept.
pub lookup-merge_members {ℓ} :
    {V : Type ℓ} (strategy : Strategy) (k : String) (existing new : List (String × V))
    → lookup k (merge_members strategy existing new) ≡ (
        if is_strategy strategy merge_to_front
        then or_else (last_value k new) (lookup k existing)
        else or_else (lookup k existing) (lookup k new))
unfolding merge_members last_value lookup
lookup-merge_members strategy k existing [] = ground arith
lookup-merge_members strategy k existing ((j, v) ∷ more) = ground (
  arith,
  eq_iff j k,
  lookup-insert j k v existing,
  lookup-merge_members strategy k existing more,
  lookup-merge_members strategy k (insert j v existing) more,
)

includes-append : (xs : List String) (s : String) → includes (xs ++ s ∷ []) s ≡ true
includes-append [] s = rw (eq_refl s)
includes-append (x ∷ xs) s = ground (arith, includes-append xs s)

-- Adding a file a second time, under any strategy, changes nothing.
pub add_file-twice :
    (describe describe' : String → List ClassDef) (file : FilePath) (o o' : Option Strategy)
    (d : Definitions)
    → add_file describe' file o' (add_file describe file o d) ≡ add_file describe file o d
unfolding add_file
add_file-twice describe describe' file o o' d =
    ground (arith, includes-append d.files file.relative_path)

add_class-IsNamed :
    (strategy : Strategy) (types : List (String × ClassDef)) (c : ClassDef)
    → IsNamed types
    → IsNamed (add_class strategy types c)
unfolding add_class merge_class
add_class-IsNamed strategy types c named name d found =
    elim (Option-cases (lookup c.class_name types)) [
      | inl free ↦ ground (
        arith,
        free,
        lookup-insert c.class_name name c types,
        eq_iff c.class_name name,
        named name d,
      )
      | inr (old, taken) ↦ ground (
        arith,
        taken,
        named c.class_name old taken,
        lookup-insert c.class_name name c types,
        lookup-insert c.class_name name (merge_class strategy old c) types,
        eq_iff c.class_name name,
        named name d,
      )
    ]

add_classes-IsNamed :
    (strategy : Strategy) (types : List (String × ClassDef)) (cs : List ClassDef)
    → IsNamed types
    → IsNamed (add_classes strategy types cs)
unfolding add_classes
add_classes-IsNamed strategy types [] named = named
add_classes-IsNamed strategy types (c ∷ cs) named =
    add_classes-IsNamed strategy (add_class strategy types c) cs
      (add_class-IsNamed strategy types c named)

-- Adding a file keeps every class under its own name, whatever the file describes.
pub add_file-IsNamed :
    (describe : String → List ClassDef) (file : FilePath) (o : Option Strategy) (d : Definitions)
    → IsNamed d.types
    → IsNamed (add_file describe file o d).types
unfolding add_file
add_file-IsNamed describe file o d named = ground (
  arith,
  named,
  add_classes-IsNamed (strategy_or o replace) d.types (describe file.absolute_path) named,
)
