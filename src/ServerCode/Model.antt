-- ===== src/ServerCode/Model.antt =====
-- lib/server-code/model/index.js, the class ServerCodeModel: handlers, timers, types and services of
-- an application under their keys, and Definitions, what the documentation comments say of its
-- classes. The classes that util/jsdoc.js finds in a file are an argument of the operations that read
-- a file. Functions of the application are numbers. A missing entry of a dictionary is `none`, and an
-- exception is `err` with its message.
pub mod Keys
pub mod Laws
pub mod Merge
pub mod Services
use js_code_runner.Common.{
  ℕ, ◌≡◌, String, Bool, true, false, not, ◌&&◌, Option, none, some, List, [], ◌∷◌, ◌++◌,
  if◌then◌else◌,
}
use js_code_runner.Common.Dict.{lookup, insert}
pub use js_code_runner.Common.Results.{Result, ok, err}
use Prim.Native.String
use text.Mathlib.Text.{◌==◌ as str_eq}
use js_code_runner.ServerCode.Events.Types.{EventType, Provider, timer, provider, name, is_provider}
use js_code_runner.ServerCode.Events.{get}
use js_code_runner.ServerCode.Classes.{ClassDef}
use js_code_runner.ServerCode.Service.{ServiceWrapper}
use Keys.{compute_handler_key}

pub data Strategy : Type 0 where
  reject ignore merge_to_front merge_to_back replace : Strategy

abbrev pub is_strategy : Strategy → Strategy → Bool
is_strategy reject reject = true
is_strategy ignore ignore = true
is_strategy merge_to_front merge_to_front = true
is_strategy merge_to_back merge_to_back = true
is_strategy replace replace = true
is_strategy _ _ = false

-- `options && options.duplicateStrategy || d`
abbrev pub strategy_or : Option Strategy → Strategy → Strategy
strategy_or none d = d
strategy_or (some s) d = s

pub record Handler : Type 0 where
  pub event_id : ℕ
  pub target : String
  pub async : Bool
  pub invoke : ℕ
  pub provider_file : String

pub record Timer : Type 0 where
  pub timer_name : String
  pub invoke : ℕ
  pub provider_file : String

pub record FilePath : Type 0 where
  pub absolute_path : String
  pub relative_path : String

pub record Definitions : Type 0 where
  pub explicit : Bool
  pub files : List String
  pub types : List (String × ClassDef)

pub record CustomType : Type 0 where
  pub type_name : String
  pub clazz : ℕ
  pub provider_file : String

pub record ServerCodeModel : Type 0 where
  pub types : List (String × CustomType)
  pub handlers : List (String × Handler)
  pub timers : List (String × Timer)
  pub services : List (String × ServiceWrapper)
  pub definitions : Definitions
  pub errors : List String

-- `files.indexOf(path) !== -1`
abbrev pub includes : List String → String → Bool
includes [] s = false
includes (x ∷ xs) s = if str_eq x s then true else includes xs s

-- The loop over the properties, or the methods, of a class that is known already.
unfoldable pub merge_members {ℓ} :
    {V : Type ℓ} → Strategy → List (String × V) → List (String × V) → List (String × V)
merge_members strategy existing [] = existing
merge_members strategy existing ((k, v) ∷ more) =
    merge_members strategy
      (elim (lookup k existing) [
        | none ↦ insert k v existing
        | some old ↦ if is_strategy strategy merge_to_front then insert k v existing else existing
      ])
      more

unfoldable pub merge_class : Strategy → ClassDef → ClassDef → ClassDef
merge_class strategy existing c = record existing {
  properties = merge_members strategy existing.properties c.properties;
  methods = merge_members strategy existing.methods c.methods;
}

unfoldable pub add_class : Strategy → List (String × ClassDef) → ClassDef → List (String × ClassDef)
add_class strategy types c = elim (lookup c.class_name types) [
  | none ↦ insert c.class_name c types
  | some existing ↦
      if is_strategy strategy replace
      then insert c.class_name c types
      else insert c.class_name (merge_class strategy existing c) types
]

unfoldable pub add_classes :
    Strategy → List (String × ClassDef) → List ClassDef → List (String × ClassDef)
add_classes strategy types [] = types
add_classes strategy types (c ∷ cs) = add_classes strategy (add_class strategy types c) cs

-- Definitions.addFile
unfoldable pub add_file :
    (String → List ClassDef) → FilePath → Option Strategy → Definitions → Definitions
add_file describe_classes file options d =
    if not d.explicit && not (includes d.files file.relative_path)
    then record d {
      files = d.files ++ file.relative_path ∷ [];
      types =
          add_classes (strategy_or options replace) d.types (describe_classes file.absolute_path);
    }
    else d

abbrev pub event_name : Option EventType → String
event_name none = "undefined"
event_name (some e) = name e

abbrev pub handler_exists : Handler → String
handler_exists h = String.◌++◌ "[" (
    String.◌++◌ (event_name (get h.event_id))
      (String.◌++◌ "(" (String.◌++◌ h.target ")] event handler already exists")))

unfoldable pub add_handler : Handler → ServerCodeModel → Result ServerCodeModel
add_handler h m = elim (lookup (compute_handler_key h.event_id h.target) m.handlers) [
  | some old ↦ err (handler_exists h)
  | none ↦
      ok (record m { handlers = insert (compute_handler_key h.event_id h.target) h m.handlers })
]

abbrev pub timer_exists : String → String
timer_exists n = String.◌++◌ "[" (String.◌++◌ n "] timer already exists")

unfoldable pub add_timer : Timer → ServerCodeModel → Result ServerCodeModel
add_timer t m = elim (lookup t.timer_name m.timers) [
  | some old ↦ err (timer_exists t.timer_name)
  | none ↦ ok (record m { timers = insert t.timer_name t m.timers })
]

-- What getHandler returns: a timer or a handler, or `undefined`.
pub data Found : Type 0 where
  timer_found : Option Timer → Found
  handler_found : Option Handler → Found

abbrev pub found_for : ServerCodeModel → ℕ → String → Option EventType → Result Found
found_for m i target none = err "Cannot read properties of undefined"
found_for m i target (some e) =
    if is_provider (provider e) timer
    then ok (timer_found (lookup target m.timers))
    else ok (handler_found (lookup (compute_handler_key i target) m.handlers))

unfoldable pub get_handler : ℕ → String → ServerCodeModel → Result Found
get_handler i target m = found_for m i target (get i)

abbrev pub type_exists : String → String
type_exists n = String.◌++◌ "[" (String.◌++◌ n "] custom type already exists")

abbrev pub put_type : String → ℕ → FilePath → ServerCodeModel → ServerCodeModel
put_type n clazz file m = record m {
  types =
      insert n (record { type_name = n; clazz = clazz; provider_file = file.relative_path })
        m.types;
}

abbrev pub read_file :
    (String → List ClassDef) → FilePath → Option Strategy → ServerCodeModel → ServerCodeModel
read_file describe_classes file options m = record m {
  definitions = add_file describe_classes file options m.definitions;
}

abbrev pub add_duplicate_type :
    (String → List ClassDef)
    → String
    → ℕ
    → FilePath
    → Option Strategy
    → Strategy
    → ServerCodeModel
    → Result ServerCodeModel
add_duplicate_type d n clazz file options reject m = err (type_exists n)
add_duplicate_type d n clazz file options ignore m = ok m
add_duplicate_type d n clazz file options merge_to_back m = ok (read_file d file options m)
add_duplicate_type d n clazz file options merge_to_front m =
    ok (put_type n clazz file (read_file d file options m))
add_duplicate_type d n clazz file options replace m =
    ok (put_type n clazz file (read_file d file options m))

unfoldable pub add_type :
    (String → List ClassDef)
    → String
    → ℕ
    → FilePath
    → Option Strategy
    → ServerCodeModel
    → Result ServerCodeModel
add_type d n clazz file options m = elim (lookup n m.types) [
  | none ↦ ok (put_type n clazz file (read_file d file options m))
  | some old ↦ add_duplicate_type d n clazz file options (strategy_or options reject) m
]
