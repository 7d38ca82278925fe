-- ===== src/ServerCode/Model/Services.antt =====
-- lib/server-code/model/index.js, addService and getService. What is written before an exception stays
-- written, so the answer is the model with the message of an exception, `none` where there is none.
use text.Mathlib.TextPositions.{eq_refl}
use Prim.Native.String
use js_code_runner.Common.{◌≡◌, ap, String, Option, none, some, List, [], arith}
use js_code_runner.Common.Dict.{lookup, insert, lookup-insert}
use js_code_runner.ServerCode.Classes.{ClassDef}
use js_code_runner.ServerCode.Descriptor.{Outcome, done, thrown, exhausted}
use js_code_runner.ServerCode.Service.{ServiceClass, ServiceWrapper, service_wrapper}
use js_code_runner.ServerCode.Model.{
  Strategy, reject, ignore, merge_to_front, merge_to_back, replace, FilePath, ServerCodeModel,
  strategy_or, read_file,
}

-- The class takes over what the comments say of it, if it has no description of its own; `serviceInfo`
-- is deleted there.
abbrev pub take_over : ServiceClass → ClassDef → ServiceClass
take_over c d = record c { description = d.description; service_info = d.service_info }

abbrev pub described : ServiceClass → ServerCodeModel → ServiceClass
described c m = elim c.description [
  | some text ↦ c
  | none ↦ elim (lookup c.class_name m.definitions.types) [ none ↦ c | some d ↦ take_over c d ]
]

abbrev pub strip : String → ClassDef → ServerCodeModel → ServerCodeModel
strip name d m = record m {
  definitions = record m.definitions {
    types = insert name (record d { service_info = [] }) m.definitions.types;
  };
}

abbrev pub without_info : ServiceClass → ServerCodeModel → ServerCodeModel
without_info c m = elim c.description [
  | some text ↦ m
  | none ↦ elim (lookup c.class_name m.definitions.types) [
    | none ↦ m
    | some d ↦ strip c.class_name d m
  ]
]

abbrev pub service_exists : String → String
service_exists name = String.◌++◌ "[" (String.◌++◌ name "] service already exists")

abbrev pub put_service : ServiceWrapper → ServerCodeModel → ServerCodeModel
put_service w m = record m { services = insert w.name w m.services }

abbrev pub add_duplicate :
    Strategy → ServiceWrapper → ServerCodeModel → ServerCodeModel × Option String
add_duplicate reject w m = (m, some (service_exists w.name))
add_duplicate ignore w m = (m, none)
add_duplicate _ w m = (put_service w m, none)

abbrev pub put_wrapper :
    Strategy → Outcome ServiceWrapper → ServerCodeModel → ServerCodeModel × Option String
put_wrapper strategy (thrown message) m = (m, some message)
put_wrapper strategy exhausted m = (m, none)
put_wrapper strategy (done w) m = elim (lookup w.name m.services) [
  | none ↦ (put_service w m, none)
  | some old ↦ add_duplicate strategy w m
]

unfoldable pub add_service :
    (String → List ClassDef)
    → ServiceClass
    → FilePath
    → Option Strategy
    → ServerCodeModel
    → ServerCodeModel × Option String
add_service describe_classes service file options m =
    let m1 = read_file describe_classes file options m in
    put_wrapper (strategy_or options reject)
      (service_wrapper (described service m1) file.relative_path) (without_info service m1)

unfoldable pub get_service : String → ServerCodeModel → Option ServiceWrapper
get_service name m = lookup name m.services

keeps_services : (c : ServiceClass) (m : ServerCodeModel) → (without_info c m).services ≡ m.services
keeps_services c m = ground arith

-- What getService gives and what addService answers, where the wrapper of the service is made: by the
-- service of that name from before and the strategy.
abbrev pub Served :
    Strategy
    → Option ServiceWrapper
    → ServiceWrapper
    → Option ServiceWrapper
    → Option String
    → Type 0
Served strategy none w now error = (now ≡ some w) × (error ≡ none)
Served reject (some old) w now error = (now ≡ some old) × (error ≡ some (service_exists w.name))
Served ignore (some old) w now error = (now ≡ some old) × (error ≡ none)
Served _ (some old) w now error = (now ≡ some w) × (error ≡ none)

put_wrapper-Served :
    (strategy : Strategy) (before : Option ServiceWrapper) (w : ServiceWrapper)
    (m : ServerCodeModel)
    → lookup w.name m.services ≡ before
    → let (m', error) = put_wrapper strategy (done w) m in
      Served strategy before w (lookup w.name m'.services) error
put_wrapper-Served strategy none w m free =
    ground (arith, free, lookup-insert w.name w.name w m.services, eq_refl w.name)
put_wrapper-Served reject (some old) w m taken = ground (arith, taken)
put_wrapper-Served ignore (some old) w m taken = ground (arith, taken)
put_wrapper-Served merge_to_front (some old) w m taken =
    ground (arith, taken, lookup-insert w.name w.name w m.services, eq_refl w.name)
put_wrapper-Served merge_to_back (some old) w m taken =
    ground (arith, taken, lookup-insert w.name w.name w m.services, eq_refl w.name)
put_wrapper-Served replace (some old) w m taken =
    ground (arith, taken, lookup-insert w.name w.name w m.services, eq_refl w.name)

-- Where the wrapper of a service can be made, getService gives it after addService if the name was free
-- or the strategy is to replace or to merge; with the strategy to ignore, and with the one to reject,
-- which is taken if none is given, it gives the service from before, and addService throws only with
-- the latter.
pub add_service-get_service :
    (describe : String → List ClassDef) (c : ServiceClass) (file : FilePath)
    (options : Option Strategy) (m : ServerCodeModel) (w : ServiceWrapper)
    → service_wrapper (described c (read_file describe file options m)) file.relative_path ≡ done w
    → let (m', error) = add_service describe c file options m in
      Served (strategy_or options reject) (get_service w.name m) w (get_service w.name m') error
unfolding add_service get_service
add_service-get_service describe c file options m w made =
    let m1 = read_file describe file options m in
    rw (made, add_service)
      (put_wrapper-Served (strategy_or options reject) (lookup w.name m.services) w
        (without_info c m1) (ap (lookup w.name) (keeps_services c m1)))
