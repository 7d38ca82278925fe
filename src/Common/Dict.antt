-- ===== src/Common/Dict.antt =====
-- A JavaScript object used as a dictionary: an association list keyed by text, in the order in
-- which the keys were first written.
use Prim.Native.String.{String}
use mathlib.Core.Path.{◌≡◌, refl}
use mathlib.Core.List.{List, [], ◌∷◌}
use mathlib.Core.Option.{Option, none, some}
use native.Mathlib.Omega.{arith}
use text.Mathlib.Text.{◌==◌}
use text.Mathlib.TextEquality.{eq_iff}
use js_code_runner.Common.Tests.{if◌then◌else◌}

-- The value of the first entry of that name.
unfoldable pub lookup {ℓ} : {V : Type ℓ} → String → List (String × V) → Option V
lookup name [] = none
lookup name ((key, value) ∷ rest) =
    let later = lookup name rest in if key == name then some value else later

-- Writing to a name that is there keeps its position; a new name comes last.
unfoldable pub insert {ℓ} : {V : Type ℓ} → String → V → List (String × V) → List (String × V)
insert name new [] = (name, new) ∷ []
insert name new ((key, value) ∷ rest) =
    let below = insert name new rest in
    if key == name then (name, new) ∷ rest else (key, value) ∷ below

pub lookup-insert {ℓ} :
    {V : Type ℓ} (written asked : String) (new : V) (dict : List (String × V))
    → lookup asked (insert written new dict)
      ≡ (if written == asked then some new else lookup asked dict)
unfolding lookup insert
lookup-insert written asked new [] = refl
lookup-insert written asked new ((key, value) ∷ rest) = ground (
  arith,
  lookup-insert written asked new rest,
  eq_iff key asked,
  eq_iff key written,
  eq_iff written asked,
)
