-- ===== src/ServerCode/Descriptor/Missing.antt =====
-- The measure of registerType: the definitions that are not registered yet.
use js_code_runner.Common.{
  ℕ, ◌+◌, ◌≤◌, ◌<◌, ◌≡◌, String, false, some, List, [], ◌∷◌, ◌++◌, if◌then◌else◌, length, arith,
  eq_iff, Bool-cases, inl, inr,
}
use js_code_runner.Common.Dict.{lookup}
use text.Mathlib.Text.{◌==◌}
use js_code_runner.ServerCode.Classes.{ClassDef}
use js_code_runner.ServerCode.Descriptor.Build.{has}
use js_code_runner.ServerCode.Descriptor.Grows.{Extends, has-snoc}

unfoldable pub missing : List (String × ClassDef) → List String → ℕ
missing [] types = 0
missing ((key, d) ∷ rest) types = (if has key types then 0 else 1) + missing rest types

pub missing-le_length :
    (definitions : List (String × ClassDef)) (types : List String)
    → missing definitions types ≤ length definitions
unfolding missing
missing-le_length [] types = omega arith
missing-le_length ((key, d) ∷ rest) types = ground (arith, missing-le_length rest types)

pub missing_mono :
    (definitions : List (String × ClassDef)) (old types : List String)
    → Extends old types
    → missing definitions types ≤ missing definitions old
unfolding missing
missing_mono [] old types more = omega arith
missing_mono ((key, d) ∷ rest) old types more =
    ground (arith, more key, missing_mono rest old types more)

-- A definition that is registered is missing no longer.
pub missing-snoc :
    (definitions : List (String × ClassDef)) (types : List String) (t : String) (d : ClassDef)
    → lookup t definitions ≡ some d
    → has t types ≡ false
    → missing definitions (types ++ t ∷ []) < missing definitions types
unfolding missing lookup
missing-snoc [] types t d found new = cc
missing-snoc ((key, e) ∷ rest) types t d found new = elim (Bool-cases (key == t)) [
  | inl same ↦ ground (
    arith,
    eq_iff key t,
    has-snoc key t types,
    missing_mono rest types (types ++ t ∷ []) (λ x h. ground (arith, has-snoc x t types)),
  )
  | inr other ↦ ground (arith, missing-snoc rest types t d (ground arith) new, has-snoc key t types)
]
