-- ===== src/Options/Limits.antt =====
-- lib/cli/options.js, ensureRateLimit, ensureForwardableHeaders and ensureWorkers. A limit that is NaN
-- is `none`.
use js_code_runner.Common.{
  ℕ, String, Bool, true, false, Option, none, some, List, [], ◌∷◌, if◌then◌else◌, ◌==◌, ◌&&◌, leb,
}
use js_code_runner.Common.Int.{ℤ}
use js_code_runner.Common.Dict.{insert}
use js_code_runner.Options.Numbers.{parse_int}
use Prim.Native.Char.{Char, code}

-- `split` at a character.
abbrev put_first : Char → List String → List String
put_first c [] = String.◌∷◌ c String.[] ∷ []
put_first c (s ∷ rest) = String.◌∷◌ c s ∷ rest

unfoldable pub split : ℕ → String → List String
split at String.[] = String.[] ∷ []
split at (String.◌∷◌ c s) =
    let rest = split at s in if code c == at then String.[] ∷ rest else put_first c rest

abbrev pub is_given : String → Bool
is_given String.[] = false
is_given (String.◌∷◌ c s) = true

-- `const [appId, limit] = value.split(':')`, and the entry if both are there.
abbrev pub put_override : List String → List (String × Option ℤ) → List (String × Option ℤ)
put_override (app ∷ limit ∷ rest) overrides =
    if is_given app && is_given limit then insert app (parse_int limit) overrides else overrides
put_override values overrides = overrides

unfoldable pub put_overrides : List String → List (String × Option ℤ) → List (String × Option ℤ)
put_overrides [] overrides = overrides
put_overrides (value ∷ values) overrides =
    put_overrides values (put_override (split 58 value) overrides)

pub record RateLimit : Type 0 where
  pub enabled : Bool
  pub default : Option ℕ
  pub overrides : List (String × Option ℤ)

-- `!(default >= 1)` holds for a default that is missing.
abbrev pub is_positive : Option ℕ → Bool
is_positive none = false
is_positive (some n) = leb 1 n

-- ensureRateLimit; the overrides are a text, or something else, `none`, that is dropped.
unfoldable pub ensure_rate_limit : Bool → Option ℕ → Option String → RateLimit
ensure_rate_limit enabled default overrides = record {
  enabled = if is_positive default then enabled else false;
  default = default;
  overrides = elim overrides [
    | none ↦ []
    | some text ↦ if is_given text then put_overrides (split 59 text) [] else []
  ];
}

-- `forwardableHeaders`: a text, an array or something else.
pub data Headers : Type 0 where
  header_text : String → Headers
  header_list : List String → Headers
  no_headers : Headers

unfoldable pub header_names : (String → String) → List String → List String → List String
header_names lower [] names = names
header_names lower (h ∷ hs) names =
    header_names lower hs (if is_given h then lower h ∷ names else names)

-- ensureForwardableHeaders: the keys of the map, the latest first; `none` where the option is deleted.
-- toLowerCase is an argument.
unfoldable pub ensure_forwardable_headers : (String → String) → Headers → Option (List String)
ensure_forwardable_headers lower (header_text t) = some (header_names lower (split 59 t) [])
ensure_forwardable_headers lower (header_list l) = some (header_names lower l [])
ensure_forwardable_headers lower no_headers = none

pub record Heartbeat : Type 0 where
  pub timeout : Option ℕ
  pub code_inspection_timeout : Option ℕ

-- `!codeInspectionTimeout` holds for 0 too.
unfoldable pub ensure_workers : Heartbeat → Heartbeat
ensure_workers h = record h {
  code_inspection_timeout = elim h.code_inspection_timeout [
    | none ↦ h.timeout
    | some n ↦ if n == 0 then h.timeout else some n
  ];
}
