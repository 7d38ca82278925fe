-- ===== src/Options/Overrides.antt =====
-- The text of the rate limits, and what ensureRateLimit reads from it.
use js_code_runner.Common.{
  ℕ, ◌≡◌, refl, String, Bool, true, false, Option, none, some, List, [], ◌∷◌, if◌then◌else◌, ◌==◌,
  arith, All, leb, eq_iff, ◌∙◌, Option-cases, inl, inr,
}
use text.Mathlib.Text.{◌==◌ as str_eq}
use js_code_runner.Common.Int.{ℤ}
use js_code_runner.Common.Dict.{lookup, insert, lookup-insert}
use js_code_runner.Options.Numbers.{signed}
use js_code_runner.Options.Numbers.Decimal.{
  is_decimal, decimal_value, write_int, parse_int-write_int,
}
use Prim.Native.String
use Prim.Native.String.append.{nil, cons}
use Prim.Native.Char.{Char, char, code}
use js_code_runner.Options.Limits.{split, is_given, put_override, put_overrides, ensure_rate_limit}

-- Texts without a character.
abbrev pub lacks : ℕ → String → Bool
lacks at String.[] = true
lacks at (String.◌∷◌ c s) = if code c == at then false else lacks at s

split-lacks : (at : ℕ) (s : String) → lacks at s ≡ true → split at s ≡ s ∷ []
unfolding split
split-lacks at String.[] h = refl
split-lacks at (String.◌∷◌ c s) h = ground (arith, h, split-lacks at s)

split-joined :
    (at : ℕ) (s t : String) (c : Char)
    → lacks at s ≡ true
    → code c ≡ at
    → split at (String.◌++◌ s (String.◌∷◌ c t)) ≡ s ∷ split at t
unfolding split
split-joined at String.[] t c h same = rw (nil (String.◌∷◌ c t), split) (ground (arith, same))
split-joined at (String.◌∷◌ d s) t c h same =
    rw (cons d s (String.◌∷◌ c t), split) (ground (arith, h, split-joined at s t c))

-- An app and its limit: the first digit, the further ones, and whether it is below 0.
pub record Override : Type 0 where
  pub app : String
  pub minus : Bool
  pub first : Char
  pub digits : String

-- The text of the limit.
abbrev pub limit_text : Override → String
limit_text o = write_int o.minus (String.◌∷◌ o.first o.digits)

-- How the two are written: `app:limit`.
abbrev pub write_override : Override → String
write_override o = String.◌++◌ o.app (String.◌∷◌ (char 58 tt) (limit_text o))

-- Overrides with a semicolon between them.
abbrev pub write_overrides : List Override → String
write_overrides [] = ""
write_overrides (o ∷ []) = write_override o
write_overrides (o ∷ p ∷ rest) =
    String.◌++◌ (write_override o) (String.◌∷◌ (char 59 tt) (write_overrides (p ∷ rest)))

abbrev pub Writable : Override → Type 0
Writable o =
    (lacks 58 o.app ≡ true)
    × (lacks 59 o.app ≡ true)
    × (is_given o.app ≡ true)
    × (is_decimal (String.◌∷◌ o.first o.digits) ≡ true)

-- The limit as a number.
abbrev pub limit_of : Override → ℤ
limit_of o = signed o.minus (decimal_value (String.◌∷◌ o.first o.digits))

abbrev pub or_earlier {ℓ} : {A : Type ℓ} → Option A → Option A → Option A
or_earlier none earlier = earlier
or_earlier (some x) earlier = some x

-- The limit that is written last for an app, if there is one.
unfoldable pub last_limit : String → List Override → Option (Option ℤ)
last_limit app [] = none
last_limit app (o ∷ os) =
    or_earlier (last_limit app os) (if str_eq o.app app then some (some (limit_of o)) else none)

decimal-lacks : (at : ℕ) (s : String) → is_decimal s ≡ true → leb 58 at ≡ true → lacks at s ≡ true
decimal-lacks at String.[] h k = refl
decimal-lacks at (String.◌∷◌ c s) h k = ground (arith, h, k, decimal-lacks at s)

limit_text-lacks :
    (at : ℕ) (minus : Bool) (s : String)
    → is_decimal s ≡ true
    → leb 58 at ≡ true
    → lacks at (write_int minus s) ≡ true
limit_text-lacks at true s h k = ground (arith, k, decimal-lacks at s h k)
limit_text-lacks at false s h k = decimal-lacks at s h k

limit_text-given :
    (minus : Bool) (c : Char) (s : String) → is_given (write_int minus (String.◌∷◌ c s)) ≡ true
limit_text-given true c s = refl
limit_text-given false c s = refl

lacks-append :
    (at : ℕ) (s t : String)
    → lacks at s ≡ true
    → lacks at t ≡ true
    → lacks at (String.◌++◌ s t) ≡ true
lacks-append at String.[] t h k = rw (nil t) k
lacks-append at (String.◌∷◌ c s) t h k =
    rw (cons c s t, lacks) (ground (arith, h, lacks-append at s t, k))

lacks-write_override : (o : Override) → Writable o → lacks 59 (write_override o) ≡ true
lacks-write_override o h =
    lacks-append 59 o.app (String.◌∷◌ (char 58 tt) (limit_text o)) h.1
      (ground (arith, limit_text-lacks 59 o.minus (String.◌∷◌ o.first o.digits) h.3 refl))

put_override-written :
    (o : Override) (limits : List (String × Option ℤ))
    → Writable o
    → put_override (split 58 (write_override o)) limits ≡ insert o.app (some (limit_of o)) limits
put_override-written o limits h =
    let only =
      split-lacks 58 (limit_text o)
        (limit_text-lacks 58 o.minus (String.◌∷◌ o.first o.digits) h.3 refl) in
    rw (split-joined 58 o.app (limit_text o) (char 58 tt) h.0 refl, only)
      (ground (
        arith,
        h.2,
        limit_text-given o.minus o.first o.digits,
        parse_int-write_int o.minus o.first o.digits h.3,
      ))

-- One override, and the ones behind it.
lookup-step :
    (o : Override) (os : List Override) (limits : List (String × Option ℤ)) (app : String)
    → or_earlier (last_limit app os) (lookup app (insert o.app (some (limit_of o)) limits))
      ≡ or_earlier (last_limit app (o ∷ os)) (lookup app limits)
unfolding last_limit
lookup-step o os limits app = elim (Option-cases (last_limit app os)) [
  | inl none_later ↦
      rw none_later
        (ground (arith, eq_iff o.app app, lookup-insert o.app app (some (limit_of o)) limits))
  | inr (later, there) ↦ rw there refl
]

put_overrides-written :
    (o : Override) (os : List Override) (limits : List (String × Option ℤ)) (app : String)
    → All Writable (o ∷ os)
    → lookup app (put_overrides (split 59 (write_overrides (o ∷ os))) limits)
      ≡ or_earlier (last_limit app (o ∷ os)) (lookup app limits)
unfolding put_overrides last_limit
put_overrides-written o [] limits app h =
    rw
      (
        split-lacks 59 (write_override o) (lacks-write_override o h.0),
        put_overrides,
        put_override-written o limits h.0,
      )
      (lookup-step o [] limits app)
put_overrides-written o (p ∷ rest) limits app h =
    rw
      (
        split-joined 59 (write_override o) (write_overrides (p ∷ rest)) (char 59 tt)
            (lacks-write_override o h.0) refl,
        put_overrides,
        put_override-written o limits h.0,
      )
      (put_overrides-written p rest (insert o.app (some (limit_of o)) limits) app h.1
        ∙ lookup-step o (p ∷ rest) limits app)

given-append : (s t : String) → is_given s ≡ true → is_given (String.◌++◌ s t) ≡ true
given-append String.[] t h = cc
given-append (String.◌∷◌ c s) t h = rw (cons c s t, is_given) refl

write_overrides_given :
    (o : Override) (os : List Override)
    → All Writable (o ∷ os)
    → is_given (write_overrides (o ∷ os)) ≡ true
write_overrides_given o [] h = given-append o.app _ h.0.2
write_overrides_given o (p ∷ rest) h =
    given-append (write_override o) _ (given-append o.app _ h.0.2)

or_earlier-none {ℓ} : {A : Type ℓ} (x : Option A) → or_earlier x none ≡ x
or_earlier-none none = refl
or_earlier-none (some x) = refl

-- A text of rate limits, `app:limit` for each app with semicolons between them, where the apps have
-- names without `:` and `;` and the limits are written in decimal digits, some behind a minus: every
-- app has the number that is written last for it as its limit, and an app that is not in the text has
-- none.
pub ensure_rate_limit-write_overrides :
    (enabled : Bool) (default : Option ℕ) (o : Override) (os : List Override) (app : String)
    → All Writable (o ∷ os)
    → lookup app (ensure_rate_limit enabled default (some (write_overrides (o ∷ os)))).overrides
      ≡ last_limit app (o ∷ os)
unfolding ensure_rate_limit lookup
ensure_rate_limit-write_overrides enabled default o os app h = ground (
  arith,
  write_overrides_given o os h,
  put_overrides-written o os [] app h ∙ or_earlier-none (last_limit app (o ∷ os)),
)
