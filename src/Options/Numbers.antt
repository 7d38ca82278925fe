-- ===== src/Options/Numbers.antt =====
-- parseInt, as ensureRateLimit of lib/cli/options.js calls it: blanks, a sign, `0x` for hexadecimal
-- digits, and then as many digits as there are. `none` is NaN. The numbers are exact: the source rounds
-- those above 2^53.
pub mod Decimal
use js_code_runner.Common.{
  ℕ, zero, suc, ◌+◌, ◌*◌, ◌-◌, String, Bool, true, false, Option, none, some, if◌then◌else◌, ◌==◌,
  ◌&&◌, ◌||◌, leb,
}
use js_code_runner.Common.Int.{ℤ, pos, negsuc}
use Prim.Native.Char.{code}

-- White space and line terminators.
abbrev is_blank : ℕ → Bool
is_blank c =
    leb 9 c && leb c 13
    || c == 32
    || c == 160
    || c == 5760
    || leb 8192 c && leb c 8202
    || c == 8232
    || c == 8233
    || c == 8239
    || c == 8287
    || c == 12288
    || c == 65279

unfoldable pub skip_blanks : String → String
skip_blanks String.[] = String.[]
skip_blanks (String.◌∷◌ c s) =
    let rest = skip_blanks s in if is_blank (code c) then rest else String.◌∷◌ c s

abbrev pub decimal_digit : ℕ → Option ℕ
decimal_digit c = if leb 48 c && leb c 57 then some (c - 48) else none

abbrev hex_digit : ℕ → Option ℕ
hex_digit c =
    if leb 48 c && leb c 57
    then some (c - 48)
    else if leb 97 c && leb c 102
    then some (c - 87)
    else if leb 65 c && leb c 70
    then some (c - 55)
    else none

abbrev pub number_before : Option ℕ → ℕ
number_before none = 0
number_before (some n) = n

-- `read` is the number of the digits so far, if there are any.
unfoldable pub digits_from : (ℕ → Option ℕ) → ℕ → Option ℕ → String → Option ℕ
digits_from digit radix read String.[] = read
digits_from digit radix read (String.◌∷◌ c s) = elim (digit (code c)) [
  | none ↦ read
  | some d ↦ digits_from digit radix (some (number_before read * radix + d)) s
]

-- `x` or `X`
abbrev is_hex_mark : ℕ → Bool
is_hex_mark c = c == 120 || c == 88

unfoldable pub parse_unsigned : String → Option ℕ
parse_unsigned (String.◌∷◌ c (String.◌∷◌ d s)) =
    if code c == 48 && is_hex_mark (code d)
    then digits_from hex_digit 16 none s
    else digits_from decimal_digit 10 none (String.◌∷◌ c (String.◌∷◌ d s))
parse_unsigned s = digits_from decimal_digit 10 none s

abbrev pub negated : ℕ → ℤ
negated zero = pos 0
negated (suc n) = negsuc n

abbrev pub signed : Bool → ℕ → ℤ
signed true n = negated n
signed false n = pos n

abbrev pub with_sign : Bool → Option ℕ → Option ℤ
with_sign minus none = none
with_sign minus (some n) = some (signed minus n)

unfoldable pub parse_signed : String → Option ℤ
parse_signed String.[] = none
parse_signed (String.◌∷◌ c s) =
    if code c == 45
    then with_sign true (parse_unsigned s)
    else if code c == 43
    then with_sign false (parse_unsigned s)
    else with_sign false (parse_unsigned (String.◌∷◌ c s))

abbrev pub parse_int : String → Option ℤ
parse_int s = parse_signed (skip_blanks s)
