-- ===== src/Options/Numbers/Decimal.antt =====
-- parseInt of a number that is written in decimal digits.
use js_code_runner.Common.{
  ℕ, ◌+◌, ◌*◌, ◌-◌, ◌≡◌, ◌∙◌, ap, String, Bool, true, false, none, some, ◌&&◌, leb, arith,
}
use js_code_runner.Options.Numbers.{
  skip_blanks, decimal_digit, digits_from, parse_unsigned, signed, with_sign, parse_signed,
  parse_int,
}
use Prim.Native.Char.{Char, char, code}

abbrev pub is_decimal : String → Bool
is_decimal String.[] = true
is_decimal (String.◌∷◌ c s) = leb 48 (code c) && leb (code c) 57 && is_decimal s

abbrev place_value : String → ℕ
place_value String.[] = 1
place_value (String.◌∷◌ c s) = 10 * place_value s

-- The number that decimal digits stand for: each digit counts by its place.
abbrev pub decimal_value : String → ℕ
decimal_value String.[] = 0
decimal_value (String.◌∷◌ c s) = (code c - 48) * place_value s + decimal_value s

-- A number as it is written: digits, behind a minus if it is below 0.
abbrev pub write_int : Bool → String → String
write_int true digits = String.◌∷◌ (char 45 tt) digits
write_int false digits = digits

place : (n d p v : ℕ) → (n * 10 + d) * p + v ≡ n * (10 * p) + (d * p + v)
place n d p v = grind arith

digits_from-decimal :
    (s : String) (n : ℕ)
    → is_decimal s ≡ true
    → digits_from decimal_digit 10 (some n) s ≡ some (n * place_value s + decimal_value s)
unfolding digits_from
digits_from-decimal String.[] n h = ap some (omega arith)
digits_from-decimal (String.◌∷◌ c s) n h =
    let code_in : decimal_digit (code c) ≡ some (code c - 48) = ground (arith, h) in
    rw (digits_from, code_in)
      (digits_from-decimal s (n * 10 + (code c - 48)) (ground (arith, h))
        ∙ ap some (place n (code c - 48) (place_value s) (decimal_value s)))

digits_from-first :
    (c : Char) (s : String)
    → is_decimal (String.◌∷◌ c s) ≡ true
    → digits_from decimal_digit 10 none (String.◌∷◌ c s) ≡ some (decimal_value (String.◌∷◌ c s))
unfolding digits_from
digits_from-first c s h =
    let code_in : decimal_digit (code c) ≡ some (code c - 48) = ground (arith, h) in
    rw (digits_from, code_in)
      (digits_from-decimal s (0 * 10 + (code c - 48)) (ground (arith, h))
        ∙ ap some (place 0 (code c - 48) (place_value s) (decimal_value s) ∙ omega arith))

parse_unsigned-decimal :
    (c : Char) (s : String)
    → is_decimal (String.◌∷◌ c s) ≡ true
    → parse_unsigned (String.◌∷◌ c s) ≡ some (decimal_value (String.◌∷◌ c s))
unfolding parse_unsigned
parse_unsigned-decimal c String.[] h = digits_from-first c String.[] h
parse_unsigned-decimal c (String.◌∷◌ d s) h =
    ground (arith, h, digits_from-first c (String.◌∷◌ d s) h)

-- A number that is written in decimal digits, with a minus or without a sign, is read as it is.
pub parse_int-write_int :
    (minus : Bool) (c : Char) (s : String)
    → is_decimal (String.◌∷◌ c s) ≡ true
    → parse_int (write_int minus (String.◌∷◌ c s))
      ≡ some (signed minus (decimal_value (String.◌∷◌ c s)))
unfolding parse_signed skip_blanks
parse_int-write_int true c s h = ap (with_sign true) (parse_unsigned-decimal c s h)
parse_int-write_int false c s h = ground (arith, h, parse_unsigned-decimal c s h)
