-- ===== src/Common/Results.antt =====
-- Results of code that can throw: an answer or the message of an exception, and for code on fuel the end
-- of the fuel as well.
use Prim.Native.String.{String}
use mathlib.Core.Option.{Option, none, some}

pub data Result {ℓ} (A : Type ℓ) : Type ℓ where
  ok : A → Result A
  err : String → Result A

-- An answer, an exception with its message, or the end of the fuel.
pub data Outcome {ℓ} (A : Type ℓ) : Type ℓ where
  done : A → Outcome A
  thrown : String → Outcome A
  exhausted : Outcome A

infixl 5 ◌>>=◌
abbrev pub ◌>>=◌ {ℓ κ} : {A : Type ℓ} {B : Type κ} → Outcome A → (A → Outcome B) → Outcome B
done a >>= f = f a
thrown message >>= f = thrown message
exhausted >>= f = exhausted

-- `a || b` of texts, where the empty text is `none`.
abbrev pub or_text : Option String → String → String
or_text none d = d
or_text (some t) d = t
