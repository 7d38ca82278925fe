-- ===== src/Common/Lists.antt =====
-- Lists of native numbers and of other values, as the program uses its arrays.
use Prim.Native.Nat.{ℕ, zero, suc, ◌+◌, ◌-◌}
use mathlib.Core.Path.{◌≡◌, refl, subst}
use mathlib.Core.Logic.{inl, inr}
use mathlib.Core.Bool.{Bool}
use mathlib.Core.List.{List, [], ◌∷◌, ◌++◌}
use mathlib.Core.Option.{Option, none, some}
use native.Mathlib.Omega.{arith}
use js_code_runner.Common.Tests.{◌==◌, if◌then◌else◌, Option-cases, eq_of_some}

module _ {ℓ} {A : Type ℓ} where
  abbrev pub length : List A → ℕ
  length [] = 0
  length (x ∷ xs) = suc (length xs)

  pub length-append : (xs ys : List A) → length (xs ++ ys) ≡ length xs + length ys
  length-append [] ys = omega arith
  length-append (x ∷ xs) ys = omega (arith, length-append xs ys)

  -- `Array.prototype.filter` and `find` by a Boolean test.
  abbrev pub filter : (A → Bool) → List A → List A
  filter p [] = []
  filter p (x ∷ xs) = if p x then x ∷ filter p xs else filter p xs

  abbrev pub find : (A → Bool) → List A → Option A
  find p [] = none
  find p (x ∷ xs) = if p x then some x else find p xs

  abbrev pub get_elem? : List A → ℕ → Option A
  get_elem? [] i = none
  get_elem? (x ∷ xs) zero = some x
  get_elem? (x ∷ xs) (suc i) = get_elem? xs i

  -- A predicate by recursion, which the tactics read as a tuple.
  abbrev pub All {κ} : (A → Type κ) → List A → Type κ
  All P [] = Unit
  All P (x ∷ xs) = P x × All P xs

  pub All-append {κ} : (P : A → Type κ) (xs ys : List A) → All P xs → All P ys → All P (xs ++ ys)
  All-append P [] ys h k = k
  All-append P (x ∷ xs) ys (px, h) k = (px, All-append P xs ys h k)

  pub All-mono {κ μ} :
      (P : A → Type κ) (Q : A → Type μ) (xs : List A) → ((x : A) → P x → Q x) → All P xs → All Q xs
  All-mono P Q [] imp h = tt
  All-mono P Q (x ∷ xs) imp (px, h) = (imp x px, All-mono P Q xs imp h)

  pub All-get_elem? {κ} :
      (P : A → Type κ) (xs : List A) (i : ℕ) (x : A) → All P xs → get_elem? xs i ≡ some x → P x
  All-get_elem? P [] i x h e = absurd cc
  All-get_elem? P (y ∷ ys) zero x (py, h) e = subst P (eq_of_some e) py
  All-get_elem? P (y ∷ ys) (suc i) x (py, h) e = All-get_elem? P ys i x h e

-- How often a number stands in a list.
abbrev pub occurs : ℕ → List ℕ → ℕ
occurs w [] = 0
occurs w (v ∷ vs) = (if v == w then 1 else 0) + occurs w vs

-- `indexOf` and `splice(index, 1)`: the first occurrence goes.
abbrev pub remove : ℕ → List ℕ → List ℕ
remove w [] = []
remove w (v ∷ vs) = if v == w then vs else v ∷ remove w vs

pub occurs-remove :
    (v w : ℕ) (l : List ℕ) → occurs v (remove w l) ≡ (if w == v then occurs v l - 1 else occurs v l)
occurs-remove v w [] = ground arith
occurs-remove v w (u ∷ us) = ground (arith, occurs-remove v w us)

pub length-remove :
    (w : ℕ) (l : List ℕ) → length l ≡ length (remove w l) + (if occurs w l == 0 then 0 else 1)
length-remove w [] = ground arith
length-remove w (u ∷ us) = ground (arith, length-remove w us)

abbrev push_head : ℕ → Option (ℕ × List ℕ) → Option (ℕ × List ℕ)
push_head v none = some (v, [])
push_head v (some (l, rest)) = some (l, v ∷ rest)

-- `Array.prototype.pop`: the last element, and the list without it.
abbrev pub pop : List ℕ → Option (ℕ × List ℕ)
pop [] = none
pop (v ∷ vs) = push_head v (pop vs)

pub pop-eq-none : (l : List ℕ) → pop l ≡ none → l ≡ []
pop-eq-none [] e = refl
pop-eq-none (x ∷ xs) e = elim (Option-cases (pop xs)) [ inl h ↦ cc | inr h ↦ cc ]

-- What is popped is split off the end.
pub pop-occurs :
    (l : List ℕ) (w : ℕ) (rest : List ℕ) (v : ℕ)
    → pop l ≡ some (w, rest)
    → occurs v l ≡ occurs v rest + (if w == v then 1 else 0)
pop-occurs [] w rest v e = cc
pop-occurs (x ∷ xs) w rest v e = elim (Option-cases (pop xs)) [
  | inl h ↦ ground (arith, pop-eq-none xs h)
  | inr ((l, r), h) ↦ ground (arith, pop-occurs xs l r v h)
]
