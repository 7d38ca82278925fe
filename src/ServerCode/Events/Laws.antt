-- ===== src/ServerCode/Events/Laws.antt =====
-- What holds of every event of the table: events come in pairs, and each is found under its id and
-- under its name.
use Prim.Native.String.{slice, len}
use text.Mathlib.Text.{◌==◌ as str_eq, starts_with}
use js_code_runner.Common.{
  ℕ, ◌-◌, ◌≡◌, refl, String, Bool, true, false, ◌&&◌, Option, none, some, List, [], ◌∷◌, ◌++◌,
  arith, eq_iff, ◌∙◌, if◌then◌else◌, ◌==◌, Option-cases, inl, inr,
}
use js_code_runner.ServerCode.Events.Types.{
  EventType, Provider, persistence, id, name, provider, args, is_provider,
}
use js_code_runner.ServerCode.Events.{events, find_last, get, provider_event}

unfoldable pub all {ℓ} : {A : Type ℓ} → (A → Bool) → List A → Bool
all p [] = true
all p (x ∷ xs) = p x && all p xs

-- What a key holds was written there, and passes every test that the whole table passes.
pub find_last-all :
    (p q : EventType → Bool) (l : List EventType) (e : EventType)
    → find_last p l ≡ some e
    → all q l ≡ true
    → (q e ≡ true) × (p e ≡ true)
unfolding find_last all
find_last-all p q [] e found h = cc
find_last-all p q (x ∷ xs) e found h = elim (Option-cases (find_last p xs)) [
  | inl last ↦ ground arith
  | inr (y, later) ↦ ground (arith, find_last-all p q xs e)
]

str_list_eq : List String → List String → Bool
str_list_eq [] [] = true
str_list_eq (x ∷ xs) (y ∷ ys) = str_eq x y && str_list_eq xs ys
str_list_eq _ _ = false

str_list_eq_sound : (xs ys : List String) → str_list_eq xs ys ≡ true → xs ≡ ys
unfolding str_list_eq
str_list_eq_sound [] [] h = refl
str_list_eq_sound (x ∷ xs) (y ∷ ys) h = ground (arith, eq_iff x y, str_list_eq_sound xs ys)
str_list_eq_sound [] (y ∷ ys) h = cc
str_list_eq_sound (x ∷ xs) [] h = cc

pub is_provider_sound : (p q : Provider) → is_provider p q ≡ true → p ≡ q
is_provider_sound persistence q h = ground arith
is_provider_sound p q h = ground arith

abbrev pub is_after : EventType → Bool
is_after e = starts_with (name e) "after"

-- The names differ in the first word only.
abbrev pub same_action : String → String → Bool
same_action before after =
    starts_with before "before" && str_eq (slice before 6 (len before)) (slice after 5 (len after))

abbrev precedes : EventType → EventType → Bool
precedes b e =
    is_provider (provider b) (provider e)
    && (str_list_eq (args e) (args b ++ "result" ∷ []) && same_action (name b) (name e))

abbrev preceded : EventType → Option EventType → Bool
preceded e none = false
preceded e (some b) = precedes b e

abbrev paired : EventType → Bool
paired e = if is_after e then preceded e (get (id e - 1)) else true

all-paired : all paired events ≡ true
unfolding all get str_list_eq
all-paired = refl

preceded_sound :
    (e : EventType) (o : Option EventType)
    → preceded e o ≡ true
    → (b : EventType) × (o ≡ some b)
      × (provider b ≡ provider e)
      × (args e ≡ args b ++ "result" ∷ [])
      × (same_action (name b) (name e) ≡ true)
preceded_sound e none h = cc
preceded_sound e (some b) h = (
  b,
  refl,
  ground (arith, is_provider_sound (provider b) (provider e)),
  ground (arith, str_list_eq_sound (args e) (args b ++ "result" ∷ [])),
  ground arith,
)

-- What `get` gives has the id that was asked for, and passes every test that the table passes.
pub get-all :
    (q : EventType → Bool) (i : ℕ) (e : EventType)
    → all q events ≡ true
    → get i ≡ some e
    → (q e ≡ true) × ((id e == i) ≡ true)
unfolding get
get-all q i e h found = find_last-all (λ x. id x == i) q events e found h

-- An event "afterX" stands one id behind the event "beforeX" of the same provider, and its handler
-- takes the same arguments and then `result`.
pub get-after :
    (i : ℕ) (e : EventType)
    → get i ≡ some e
    → is_after e ≡ true
    → (b : EventType) × (get (id e - 1) ≡ some b)
      × (provider b ≡ provider e)
      × (args e ≡ args b ++ "result" ∷ [])
      × (same_action (name b) (name e) ≡ true)
get-after i e found after =
    preceded_sound e (get (id e - 1)) (rw after at ((get-all paired i e all-paired found).0))

-- The provider's own object holds the same event under its name.
abbrev is_id : ℕ → Option EventType → Bool
is_id i none = false
is_id i (some e) = id e == i

abbrev agrees : EventType → Bool
agrees e = is_id (id e) (provider_event (provider e) (name e))

all_agree : all agrees events ≡ true
unfolding all provider_event
all_agree = refl

is_id_sound :
    (i : ℕ) (o : Option EventType) → is_id i o ≡ true → (e : EventType) × (o ≡ some e) × (id e ≡ i)
is_id_sound i none h = cc
is_id_sound i (some e) h = (e, refl, ground arith)

-- The event that `get` gives for an id has that id, and the object of its provider holds an event of
-- that id under its name: no event of the table hides another.
pub get-provider_event :
    (i : ℕ) (e : EventType)
    → get i ≡ some e
    → (id e ≡ i) × ((b : EventType) × (provider_event (provider e) (name e) ≡ some b) × (id b ≡ i))
get-provider_event i e found =
    let (agree, same) = get-all agrees i e all_agree found in
    let same_id : id e ≡ i = ground arith in
    let (b, held, is_b) = is_id_sound (id e) _ agree in (same_id, (b, held, is_b ∙ same_id))
