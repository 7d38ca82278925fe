-- ===== src/ServerCode/Api/Laws.antt =====
-- Which registration functions have an event behind them.
use text.Mathlib.Text.{◌==◌ as str_eq}
use js_code_runner.Common.{
  ℕ, ◌≡◌, refl, Bool, true, false, ◌&&◌, ◌||◌, Option, none, some, List, [], ◌∷◌, arith, eq_iff,
  inl, inr, Option-cases, Bool-cases, subst, if◌then◌else◌, ◌⊎◌, ◌∙◌, ap, sym, not, String,
}
use js_code_runner.ServerCode.Events.Types.{
  EventType, Provider, id, name, provider, is_provider, timer, custom,
}
use js_code_runner.ServerCode.Events.{get, provider_event, events}
use js_code_runner.ServerCode.Events.Laws.{all, get-all, is_provider_sound}
use js_code_runner.Common.Dict.{lookup, insert}
use js_code_runner.ServerCode.Model.{
  Result, ok, err, Handler, FilePath, ServerCodeModel, add_handler, handler_exists, handler_found,
  get_handler,
}
use js_code_runner.ServerCode.Model.Keys.{compute_handler_key}
use js_code_runner.ServerCode.Model.Laws.{add_handler-get_handler}
use js_code_runner.ServerCode.Api.Types.{Registrar, registrar}
use js_code_runner.ServerCode.Api.Users.{media_api}
use js_code_runner.ServerCode.Api.{
  apis, Arguments, target_of, for_target, for_all, registration, add_in_context, handler_registrar,
}

-- The event behind a registration function.
abbrev pub event_of : Registrar → Option EventType
event_of (registrar n p e) = provider_event p e

-- A call of a registration function.
abbrev pub call :
    Registrar → Arguments → Option FilePath → Option ServerCodeModel → Result ServerCodeModel
call r args file model = handler_registrar (event_of r) args file model

pub data Listed {ℓ} {A : Type ℓ} (a : A) : List A → Type ℓ where
  head : (xs : List A) → Listed a (a ∷ xs)
  tail : (x : A) (xs : List A) → Listed a xs → Listed a (x ∷ xs)

all-Listed {ℓ} :
    {A : Type ℓ} (q : A → Bool) (a : A) (l : List A) → Listed a l → all q l ≡ true → q a ≡ true
unfolding all
all-Listed q a l (head xs) h = ground arith
all-Listed q a l (tail x xs t) h = all-Listed q a xs t (ground arith)

is_found : Option EventType → Bool
is_found none = false
is_found (some e) = not (is_provider (provider e) timer)

-- There is an event, and it is in the table under its id and is not the one of timers.
has_event : Registrar → Bool
has_event r = elim (event_of r) [ none ↦ false | some e ↦ is_found (get (id e)) ]

all_have_events : all has_event apis ≡ true
unfolding all provider_event get has_event is_found
all_have_events = refl

is_found_sound :
    (o : Option EventType)
    → is_found o ≡ true
    → (e : EventType) × (o ≡ some e) × (is_provider (provider e) timer ≡ false)
unfolding is_found
is_found_sound none h = cc
is_found_sound (some e) h = (e, refl, ground (arith, h))

some_of_has_event :
    (r : Registrar)
    → has_event r ≡ true
    → (e : EventType) × (event_of r ≡ some e) × (is_found (get (id e)) ≡ true)
unfolding has_event
some_of_has_event r h = elim (Option-cases (event_of r)) [
  | inl missing ↦ absurd (ground (arith, missing))
  | inr (e, found) ↦ (e, found, ground (arith, found))
]

-- The handler and the mark of the arguments.
abbrev pub handler_of : Arguments → ℕ
handler_of (for_target t h a) = h
handler_of (for_all h a) = h

abbrev pub is_async : Arguments → Bool
is_async (for_target t h a) = a
is_async (for_all h a) = a

-- A handler for an event, with what a call was given, from a file.
abbrev pub IsMadeOf : ℕ → Arguments → FilePath → Handler → Type 0
IsMadeOf i args file h =
    (h.event_id ≡ i)
    × (h.target ≡ target_of args)
    × (h.invoke ≡ handler_of args)
    × (h.async ≡ is_async args)
    × (h.provider_file ≡ file.relative_path)

registered :
    (file : FilePath) (i : ℕ) (args : Arguments) → IsMadeOf i args file (registration file i args)
registered file i (for_target t h a) = (refl, refl, refl, refl, refl)
registered file i (for_all h a) = (refl, refl, refl, refl, refl)

-- What a call does for the event `i`: there was no handler for the event and the target, and one that is
-- made of the arguments is found afterwards; or there was one for the event and the target and the call is refused.
abbrev pub Registers : ℕ → Arguments → FilePath → ServerCodeModel → Result ServerCodeModel → Type 0
Registers i args file m result =
    ((h : Handler) × (m' : ServerCodeModel) × (lookup (compute_handler_key i (target_of args))
          m.handlers
        ≡ none)
      × (result ≡ ok m')
      × IsMadeOf i args file h
      × (get_handler i (target_of args) m' ≡ ok (handler_found (some h))))
    ⊎ ((old : Handler) × (message : String) × (lookup (compute_handler_key i (target_of args))
            m.handlers
          ≡ some old)
        × (result ≡ err message))

add_in_context-Registers :
    (file : FilePath) (m : ServerCodeModel) (i : ℕ) (args : Arguments) (b : EventType)
    → get i ≡ some b
    → is_provider (provider b) timer ≡ false
    → Registers i args file m (add_in_context (some file) (some m) i args)
unfolding add_in_context add_handler
add_in_context-Registers file m i args b known plain =
    let h = registration file i args in
    let made = registered file i args in
    elim (Option-cases (lookup (compute_handler_key i (target_of args)) m.handlers)) [
      | inl free ↦
          let m' : ServerCodeModel = record m {
            handlers = insert (compute_handler_key h.event_id h.target) h m.handlers;
          } in
          let free_key : lookup (compute_handler_key h.event_id h.target) m.handlers ≡ none =
            rw (made.0, made.1) free in
          let added : add_handler h m ≡ ok m' = rw (free_key, add_handler) refl in
          let found =
            (add_handler-get_handler h h m m' b "" (rw made.0 known) plain added refl refl).0 in
          inl (
            h,
            m',
            free,
            added,
            made,
            ap (λ (j : ℕ). get_handler j (target_of args) m') (sym made.0)
                ∙ (ap (λ (t : String). get_handler h.event_id t m') (sym made.1) ∙ found),
          )
      | inr (old, taken) ↦
          let taken_key : lookup (compute_handler_key h.event_id h.target) m.handlers ≡ some old =
            rw (made.0, made.1) taken in
          inr (old, handler_exists h, taken, rw (taken_key, add_handler) refl)
    ]

-- Every registration function outside ServerCode.Media has an event behind it. Called while a file is
-- loaded into a model, with a handler and a target or without one, it registers that handler for that
-- event, and for the target or else for all: getHandler then gives it, with the mark `async` of the
-- call and the path of the file. The call is refused only where there is a handler for the same event
-- and target, and then always.
pub call-apis :
    (r : Registrar) (args : Arguments) (file : FilePath) (m : ServerCodeModel)
    → Listed r apis
    → (e : EventType) × (event_of r ≡ some e)
      × Registers (id e) args file m (call r args (some file) (some m))
unfolding handler_registrar
call-apis r args file m listed =
    let (e, found, in_table) =
      some_of_has_event r (all-Listed has_event r apis listed all_have_events) in
    let (b, known, plain) = is_found_sound (get (id e)) in_table in
    (
      e,
      found,
      rw (found, handler_registrar) (add_in_context-Registers file m (id e) args b known plain),
    )

abbrev has_no_event : Registrar → Bool
has_no_event r = elim (event_of r) [ none ↦ true | some e ↦ false ]

media_has_no_events : all has_no_event media_api ≡ true
unfolding all provider_event
media_has_no_events = refl

none_of_has_no_event : (r : Registrar) → has_no_event r ≡ true → event_of r ≡ none
none_of_has_no_event r h = elim (Option-cases (event_of r)) [
  | inl missing ↦ missing
  | inr (e, found) ↦ cc
]

-- Every registration function of ServerCode.Media throws, whatever its arguments and whatever is
-- loaded: events.js has no event for that provider.
pub call-media_api :
    (r : Registrar) (args : Arguments) (file : Option FilePath) (model : Option ServerCodeModel)
    → Listed r media_api
    → (message : String) × (call r args file model ≡ err message)
unfolding handler_registrar
call-media_api r args file model listed =
    let missing =
      none_of_has_no_event r (all-Listed has_no_event r media_api listed media_has_no_events) in
    rw (missing, handler_registrar) (_, refl)

-- Timers and custom events are registered by addTimer and customEvent.
abbrev pub is_special : Provider → Bool
is_special timer = true
is_special custom = true
is_special _ = false

abbrev offers : EventType → Registrar → Bool
offers e (registrar n p event_name) =
    str_eq n (name e) && (is_provider p (provider e) && str_eq event_name (name e))

find_registrar : (Registrar → Bool) → List Registrar → Option Registrar
find_registrar q [] = none
find_registrar q (r ∷ rs) = if q r then some r else find_registrar q rs

find_registrar-Listed :
    (q : Registrar → Bool) (rs : List Registrar) (r : Registrar)
    → find_registrar q rs ≡ some r
    → Listed r rs × (q r ≡ true)
unfolding find_registrar
find_registrar-Listed q [] r found = cc
find_registrar-Listed q (x ∷ xs) r found = elim (Bool-cases (q x)) [
  | inl hit ↦
      let same : x ≡ r = ground arith in
      (subst (λ z. Listed z (x ∷ xs)) same (head xs), ground arith)
  | inr miss ↦
      let (later, fits) = find_registrar-Listed q xs r (ground arith) in (tail x xs later, fits)
]

abbrev is_offered : EventType → Bool
is_offered e =
    is_special (provider e)
    || elim (find_registrar (offers e) apis) [ none ↦ false | some r ↦ true ]

all_offered : all is_offered events ≡ true
unfolding all find_registrar
all_offered = refl

offers_sound :
    (e : EventType) (r : Registrar)
    → offers e r ≡ true
    → r ≡ registrar (name e) (provider e) (name e)
offers_sound e (registrar n p event_name) h =
    ground (arith, eq_iff n (name e), eq_iff event_name (name e), is_provider_sound p (provider e))

-- Every event of the table, but those of timers and custom events, has a registration function of
-- its own name.
pub get-Listed :
    (i : ℕ) (e : EventType)
    → get i ≡ some e
    → is_special (provider e) ≡ false
    → Listed (registrar (name e) (provider e) (name e)) apis
get-Listed i e found plain = elim (Option-cases (find_registrar (offers e) apis)) [
  | inl missing ↦ absurd (ground (arith, (get-all is_offered i e all_offered found).0))
  | inr (r, hit) ↦
      let (listed, fits) = find_registrar-Listed (offers e) apis r hit in
      subst (λ z. Listed z apis) (offers_sound e r fits) listed
]
