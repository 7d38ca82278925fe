-- ===== src/ServerCode/Model/Laws.antt =====
-- Handlers and timers that are registered are found again, and duplicates are refused.
use text.Mathlib.Text.{◌==◌}
use text.Mathlib.TextPositions.{eq_refl}
use js_code_runner.Common.{
  ℕ, ◌≡◌, refl, ◌∙◌, String, true, false, some, List, if◌then◌else◌, arith, Option-cases, inl, inr,
  ap,
}
use js_code_runner.Common.Dict.{lookup, insert, lookup-insert}
use js_code_runner.ServerCode.Events.Types.{EventType, timer, provider, is_provider}
use js_code_runner.ServerCode.Events.{get}
use js_code_runner.ServerCode.Model.Keys.{compute_handler_key}
use js_code_runner.ServerCode.Model.{
  ok, err, Handler, ServerCodeModel, handler_exists, add_handler, handler_found, timer_found,
  timer_exists, Timer, add_timer, get_handler,
}

lookup-insert_same {ℓ} :
    {V : Type ℓ} (name : String) (new : V) (dict : List (String × V))
    → lookup name (insert name new dict) ≡ some new
lookup-insert_same name new dict = lookup-insert name name new dict ∙ rw (eq_refl name) refl

-- After a handler is accepted for an event of the table, other than the one of timers, getHandler
-- gives it for its event and target; the handler under any other key is the one from before; and a
-- further handler for the same event and target is refused.
pub add_handler-get_handler :
    (h h' : Handler) (m m' : ServerCodeModel) (e : EventType) (k : String)
    → get h.event_id ≡ some e
    → is_provider (provider e) timer ≡ false
    → add_handler h m ≡ ok m'
    → h'.event_id ≡ h.event_id
    → h'.target ≡ h.target
    → (get_handler h.event_id h.target m' ≡ ok (handler_found (some h)))
      × (lookup k m'.handlers
          ≡ (if compute_handler_key h.event_id h.target == k then some h else lookup k m.handlers))
      × (add_handler h' m' ≡ err (handler_exists h'))
unfolding add_handler get_handler
add_handler-get_handler h h' m m' e k known plain added same_event same_target =
    let j = compute_handler_key h.event_id h.target in
    elim (Option-cases (lookup j m.handlers)) [
      | inr (old, taken) ↦ absurd (ground (arith, taken))
      | inl free ↦
          let new : m'.handlers ≡ insert j h m.handlers = ground (arith, free) in
          let now : lookup j m'.handlers ≡ some h = ap (lookup j) new ∙ lookup-insert_same j h _ in
          (
            rw known (ground (arith, now)),
            ap (lookup k) new ∙ lookup-insert j k h m.handlers,
            rw (same_event, same_target) (ground (arith, now)),
          )
    ]

-- After a timer is accepted, getHandler gives it, for the event of timers and its name; for that event
-- and any other name it gives what it gave before, and it gives the same handlers for other events; and a
-- further timer of the same name is refused.
pub add_timer-get_handler :
    (t t' : Timer) (m m' : ServerCodeModel) (i j : ℕ) (e e' : EventType) (k : String)
    → get i ≡ some e
    → is_provider (provider e) timer ≡ true
    → get j ≡ some e'
    → is_provider (provider e') timer ≡ false
    → add_timer t m ≡ ok m'
    → t'.timer_name ≡ t.timer_name
    → (get_handler i k m'
        ≡ (if t.timer_name == k then ok (timer_found (some t)) else get_handler i k m))
      × (get_handler j k m' ≡ get_handler j k m)
      × (add_timer t' m' ≡ err (timer_exists t'.timer_name))
unfolding add_timer get_handler
add_timer-get_handler t t' m m' i j e e' k known timed known' plain added same =
    let n = t.timer_name in
    elim (Option-cases (lookup n m.timers)) [
      | inr (old, taken) ↦ absurd (ground (arith, taken))
      | inl free ↦
          let new : m'.timers ≡ insert n t m.timers = ground (arith, free) in
          let kept : m'.handlers ≡ m.handlers = ground (arith, free) in
          let now : lookup n m'.timers ≡ some t = ap (lookup n) new ∙ lookup-insert_same n t _ in
          let later : lookup k m'.timers ≡ (if n == k then some t else lookup k m.timers) =
            ap (lookup k) new ∙ lookup-insert n k t m.timers in
          (
            rw known (ground (arith, timed, later)),
            rw known' (ground (arith, plain, kept)),
            rw same (ground (arith, now)),
          )
    ]
