-- ===== src/ServerCode/Events.antt =====
-- lib/server-code/events.js: the table of events that addEvent fills, and `get`. The object `events`
-- and the objects `provider.events` keep the last event written under an id or a name.
pub mod Types
pub mod Data
pub mod Users
pub mod Messages
pub mod Counters
pub mod Laws
use js_code_runner.Common.{
  ℕ, String, Bool, ◌&&◌, Option, none, some, List, [], ◌∷◌, ◌++◌, if◌then◌else◌, ◌==◌,
}
use text.Mathlib.Text.{◌==◌ as str_eq}
use Types.{EventType, Provider, id, name, provider, is_provider}
use Data.{persistence_events}
use Users.{user_events, geo_events}
use Messages.{messaging_events, file_events}
use Counters.{cache_events, atomic_operation_events, timer_events, custom_events}

-- In the order of the source.
abbrev pub events : List EventType
events =
    persistence_events
    ++ (user_events
        ++ (geo_events
            ++ (messaging_events
                ++ (file_events
                    ++ (cache_events
                        ++ (atomic_operation_events ++ (timer_events ++ custom_events)))))))

abbrev pub or_else {ℓ} : {A : Type ℓ} → Option A → Option A → Option A
or_else none b = b
or_else (some a) b = some a

-- What a key of an object holds after all its writes: the last one that fits.
unfoldable pub find_last : (EventType → Bool) → List EventType → Option EventType
find_last p [] = none
find_last p (e ∷ es) = or_else (find_last p es) (if p e then some e else none)

unfoldable pub get : ℕ → Option EventType
unfolding find_last
get i = find_last (λ e. id e == i) events

-- `P.events[n]`
unfoldable pub provider_event : Provider → String → Option EventType
unfolding find_last
provider_event p n = find_last (λ e. is_provider (provider e) p && str_eq (name e) n) events
