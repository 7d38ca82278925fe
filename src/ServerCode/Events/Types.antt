-- ===== src/ServerCode/Events/Types.antt =====
-- lib/server-code/events.js: the classes EventType and EventProvider. The functions that some events
-- carry are not here: the argument transformers are in Executor/Handler, and what a result wrapper or a
-- result transformer gives is an argument there.
use js_code_runner.Common.{ℕ, String, Bool, true, false, List}

pub data Provider : Type 0 where
  persistence timer media messaging user file cache atomic_operation geo custom : Provider

-- `event id name provider args`
pub data EventType : Type 0 where
  event : ℕ → String → Provider → List String → EventType

abbrev pub id : EventType → ℕ
id (event i n p a) = i

abbrev pub name : EventType → String
name (event i n p a) = n

abbrev pub provider : EventType → Provider
provider (event i n p a) = p

abbrev pub args : EventType → List String
args (event i n p a) = a

abbrev pub provider_id : Provider → String
provider_id persistence = "persistence"
provider_id timer = "timer"
provider_id media = "media"
provider_id messaging = "messaging"
provider_id user = "user"
provider_id file = "file"
provider_id cache = "cache"
provider_id atomic_operation = "atomic-operation"
provider_id geo = "geo"
provider_id custom = "custom"

abbrev pub targeted : Provider → Bool
targeted persistence = true
targeted messaging = true
targeted geo = true
targeted custom = true
targeted _ = false

-- The name of the provider's constant, to compare two of them.
abbrev pub is_provider : Provider → Provider → Bool
is_provider persistence persistence = true
is_provider timer timer = true
is_provider media media = true
is_provider messaging messaging = true
is_provider user user = true
is_provider file file = true
is_provider cache cache = true
is_provider atomic_operation atomic_operation = true
is_provider geo geo = true
is_provider custom custom = true
is_provider _ _ = false
