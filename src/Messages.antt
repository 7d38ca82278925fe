-- ===== src/Messages.antt =====
-- lib/server-code/services/messages-broker.js, the class MessagesBroker: taking a task from a queue,
-- putting one back, publishing a result. Redis is outside: what its commands answer is an argument,
-- and what is asked of it is a list of requests, the latest first. JSON.parse is an argument, over the
-- bytes of the text.
pub mod RoundTrip
use js_code_runner.Common.{
  ℕ, String, Bool, true, false, Option, none, some, List, [], ◌∷◌, if◌then◌else◌, ◌==◌,
}
use js_code_runner.Compression.{
  Settled, resolved, rejected, plain_object, compress, compress_input, decompress,
}
use js_code_runner.Task.{Task}

pub data Channel : Type 0 where
  main_tasks low_priority_tasks : Channel

-- `rpush` and `publish`, with what is sent.
pub data Request : Type 0 where
  pushes : Channel → Task → Request
  pushes_bytes : Channel → List ℕ → Request
  publishes : String → Option (List ℕ) → Request

-- What `blpop` answers: an error, nothing, or a message.
pub data Popped : Type 0 where
  failed nothing : Popped
  message : List ℕ → Popped

-- What the promise of getTask ends with. `undefined` is `taken none`.
pub data Taken : Type 0 where
  taken : Option Task → Taken
  broken : Taken

abbrev parsed : Option Task → Taken
parsed none = broken
parsed (some task) = taken (some task)

abbrev parsed_from : (List ℕ → Option Task) → Settled → Taken
parsed_from parse rejected = broken
parsed_from parse (resolved bytes) = parsed (parse bytes)

-- getTask behind its `await`. An error of `blpop` is logged and the result is `undefined`.
unfoldable pub get_task :
    (ℕ → List ℕ → Option (List ℕ)) → (List ℕ → Option Task) → Bool → Popped → Taken
get_task inflate parse compression_enabled failed = taken none
get_task inflate parse compression_enabled nothing = taken none
get_task inflate parse true (message []) = broken
get_task inflate parse true (message (b ∷ bs)) = parsed_from parse (decompress inflate (b ∷ bs))
get_task inflate parse false (message bytes) = parsed (parse bytes)

abbrev pub pushed : Channel → Settled → Option Request
pushed channel rejected = none
pushed channel (resolved bytes) = some (pushes_bytes channel bytes)

-- pushTaskBack: with compression on, `compress` is given the task itself, which is an object. `none` is a
-- rejected promise.
unfoldable pub push_task_back :
    (ℕ → List ℕ → Option (List ℕ)) → Bool → Option ℕ → Channel → Task → Option Request
push_task_back deflate true threshold channel task =
    pushed channel (compress_input deflate threshold none plain_object)
push_task_back deflate false threshold channel task = some (pushes channel task)

abbrev published : String → Settled → Option Request
published channel rejected = none
published channel (resolved bytes) = some (publishes channel (some bytes))

-- setTaskResult: an empty or a missing result is sent as it is. `none` is a rejected promise.
unfoldable pub set_task_result :
    (ℕ → List ℕ → Option (List ℕ)) → Bool → Option ℕ → Task → Option (List ℕ) → Option Request
set_task_result deflate true threshold task (some (b ∷ bs)) =
    published task.response_channel_id (compress deflate threshold none (b ∷ bs))
set_task_result deflate _ threshold task result = some (publishes task.response_channel_id result)

-- expireKey: the answer 0 means that the key is not there, and is thrown.
unfoldable pub expire_key : ℕ → Bool
expire_key answer = if answer == 0 then false else true
