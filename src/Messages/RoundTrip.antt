-- ===== src/Messages/RoundTrip.antt =====
-- What travels through Redis comes back: results that setTaskResult compresses, and tasks that getTask
-- decompresses.
use js_code_runner.Common.{ℕ, ◌<◌, ◌≡◌, refl, true, Option, none, some, List, [], ◌∷◌, length}
use js_code_runner.Compression.{resolved, compress, decompress}
use js_code_runner.Compression.RoundTrip.{Undoes, decompress-compress}
use js_code_runner.Task.{Task}
use js_code_runner.Messages.{publishes, message, taken, get_task, set_task_result}

module _ (deflate inflate : ℕ → List ℕ → Option (List ℕ)) where
  -- If zlib can deflate every text and undo it, then with compression on a result that is not empty,
  -- and shorter than 2 ^ 31 bytes, is published on the channel that its task names, in a form that
  -- decompresses to the result.
  pub set_task_result-decompress :
      Undoes deflate inflate
      → (threshold : Option ℕ) (task : Task) (b : ℕ) (bs : List ℕ) → length (b ∷ bs) < 2_147_483_648
      → (packed : List ℕ) × (set_task_result deflate true threshold task (some (b ∷ bs))
          ≡ some (publishes task.response_channel_id (some packed)))
        × (decompress inflate packed ≡ resolved (b ∷ bs))
  unfolding set_task_result
  set_task_result-decompress zlib threshold task b bs small =
      let (packed, made, back) =
        decompress-compress deflate inflate zlib threshold none (b ∷ bs) small in
      (packed, rw made refl, back)

  get_task-decompress :
      (parse : List ℕ → Option Task) (packed bytes : List ℕ) (task : Task)
      → decompress inflate packed ≡ resolved bytes
      → parse bytes ≡ some task
      → get_task inflate parse true (message packed) ≡ taken (some task)
  unfolding get_task decompress
  get_task-decompress parse [] bytes task back text = cc
  get_task-decompress parse (p ∷ ps) bytes task back text = rw (back, text)

  -- Under the same condition on zlib, a task whose text is shorter than 2 ^ 31 bytes and was
  -- compressed with any threshold and level is the task that getTask returns.
  pub get_task-compress :
      Undoes deflate inflate
      → (parse : List ℕ → Option Task) (min_size level : Option ℕ) (bytes : List ℕ) (task : Task)
      → length bytes < 2_147_483_648
      → parse bytes ≡ some task
      → (packed : List ℕ) × (compress deflate min_size level bytes ≡ resolved packed)
        × (get_task inflate parse true (message packed) ≡ taken (some task))
  get_task-compress zlib parse min_size level bytes task small text =
      let (packed, made, back) =
        decompress-compress deflate inflate zlib min_size level bytes small in
      (packed, made, get_task-decompress parse packed bytes task back text)
