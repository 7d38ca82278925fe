-- ===== src/Tests/Codecs.antt =====
-- The theorems on compression and on the queues, with a codec that adds a byte in front.
use js_code_runner.Common.{ℕ, ◌≡◌, refl, Option, none, some, List, [], ◌∷◌, arith, true}
use js_code_runner.Compression.{resolved, compress, decompress}
use js_code_runner.Compression.RoundTrip.{Undoes, decompress-compress}
use js_code_runner.Messages.{publishes, set_task_result}
use js_code_runner.Messages.RoundTrip.{set_task_result-decompress}
use js_code_runner.Tests.States.{task}

abbrev deflate : ℕ → List ℕ → Option (List ℕ)
deflate level bytes = some (level ∷ bytes)

abbrev inflate : ℕ → List ℕ → Option (List ℕ)
inflate size [] = none
inflate size (level ∷ bytes) = some bytes

undoes : Undoes deflate inflate
undoes level bytes = (level ∷ bytes, refl, λ size. refl)

abbrev text : List ℕ
text = 104 ∷ 105 ∷ []

decompress-compress_example :
    (packed : List ℕ) × (compress deflate (some 1) none text ≡ resolved packed)
    × (decompress inflate packed ≡ resolved text)
decompress-compress_example =
    decompress-compress deflate inflate undoes (some 1) none text (omega arith)

set_task_result-decompress_example :
    (packed : List ℕ) × (set_task_result deflate true (some 1) task (some text)
      ≡ some (publishes "r" (some packed)))
    × (decompress inflate packed ≡ resolved text)
set_task_result-decompress_example =
    set_task_result-decompress deflate inflate undoes (some 1) task 104 (105 ∷ []) (omega arith)
