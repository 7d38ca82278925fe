-- ===== src/Compression.antt =====
-- lib/util/compression.js: `compress` and `decompress`. A text stands for its UTF-8 bytes. zlib's
-- `deflate` and `inflate` are arguments; `none` is their error. `inflate` gets the length of the
-- dictionary of zero bytes that the source makes for it.
pub mod RoundTrip
use js_code_runner.Common.{
  ℕ, ◌+◌, ◌*◌, ◌/◌, ◌%◌, ◌^◌, Option, none, some, List, [], ◌∷◌, length, ltb, if◌then◌else◌, ◌==◌,
}

abbrev pub min_data_size : ℕ
min_data_size = 8 * 1024

abbrev pub default_compression_level : ℕ
default_compression_level = 7

-- How a promise of these functions ends.
pub data Settled : Type 0 where
  resolved : List ℕ → Settled
  rejected : Settled

-- `n || d`
abbrev pub number_or : Option ℕ → ℕ → ℕ
number_or none d = d
number_or (some n) d = if n == 0 then d else n

-- `n >>> k`, as one byte of a buffer keeps it.
abbrev pub size_byte : ℕ → ℕ → ℕ
size_byte n k = (n % 4_294_967_296 / k) % 256

abbrev pub with_size : ℕ → List ℕ → List ℕ
with_size n compressed =
    1 ∷ size_byte n 16_777_216 ∷ size_byte n 65_536 ∷ size_byte n 256 ∷ size_byte n 1 ∷ compressed

abbrev compressed_as : ℕ → Option (List ℕ) → Settled
compressed_as n none = rejected
compressed_as n (some z) = resolved (with_size n z)

unfoldable pub compress : (ℕ → List ℕ → Option (List ℕ)) → Option ℕ → Option ℕ → List ℕ → Settled
compress deflate min_size level bytes =
    if ltb (length bytes) (number_or min_size min_data_size)
    then resolved (0 ∷ bytes)
    else compressed_as (length bytes) (deflate (number_or level default_compression_level) bytes)

-- What is given to `compress`: a text, which `Buffer.from` turns into its bytes, or an object of another
-- kind, on which it throws, and the promise is rejected.
pub data Input : Type 0 where
  text_of : List ℕ → Input
  plain_object : Input

unfoldable pub compress_input :
    (ℕ → List ℕ → Option (List ℕ)) → Option ℕ → Option ℕ → Input → Settled
compress_input deflate min_size level (text_of bytes) = compress deflate min_size level bytes
compress_input deflate min_size level plain_object = rejected

-- The four shifted bytes have no bit in common, so their `|` is their sum.
abbrev pub read_size : ℕ → ℕ → ℕ → ℕ → ℕ
read_size a b c d = a * 16_777_216 + b * 65_536 + c * 256 + d

abbrev inflated_as : Option (List ℕ) → Settled
inflated_as none = rejected
inflated_as (some bytes) = resolved bytes

-- A set top bit makes the 32-bit size negative, and Buffer.alloc throws.
unfoldable pub inflate_sized : (ℕ → List ℕ → Option (List ℕ)) → ℕ → List ℕ → Settled
inflate_sized inflate size compressed =
    if ltb size 2_147_483_648 then inflated_as (inflate size compressed) else rejected

-- Reading a byte behind the end of the buffer throws.
unfoldable pub decompress_marked : (ℕ → List ℕ → Option (List ℕ)) → List ℕ → Settled
decompress_marked inflate (a ∷ b ∷ c ∷ d ∷ compressed) =
    inflate_sized inflate (read_size a b c d) compressed
decompress_marked inflate _ = rejected

unfoldable pub decompress : (ℕ → List ℕ → Option (List ℕ)) → List ℕ → Settled
decompress inflate [] = rejected
decompress inflate (mark ∷ bytes) =
    if mark == 1 then decompress_marked inflate bytes else resolved bytes
