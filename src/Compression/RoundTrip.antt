-- ===== src/Compression/RoundTrip.antt =====
-- What comes back when compressed data is decompressed.
use js_code_runner.Common.{
  ℕ, ◌≤◌, ◌<◌, ◌≡◌, refl, Option, some, List, ◌∷◌, length, ltb, true, false, arith, Bool-cases, inl,
  inr,
}
use js_code_runner.Compression.{
  resolved, rejected, number_or, min_data_size, default_compression_level, size_byte, with_size,
  compress, read_size, inflate_sized, decompress_marked, decompress,
}

-- The four bytes of a size that fits in 32 bits give the size back.
pub read_size-size_byte :
    (n : ℕ)
    → n < 4_294_967_296
    → read_size (size_byte n 16_777_216) (size_byte n 65_536) (size_byte n 256) (size_byte n 1) ≡ n
read_size-size_byte n h = omega arith

module _ (deflate inflate : ℕ → List ℕ → Option (List ℕ)) where
  decompress-with_size :
      (n : ℕ) (z bytes : List ℕ)
      → n < 2_147_483_648
      → inflate n z ≡ some bytes
      → decompress inflate (with_size n z) ≡ resolved bytes
  unfolding decompress decompress_marked inflate_sized
  decompress-with_size n z bytes small back =
      rw (read_size-size_byte n (omega arith)) (ground (arith, back))

  -- Data that is long enough is deflated.
  compress-large :
      (min_size level : Option ℕ) (bytes z : List ℕ)
      → ltb (length bytes) (number_or min_size min_data_size) ≡ false
      → deflate (number_or level default_compression_level) bytes ≡ some z
      → compress deflate min_size level bytes ≡ resolved (with_size (length bytes) z)
  unfolding compress
  compress-large min_size level bytes z long packed = rw (long, packed)

  decompress-unmarked : (bytes : List ℕ) → decompress inflate (0 ∷ bytes) ≡ resolved bytes
  unfolding decompress
  decompress-unmarked bytes = refl

  compress-small :
      (min_size level : Option ℕ) (bytes : List ℕ)
      → ltb (length bytes) (number_or min_size min_data_size) ≡ true
      → compress deflate min_size level bytes ≡ resolved (0 ∷ bytes)
  unfolding compress
  compress-small min_size level bytes short = rw short

  -- What is known of zlib: every text can be deflated, and inflating gives it back, whatever
  -- dictionary is offered.
  abbrev pub Undoes : Type 0
  Undoes =
      (level : ℕ) (bytes : List ℕ)
      → (z : List ℕ) × (deflate level bytes ≡ some z) × ((size : ℕ) → inflate size z ≡ some bytes)

  -- If zlib can deflate every text and undo it, then `compress` succeeds on data of less than 2 ^ 31
  -- bytes, with any threshold and level, and `decompress` gives the data back.
  pub decompress-compress :
      Undoes
      → (min_size level : Option ℕ) (bytes : List ℕ) → length bytes < 2_147_483_648
      → (packed : List ℕ) × (compress deflate min_size level bytes ≡ resolved packed)
        × (decompress inflate packed ≡ resolved bytes)
  decompress-compress zlib min_size level bytes small =
      let (z, packed, back) = zlib (number_or level default_compression_level) bytes in
      elim (Bool-cases (ltb (length bytes) (number_or min_size min_data_size))) [
        | inl short ↦ (_, compress-small min_size level bytes short, decompress-unmarked bytes)
        | inr long ↦ (
          _,
          compress-large min_size level bytes z long packed,
          decompress-with_size (length bytes) z bytes small (back _),
        )
      ]

  decompress-with_size_negative :
      (n : ℕ) (z : List ℕ)
      → 2_147_483_648 ≤ n
      → n < 4_294_967_296
      → decompress inflate (with_size n z) ≡ rejected
  unfolding decompress decompress_marked inflate_sized
  decompress-with_size_negative n z big h = rw (read_size-size_byte n h) (ground arith)

  -- Data of 2 ^ 31 bytes or more, up to 2 ^ 32, that is not below the threshold compresses, but its
  -- size is read back as a negative number: `decompress` refuses it.
  pub decompress-compress_large :
      Undoes
      → (min_size level : Option ℕ) (bytes : List ℕ) → 2_147_483_648 ≤ length bytes
      → length bytes < 4_294_967_296
      → number_or min_size min_data_size ≤ length bytes
      → (packed : List ℕ) × (compress deflate min_size level bytes ≡ resolved packed)
        × (decompress inflate packed ≡ rejected)
  decompress-compress_large zlib min_size level bytes big small long =
      let (z, packed, back) = zlib (number_or level default_compression_level) bytes in
      (
        _,
        compress-large min_size level bytes z (ground arith) packed,
        decompress-with_size_negative (length bytes) z big small,
      )
