-- ===== src/Storage/Hasher.antt =====
-- async_substrate_interface/utils/hasher.py: the hashers of storage keys. The hash functions are
-- parameters, of which only the lengths of their digests are known.
use async_substrate_interfac.Prelude.{
  ℕ, ◌≡◌, refl, ◌∙◌, List, [], ◌∷◌, ◌++◌, length, length-append, arith,
}

abbrev pub Bytes : Type 0
Bytes = List ℕ

-- `blake2b(bytes, digest_size)` of hashlib and `xxh64(bytes, seed)` of xxhash, as digests.
pub record Hashes : Type 0 where
  pub blake2b : Bytes → ℕ → Bytes
  pub xxh64_digest : Bytes → ℕ → Bytes
  pub blake2b_size : (bytes : Bytes) (n : ℕ) → length (blake2b bytes n) ≡ n
  pub xxh64_size : (bytes : Bytes) (seed : ℕ) → length (xxh64_digest bytes seed) ≡ 8

-- `bytearray.reverse`
unfoldable pub reverse : Bytes → Bytes
reverse [] = []
reverse (b ∷ l) = reverse l ++ b ∷ []

length-reverse : (l : Bytes) → length (reverse l) ≡ length l
unfolding reverse
length-reverse [] = refl
length-reverse (b ∷ l) = omega (arith, length-append (reverse l) (b ∷ []), length-reverse l)

module _ (H : Hashes) where
  open H use {blake2b, xxh64_digest, blake2b_size, xxh64_size}

  unfoldable pub blake2_256 : Bytes → Bytes
  blake2_256 bytes = blake2b bytes 32

  unfoldable pub blake2_128 : Bytes → Bytes
  blake2_128 bytes = blake2b bytes 16

  unfoldable pub blake2_128_concat : Bytes → Bytes
  blake2_128_concat bytes = blake2b bytes 16 ++ bytes

  unfoldable pub xxh128 : Bytes → Bytes
  unfolding reverse
  xxh128 bytes = reverse (xxh64_digest bytes 0) ++ reverse (xxh64_digest bytes 1)

  unfoldable pub two_x64_concat : Bytes → Bytes
  unfolding reverse
  two_x64_concat bytes = reverse (xxh64_digest bytes 0) ++ bytes

  unfoldable pub xxh64 : Bytes → Bytes
  unfolding reverse
  xxh64 bytes = reverse (xxh64_digest bytes 0)

  unfoldable pub identity : Bytes → Bytes
  identity bytes = bytes

  pub length-xxh128 : (bytes : Bytes) → length (xxh128 bytes) ≡ 16
  unfolding xxh128
  length-xxh128 bytes = omega (
    arith,
    length-append (reverse (xxh64_digest bytes 0)) (reverse (xxh64_digest bytes 1)),
    length-reverse (xxh64_digest bytes 0),
    length-reverse (xxh64_digest bytes 1),
    xxh64_size bytes 0,
    xxh64_size bytes 1,
  )

  pub length-xxh64 : (bytes : Bytes) → length (xxh64 bytes) ≡ 8
  unfolding xxh64
  length-xxh64 bytes = length-reverse (xxh64_digest bytes 0) ∙ xxh64_size bytes 0
