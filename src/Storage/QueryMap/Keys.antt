-- ===== src/Storage/QueryMap/Keys.antt =====
-- What the decoded keys of a query map hold.
use async_substrate_interfac.Prelude.{
  ℕ, zero, suc, ◌+◌, ◌-◌, ◌≤◌, ◌≡◌, refl, ◌∙◌, false, ◌==◌, Option, none, some, List, [], ◌∷◌, ◌++◌,
  length, arith,
}
use async_substrate_interfac.Storage.Hasher.{
  Bytes, blake2_128_concat, two_x64_concat, xxh64, length-xxh64, identity,
}
use async_substrate_interfac.Storage.Key.{
  HasherName, blake2_256_name, blake2_128_name, blake2_128_concat_name, twox128_name,
  twox64_concat_name, identity_name, no_name, other_name, ok, Codec, hash_param,
}
use async_substrate_interfac.Storage.QueryMap.{
  concat_hash_len, Field, hash, value_of, single, several, as_decoded, nth, every_second, add_field,
  range_size, item_key,
}

module _ (K : Codec) where
  open K use {hashes}
  open hashes use {blake2b, blake2b_size}

  -- A hasher of a query map puts its `concat_hash_len` bytes before the data, which it keeps.
  pub hash_param-concat_hash_len :
      (h : HasherName) (n : ℕ) (b : Bytes)
      → concat_hash_len h ≡ some n
      → (p : Bytes) × (hash_param K h b ≡ ok (p ++ b)) × (length p ≡ n)
  unfolding concat_hash_len hash_param
  hash_param-concat_hash_len blake2_128_concat_name n b e =
      (blake2b b 16, unfold blake2_128_concat in refl, blake2b_size b 16 ∙ ground arith)
  hash_param-concat_hash_len twox64_concat_name n b e =
      (xxh64 hashes b, unfold two_x64_concat xxh64 in refl, length-xxh64 hashes b ∙ ground arith)
  hash_param-concat_hash_len identity_name n b e = ([], unfold identity in refl, ground arith)
  hash_param-concat_hash_len blake2_256_name n b e = absurd (cc e)
  hash_param-concat_hash_len blake2_128_name n b e = absurd (cc e)
  hash_param-concat_hash_len twox128_name n b e = absurd (cc e)
  hash_param-concat_hash_len no_name n b e = absurd (cc e)
  hash_param-concat_hash_len other_name n b e = absurd (cc e)

-- A map with one key left gets that key.
pub item_key-single :
    {W : Type 0} (params : ℕ) (h : Bytes) (v : W)
    → item_key params (params + 1) (hash h ∷ value_of v ∷ []) ≡ single (value_of v)
unfolding item_key nth
item_key-single params h v = ground arith

-- Two entries of a map with three keys get one item key, if their first two keys are the same.
pub item_key-third :
    {W : Type 0} (h1 h2 h3 h3' : Bytes) (v1 v2 v3 v3' : W)
    → item_key 0 3 (hash h1 ∷ value_of v1 ∷ hash h2 ∷ value_of v2 ∷ hash h3 ∷ value_of v3 ∷ [])
      ≡ item_key 0 3 (hash h1 ∷ value_of v1 ∷ hash h2 ∷ value_of v2 ∷ hash h3' ∷ value_of v3' ∷ [])
unfolding item_key every_second range_size nth
item_key-third h1 h2 h3 h3' v1 v2 v3 v3' = refl

range_of_two : (params : ℕ) → range_size params (params + 2) ≡ 2
unfolding range_size
range_of_two params = omega arith

nth_past : {W : Type 0} (l : List (Field W)) (n : ℕ) → length l ≤ n → nth l n ≡ none
unfolding nth
nth_past [] n h = refl
nth_past (x ∷ l) zero h = absurd (omega arith)
nth_past (x ∷ l) (suc n) h = nth_past l n (omega arith)

add_none : {W : Type 0} (x : Option (Field W)) → add_field x none ≡ none
unfolding add_field
add_none none = refl
add_none (some x) = refl

second_missing :
    {W : Type 0} (dk : List (Field W)) (start : ℕ)
    → nth dk (start + 2 + 1) ≡ none
    → every_second dk start 2 ≡ none
unfolding every_second
second_missing dk start h = rw h (add_none (nth dk (start + 1)))

not_single : (params : ℕ) → (params + 2 - params == 1) ≡ false
not_single params = ground arith

kept :
    {W : Type 0} (params : ℕ) (dk : List (Field W))
    → length dk ≤ params + 2 + 1
    → item_key params (params + 2) dk ≡ as_decoded dk
unfolding item_key
kept params dk h =
    rw (not_single params) (
      rw (range_of_two params)
        (rw (second_missing dk params (nth_past dk (params + 2 + 1) h)) refl))

-- A map with two keys left gets both, where the query has fixed none; where it has fixed some, it
-- gets the decoded key with its hashes.
pub item_key-pair :
    {W : Type 0} (params : ℕ) (h1 h2 : Bytes) (v1 v2 : W)
    → let dk = hash h1 ∷ value_of v1 ∷ hash h2 ∷ value_of v2 ∷ [] in
      (item_key 0 2 dk ≡ several (value_of v1 ∷ value_of v2 ∷ []))
      × (item_key (params + 1) (params + 1 + 2) dk ≡ as_decoded dk)
unfolding item_key every_second range_size nth
item_key-pair params h1 h2 v1 v2 =
    (refl, kept (params + 1) (hash h1 ∷ value_of v1 ∷ hash h2 ∷ value_of v2 ∷ []) (omega arith))
