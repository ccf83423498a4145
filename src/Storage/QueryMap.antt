-- ===== src/Storage/QueryMap.antt =====
-- The keys of a query map: `_decode_query_map_pre` and `_decode_query_map_post` of
-- async_substrate_interface/utils/decoding.py. Keys are bytes here, not hexadecimal strings, and
-- the decoder of tuples is a parameter.
pub mod Keys
pub mod Decoded
use async_substrate_interfac.Prelude.{
  ℕ, zero, suc, ◌+◌, ◌-◌, ◌/◌, ◌≡◌, Bool, true, false, Option, none, some, List, [], ◌∷◌, ◌++◌,
  String, length, drop, ◌==◌, if◌then◌else◌,
}
use async_substrate_interfac.Storage.Hasher.{Bytes}
use async_substrate_interfac.Storage.Key.{
  HasherName, blake2_128_concat_name, twox64_concat_name, identity_name,
}

-- How many bytes a hasher puts before the data; `none` is ValueError.
unfoldable pub concat_hash_len : HasherName → Option ℕ
concat_hash_len blake2_128_concat_name = some 16
concat_hash_len twox64_concat_name = some 8
concat_hash_len identity_name = some 0
concat_hash_len _ = none

unfoldable pub add_types :
    Option ℕ → String → Option (List (ℕ × String)) → Option (List (ℕ × String))
add_types none t rest = none
add_types (some n) t none = none
add_types (some n) t (some l) = some ((n, t) ∷ l)

-- The loop over the types that the parameters leave, which gives the types `[u8; n]` and `t` for
-- each; `none` is an exception.
unfoldable pub key_types : List String → List HasherName → Option (List (ℕ × String))
unfolding concat_hash_len add_types
key_types [] hs = some []
key_types (t ∷ ts) [] = none
key_types (t ∷ ts) (h ∷ hs) = add_types (concat_hash_len h) t (key_types ts hs)

-- `range(len(params), len(param_types))`
unfoldable pub key_type_string : List String → List HasherName → ℕ → Option (List (ℕ × String))
unfolding key_types
key_type_string param_types key_hashers params =
    key_types (drop params param_types) (drop params key_hashers)

-- `item[0][len(prefix) :]`
unfoldable pub key_bytes : Bytes → Bytes → Bytes
key_bytes prefix key = drop (length prefix) key

-- An item of a decoded key: the bytes of a hash, or a value.
pub data Field (W : Type 0) : Type 0 where
  hash : Bytes → Field W
  value_of : W → Field W

-- The key of an item: that of a map with one key, a tuple, the decoded key as it is, or none.
pub data ItemKey (W : Type 0) : Type 0 where
  single : Field W → ItemKey W
  several : List (Field W) → ItemKey W
  as_decoded : List (Field W) → ItemKey W
  no_key : ItemKey W

unfoldable pub nth : {W : Type 0} → List (Field W) → ℕ → Option (Field W)
nth [] n = none
nth (x ∷ l) zero = some x
nth (x ∷ l) (suc n) = nth l n

unfoldable pub add_field :
    {W : Type 0} → Option (Field W) → Option (List (Field W)) → Option (List (Field W))
add_field none rest = none
add_field (some x) none = none
add_field (some x) (some l) = some (x ∷ l)

-- `tuple(dk[key + 1] for key in range(start, stop, 2))`, for a range of `count` items.
unfoldable pub every_second : {W : Type 0} → List (Field W) → ℕ → ℕ → Option (List (Field W))
unfolding nth add_field
every_second dk start zero = some []
every_second dk start (suc count) =
    add_field (nth dk (start + 1)) (every_second dk (start + 2) count)

-- How many items `range(params, param_types + 1, 2)` has.
unfoldable pub range_size : ℕ → ℕ → ℕ
range_size params param_types = (param_types + 1 - params + 1) / 2

unfoldable pub item_key : {W : Type 0} → ℕ → ℕ → List (Field W) → ItemKey W
unfolding every_second range_size nth
item_key params param_types dk =
    if param_types - params == 1
    then elim (nth dk 1) [ none ↦ no_key | some x ↦ single x ]
    else elim (every_second dk params (range_size params param_types)) [
      | none ↦ as_decoded dk
      | some l ↦ several l
    ]
