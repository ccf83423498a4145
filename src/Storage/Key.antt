-- ===== src/Storage/Key.antt =====
-- StorageKey of async_substrate_interface/utils/storage.py: `convert_storage_parameter` and
-- `generate`; the object itself is in Object. The metadata and the SCALE codec are parameters.
pub mod Prefix
pub mod Object
use async_substrate_interfac.Prelude.{
  ℕ, ◌+◌, ◌-◌, ◌/◌, ◌%◌, ◌≡◌, refl, Bool, true, false, ◌&&◌, Option, none, some, List, [], ◌∷◌,
  ◌++◌, String, ltb, ◌==◌, if◌then◌else◌,
}
use async_substrate_interfac.Prelude.Strings.{String-discrete}
use async_substrate_interfac.Storage.Hasher.{
  Bytes, Hashes, blake2_256, blake2_128, blake2_128_concat, xxh128, two_x64_concat, identity,
}

pub data HasherName : Type 0 where
  blake2_256_name blake2_128_name blake2_128_concat_name twox128_name twox64_concat_name
        identity_name no_name other_name :
      HasherName

pub record StorageFunction : Type 0 where
  pub param_types : List String
  pub hashers : List HasherName
  pub value_type : String
  pub modifier : String
  pub default_value : Bytes

pub record Pallet : Type 0 where
  pub storage_prefix : Bytes
  pub get_storage_function : String → Option StorageFunction

-- A Python value: bytes, a string as its code points, or another.
pub data ParamValue (V : Type 0) : Type 0 where
  raw : Bytes → ParamValue V
  text : List ℕ → ParamValue V
  plain : V → ParamValue V

-- A parameter of a storage function: encoded already (ScaleBytes), or a value.
pub data Param (V : Type 0) : Type 0 where
  scale_bytes : Bytes → Param V
  value : ParamValue V → Param V

-- What the methods raise, by the statement that raises it.
pub data Raised : Type 0 where
  pallet_not_found storage_function_not_found no_param_type not_encoded no_hasher unknown_hasher
        no_function not_decoded :
      Raised

pub data Result (A : Type 0) : Type 0 where
  ok : A → Result A
  raised : Raised → Result A

unfoldable pub and_then : {A B : Type 0} → Result A → (A → Result B) → Result B
and_then (ok a) f = f a
and_then (raised e) f = raised e

-- What the storage keys do not define: `None` is an exception of the codec.
pub record Codec : Type 1 where
  pub V : Type 0
  pub hashes : Hashes
  pub utf8 : String → Bytes
  pub ss58_decode : ParamValue V → Option (List ℕ)
  pub encode : String → ParamValue V → Option Bytes

-- A digit of `bytes.hex()`.
unfoldable pub hex_digit : ℕ → ℕ
hex_digit d = if ltb d 10 then d + 48 else d + 87

unfoldable pub hex : Bytes → List ℕ
unfolding hex_digit
hex [] = []
hex (b ∷ l) = hex_digit (b / 16) ∷ hex_digit (b % 16) ∷ hex l

-- `value[0:2] == "0x"`
unfoldable pub is_0x : {V : Type 0} → ParamValue V → Bool
is_0x (text (a ∷ b ∷ t)) = (a == 48) && (b == 120)
is_0x _ = false

unfoldable pub as_text : {V : Type 0} → ParamValue V → ParamValue V
unfolding hex
as_text (raw b) = text (48 ∷ 120 ∷ hex b)
as_text v = v

unfoldable pub tail : {A : Type 0} → List A → List A
tail [] = []
tail (x ∷ l) = l

module _ (K : Codec) where
  open K use {V, hashes, utf8, ss58_decode, encode}

  unfoldable pub account_text : ParamValue V → Option (ParamValue V)
  unfolding is_0x
  account_text v =
      if is_0x v
      then some v
      else elim (ss58_decode v) [ none ↦ none | some t ↦ some (text (48 ∷ 120 ∷ t)) ]

  unfoldable pub convert_storage_parameter : String → ParamValue V → Option (ParamValue V)
  unfolding account_text as_text String-discrete
  convert_storage_parameter scale_type v = elim (String-discrete scale_type "AccountId") [
    | yes p ↦ account_text (as_text v)
    | no n ↦ some (as_text v)
  ]

  unfoldable pub encode_value : String → ParamValue V → Result Bytes
  unfolding convert_storage_parameter
  encode_value scale_type v = elim (convert_storage_parameter scale_type v) [
    | none ↦ raised not_encoded
    | some v' ↦ elim (encode scale_type v') [ none ↦ raised not_encoded | some b ↦ ok b ]
  ]

  unfoldable pub encode_param : List String → Param V → Result Bytes
  unfolding encode_value
  encode_param types (scale_bytes b) = ok b
  encode_param [] (value v) = raised no_param_type
  encode_param (t ∷ types) (value v) = encode_value t v

  -- The first loop, over the parameters and what is left of their types.
  unfoldable pub encode_params : List String → List (Param V) → Result (List Bytes)
  unfolding encode_param and_then tail
  encode_params types [] = ok []
  encode_params types (p ∷ ps) =
      and_then (encode_param types p)
        (λ b. and_then (encode_params (tail types) ps) (λ l. ok (b ∷ l)))

  unfoldable pub hash_param : HasherName → Bytes → Result Bytes
  unfolding blake2_256 blake2_128 blake2_128_concat xxh128 two_x64_concat identity
  hash_param blake2_256_name b = ok (blake2_256 hashes b)
  hash_param blake2_128_name b = ok (blake2_128 hashes b)
  hash_param blake2_128_concat_name b = ok (blake2_128_concat hashes b)
  hash_param twox128_name b = ok (xxh128 hashes b)
  hash_param no_name b = ok (xxh128 hashes b)
  hash_param twox64_concat_name b = ok (two_x64_concat hashes b)
  hash_param identity_name b = ok (identity hashes b)
  hash_param other_name b = raised unknown_hasher

  -- The second loop, from what has been hashed so far.
  unfoldable pub hash_params : Bytes → List HasherName → List Bytes → Result Bytes
  unfolding hash_param and_then
  hash_params hashed hs [] = ok hashed
  hash_params hashed [] (b ∷ l) = raised no_hasher
  hash_params hashed (h ∷ hs) (b ∷ l) =
      and_then (hash_param h b) (λ k. hash_params (hashed ++ k) hs l)

  unfoldable pub generate_in : Pallet → String → StorageFunction → List (Param V) → Result Bytes
  unfolding hash_params encode_params and_then xxh128
  generate_in pallet name f params = and_then (encode_params f.param_types params) (λ encoded.
      hash_params (xxh128 hashes pallet.storage_prefix ++ xxh128 hashes (utf8 name)) f.hashers
        encoded)

  -- `generate`, with `get_metadata_pallet` of the metadata.
  unfoldable pub generate :
      (String → Option Pallet) → String → String → List (Param V) → Result Bytes
  unfolding generate_in
  generate get_metadata_pallet pallet_name name params = elim (get_metadata_pallet pallet_name) [
    | none ↦ raised pallet_not_found
    | some pallet ↦ elim (pallet.get_storage_function name) [
      | none ↦ raised storage_function_not_found
      | some f ↦ generate_in pallet name f params
    ]
  ]
