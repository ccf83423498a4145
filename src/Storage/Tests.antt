-- ===== src/Storage/Tests.antt =====
-- Storage keys with a small codec, and the theorems on them at concrete inputs.
use async_substrate_interfac.Prelude.{
  ℕ, zero, suc, false, ◌≡◌, refl, ap, Option, none, some, List, [], ◌∷◌, ◌++◌, String, Bool-cases,
  length, drop, take, arith,
}
use async_substrate_interfac.Storage.Hasher.{Bytes}
use async_substrate_interfac.Storage.Key.{
  blake2_128_concat_name, identity_name, StorageFunction, Pallet, ParamValue, plain, raw, text,
  Param, value, ok, Codec, encode_value, convert_storage_parameter, account_text, as_text, is_0x,
  encode_params, generate_in, generate, and_then, raised, no_function,
}
use async_substrate_interfac.Storage.Key.Object.{
  StorageKey, create_from_data, create_from_storage_function, to_hex, decode_scale_value, is_given,
  find_pallet, find_function, value_type_in, value_type_or,
}
use async_substrate_interfac.Storage.Key.Object.Hex.{AreBytes, to_hex-create_from_data}
use async_substrate_interfac.Signing.Hex.{fromhex}
use async_substrate_interfac.Storage.QueryMap.{key_type_string, key_bytes, Field, hash, value_of}
use async_substrate_interfac.Storage.TupleType.{
  Text, IsPart, read_through, join, strip, split_tuple_type, split_tuple_type-join,
}
use async_substrate_interfac.Storage.QueryMap.Decoded.{
  Decoder, ReadsBack, values_at, values_in, decoded-generate_in,
}

zeros : ℕ → Bytes
zeros zero = []
zeros (suc n) = 0 ∷ zeros n

length-zeros : (n : ℕ) → length (zeros n) ≡ n
unfolding zeros
length-zeros zero = refl
length-zeros (suc n) = ap suc (length-zeros n)

-- A value is encoded as one byte.
encode_byte : String → ParamValue ℕ → Option Bytes
encode_byte t (plain n) = some (n ∷ [])
encode_byte t (raw b) = none
encode_byte t (text c) = none

abbrev bytes_codec : Codec
bytes_codec = record {
  V = ℕ;
  hashes = record {
    blake2b = λ b n. zeros n;
    xxh64_digest = λ b seed. zeros 8;
    blake2b_size = λ b n. length-zeros n;
    xxh64_size = λ b seed. length-zeros 8;
  };
  utf8 = λ s. [];
  ss58_decode = λ v. none;
  encode = encode_byte;
}

first_byte : String → Bytes → ℕ
first_byte t [] = 0
first_byte t (v ∷ b) = v

cons_fields : Bytes → Bytes → (Bytes → Option (List (Field ℕ))) → Option (List (Field ℕ))
cons_fields h [] rest = none
cons_fields h (v ∷ b) rest = elim (rest b) [ none ↦ none | some l ↦ some (hash h ∷ value_of v ∷ l) ]

decode_bytes : List (ℕ × String) → Bytes → Option (List (Field ℕ))
unfolding cons_fields
decode_bytes [] [] = some []
decode_bytes [] (v ∷ b) = none
decode_bytes ((n, t) ∷ types) b = cons_fields (take n b) (drop n b) (λ r. decode_bytes types r)

split_at : (n : ℕ) (h b : Bytes) → length h ≡ n → (take n (h ++ b) ≡ h) × (drop n (h ++ b) ≡ b)
split_at zero [] b e = (refl, refl)
split_at zero (x ∷ h) b e = absurd (omega arith)
split_at (suc n) [] b e = absurd (omega arith)
split_at (suc n) (x ∷ h) b e =
    let (front, back) = split_at n h b (omega arith) in (ap (λ l. x ∷ l) front, back)

abbrev IsByte : String → Bytes → Type 0
IsByte t b = (v : ℕ) × (b ≡ v ∷ [])

decode_one :
    (n : ℕ) (t : String) (types : List (ℕ × String)) (h b bs : Bytes) (l : List (Field ℕ))
    → length h ≡ n
    → IsByte t b
    → decode_bytes types bs ≡ some l
    → decode_bytes ((n, t) ∷ types) (h ++ (b ++ bs)) ≡ some (hash h ∷ value_of (first_byte t b) ∷ l)
unfolding decode_bytes cons_fields first_byte
decode_one n t types h b bs l size (v, e) read =
    let (front, back) = split_at n h (b ++ bs) size in rw (front, back, e, read) refl

abbrev bytes_decoder : Decoder
bytes_decoder = record {
  W = ℕ;
  IsEncoding = IsByte;
  decode_value = first_byte;
  decode_tuple = decode_bytes;
  decode_nil = unfold decode_bytes in refl;
  decode_cons = decode_one;
}

abbrev stakes : StorageFunction
stakes = record {
  param_types = "u8" ∷ "u16" ∷ [];
  hashers = identity_name ∷ blake2_128_concat_name ∷ [];
  value_type = "u64";
  modifier = "Optional";
  default_value = 0 ∷ [];
}

abbrev pallet : Pallet
pallet = record { storage_prefix = []; get_storage_function = λ s. some stakes }

abbrev full_key : Bytes
full_key = zeros 32 ++ 5 ∷ zeros 16 ++ 7 ∷ []

abbrev byte : ℕ → Param ℕ
byte n = value (plain n)

abbrev pallets : String → Option Pallet
pallets s = some pallet

-- The value of a parameter that can be encoded.
abbrev number_at : String → ParamValue ℕ → ℕ
number_at t (plain n) = n
number_at t (raw b) = 0
number_at t (text c) = 0

number_bytes :
    (t : String) (n : ℕ) (b : Bytes) → encode_value bytes_codec t (plain n) ≡ ok b → b ≡ n ∷ []
unfolding encode_value convert_storage_parameter account_text as_text is_0x encode_byte
number_bytes t n b e = ground arith

ReadsBack-bytes : ReadsBack bytes_codec bytes_decoder number_at
unfolding encode_value convert_storage_parameter account_text as_text is_0x encode_byte
ReadsBack-bytes t (plain n) b e = rw (number_bytes t n b e) ((n, refl), unfold first_byte in refl)
ReadsBack-bytes t (raw c) b e = ground arith
ReadsBack-bytes t (text c) b e = ground arith

decoded-generate_in_example :
    (prefix : Bytes) × (l : List (Field ℕ)) × (generate_in bytes_codec pallet "Stake" stakes
        (byte 5 ∷ [])
      ≡ ok prefix)
    × (decode_bytes ((16, "u16") ∷ []) (key_bytes prefix full_key) ≡ some l)
    × (values_in l ≡ values_at bytes_codec bytes_decoder number_at ("u16" ∷ []) (plain 7 ∷ []))
unfolding generate_in zeros encode_byte encode_params key_type_string Bool-cases
decoded-generate_in_example =
    decoded-generate_in bytes_codec bytes_decoder number_at pallet "Stake" stakes (byte 5 ∷ [])
      (plain 7 ∷ []) full_key ((16, "u16") ∷ []) ReadsBack-bytes refl refl refl

stake_key : generate bytes_codec pallets "Staking" "Stake" (byte 5 ∷ byte 7 ∷ []) ≡ ok full_key
unfolding generate generate_in zeros encode_byte encode_params Bool-cases
stake_key = refl

full_key-AreBytes : AreBytes full_key
unfolding zeros
full_key-AreBytes = omega arith

-- A key from data, with the names of its storage function, which are not kept.
abbrev from_data : StorageKey bytes_codec
from_data = record {
  pallet = none;
  storage_function = none;
  params = none;
  key_data = some full_key;
  value_scale_type = some "u64";
  metadata_storage_function = none;
}

made_from_data :
    create_from_data bytes_codec pallets full_key none (some "Staking") (some "Stake")
    ≡ ok from_data
unfolding create_from_data value_type_or value_type_in is_given find_pallet find_function and_then
made_from_data = refl

to_hex-create_from_data_example :
    (k : StorageKey bytes_codec) × (t : Text) × (create_from_storage_function bytes_codec pallets
        "Staking" "Stake"
        (byte 5 ∷ byte 7 ∷ [])
      ≡ ok k)
    × (to_hex bytes_codec k ≡ some (48 ∷ 120 ∷ t))
    × (fromhex t ≡ some full_key)
    × (to_hex bytes_codec from_data ≡ to_hex bytes_codec k)
to_hex-create_from_data_example =
    to_hex-create_from_data bytes_codec pallets "Staking" "Stake" (byte 5 ∷ byte 7 ∷ []) full_key
      none (some "Staking") (some "Stake") from_data stake_key full_key-AreBytes made_from_data

-- Without a value, such a key raises, where a key with its storage function decodes the default.
missing_value :
    (decode_scale_value bytes_codec (λ t b. some t) from_data none ≡ raised no_function)
    × (decode_scale_value bytes_codec
          (λ t b. some t)
          (record from_data { metadata_storage_function = some stakes })
          none
        ≡ ok (some "Option<u64>", false))
unfolding decode_scale_value
missing_value = (refl, refl)

-- `A<B,C>`
abbrev generic : List ℕ
generic = 65 ∷ 60 ∷ 66 ∷ 44 ∷ 67 ∷ 62 ∷ []

generic-IsPart : IsPart generic
unfolding read_through
generic-IsPart = (65, 60 ∷ 66 ∷ 44 ∷ 67 ∷ 62 ∷ [], refl, refl)

letter-IsPart : IsPart (68 ∷ [])
unfolding read_through
letter-IsPart = (68, [], refl, refl)

-- `(A<B,C>, D)`
split_run :
    split_tuple_type (40 ∷ 65 ∷ 60 ∷ 66 ∷ 44 ∷ 67 ∷ 62 ∷ 44 ∷ 32 ∷ 68 ∷ 41 ∷ [])
    ≡ generic ∷ (68 ∷ []) ∷ []
unfolding split_tuple_type
split_run = refl

-- The same theorem at `(A<B,C>, D)`.
split_tuple_type-join_example :
    split_tuple_type (40 ∷ join generic ((68 ∷ []) ∷ []) ++ 41 ∷ [])
    ≡ strip generic ∷ strip (68 ∷ []) ∷ []
split_tuple_type-join_example =
    split_tuple_type-join generic ((68 ∷ []) ∷ []) generic-IsPart (letter-IsPart, tt)

open_letter-IsPart : IsPart (40 ∷ 68 ∷ [])
unfolding read_through
open_letter-IsPart = (40, 68 ∷ [], refl, refl)

closed_letter-IsPart : IsPart ((69 ∷ []) ++ 41 ∷ [])
unfolding read_through
closed_letter-IsPart = (69, 41 ∷ [], refl, refl)
