-- ===== src/Storage/Key/Object/Hex.antt =====
-- The text of a storage key that is sent to the node (class StorageKey of
-- async_substrate_interface/utils/storage.py).
use async_substrate_interfac.Prelude.{
  ℕ, ◌/◌, ◌%◌, ◌≡◌, ◌≤◌, ◌<◌, refl, ap, ◌∙◌, sym, false, Option, none, some, List, [], ◌∷◌, ◌++◌,
  String, arith, length, length-append, All, Option-cases, inl, inr,
}
use async_substrate_interfac.Storage.Hasher.{Bytes, xxh128, length-xxh128}
use async_substrate_interfac.Storage.TupleType.{Text, is_space}
use async_substrate_interfac.Storage.Key.{
  StorageFunction, Pallet, Param, Result, ok, raised, Codec, hex_digit, hex, and_then,
  encode_params, generate_in, generate,
}
use async_substrate_interfac.Storage.Key.Prefix.{and_then-ok, hash_params-from}
use async_substrate_interfac.Storage.Key.Object.{
  StorageKey, create_from_data, create_from_storage_function, to_hex, value_type_or, generate_key,
  find_pallet, find_function, generate_with, params_or_none,
}
use async_substrate_interfac.Signing.Hex.{digit_of, pair_of, fromhex}

abbrev pub AreBytes : Bytes → Type 0
AreBytes = All (λ b. b < 256)

digit_of-hex_digit : (d : ℕ) → d < 16 → digit_of (hex_digit d) ≡ some d
unfolding digit_of hex_digit
digit_of-hex_digit d h = ground arith

hex_digit-visible : (d : ℕ) → d < 16 → is_space (hex_digit d) ≡ false
unfolding is_space hex_digit
hex_digit-visible d h = ground arith

fromhex-hex : (bs : Bytes) → AreBytes bs → fromhex (hex bs) ≡ some bs
unfolding fromhex hex pair_of
fromhex-hex [] h = refl
fromhex-hex (b ∷ bs) h =
    let high : b / 16 < 16 = omega (arith, h.0) in
    let low : b % 16 < 16 = omega arith in
    rw
      (
        hex_digit-visible (b / 16) high,
        pair_of,
        digit_of-hex_digit (b / 16) high,
        digit_of-hex_digit (b % 16) low,
        fromhex-hex bs h.1,
      )
      (ap (λ n. some (n ∷ bs)) (omega arith))

module _ (K : Codec) where
  open K use {V, hashes, utf8}

  -- A key begins with two hashes of 16 bytes.
  generate_in-long :
      (pallet : Pallet) (name : String) (f : StorageFunction) (params : List (Param V)) (d : Bytes)
      → generate_in K pallet name f params ≡ ok d
      → 32 ≤ length d
  unfolding generate_in
  generate_in-long pallet name f params d e =
      let (bs, encoded, hashed) = and_then-ok (encode_params K f.param_types params) _ d e in
      let a = xxh128 hashes pallet.storage_prefix in
      let b = xxh128 hashes (utf8 name) in
      let (s, rest, whole) = hash_params-from K (a ++ b) f.hashers bs d hashed in
      omega (
        arith,
        ap length whole,
        length-append (a ++ b) s,
        length-append a b,
        length-xxh128 hashes pallet.storage_prefix,
        length-xxh128 hashes (utf8 name),
      )

  -- A key that is generated is that of a storage function of a pallet.
  generate-found :
      (get_metadata_pallet : String → Option Pallet) (pallet name : String)
      (params : List (Param V)) (d : Bytes)
      → generate K get_metadata_pallet pallet name params ≡ ok d
      → (p : Pallet) × (f : StorageFunction) × (get_metadata_pallet pallet ≡ some p)
        × (p.get_storage_function name ≡ some f)
        × (generate_in K p name f params ≡ ok d)
  unfolding generate
  generate-found get_metadata_pallet pallet name params d e =
      elim (Option-cases (get_metadata_pallet pallet)) [
        | inl missing ↦ absurd (cc (rw (generate, missing) at e))
        | inr (p, there) ↦ elim (Option-cases (p.get_storage_function name)) [
          | inl missing ↦ absurd (cc (rw (generate, there, missing) at e))
          | inr (f, found) ↦ (p, f, there, found, rw (generate, there, found) at e)
        ]
      ]

  created-with :
      (get_metadata_pallet : String → Option Pallet) (pallet name : String)
      (params : List (Param V)) (d : Bytes) (p : Pallet) (f : StorageFunction)
      → get_metadata_pallet pallet ≡ some p
      → p.get_storage_function name ≡ some f
      → generate_in K p name f params ≡ ok d
      → create_from_storage_function K get_metadata_pallet pallet name params
        ≡ ok (record {
          pallet = some pallet;
          storage_function = some name;
          params = some params;
          key_data = some d;
          value_scale_type = some f.value_type;
          metadata_storage_function = some f;
        })
  unfolding create_from_storage_function generate_key find_pallet find_function generate_with
      params_or_none and_then
  created-with get_metadata_pallet pallet name params d p f there found made =
      rw
        (
          create_from_storage_function, generate_key, find_pallet, there, find_function, found,
          generate_with, made,
        )
        refl

  -- What `generate` returns is the data of the key that is created.
  create-generate :
      (get_metadata_pallet : String → Option Pallet) (pallet name : String)
      (params : List (Param V)) (d : Bytes)
      → generate K get_metadata_pallet pallet name params ≡ ok d
      → (k : StorageKey K) × (create_from_storage_function K get_metadata_pallet pallet name params
          ≡ ok k)
        × (k.key_data ≡ some d)
        × (32 ≤ length d)
  create-generate get_metadata_pallet pallet name params d e =
      let (p, f, there, found, made) = generate-found get_metadata_pallet pallet name params d e in
      (
        _,
        created-with get_metadata_pallet pallet name params d p f there found made,
        refl,
        generate_in-long p name f params d made,
      )

  data_of : Result (StorageKey K) → Option Bytes
  data_of (ok k) = k.key_data
  data_of (raised e) = none

  create_from_data-key_data :
      (get_metadata_pallet : String → Option Pallet) (d : Bytes) (v p n : Option String)
      (k : StorageKey K)
      → create_from_data K get_metadata_pallet d v p n ≡ ok k
      → k.key_data ≡ some d
  unfolding create_from_data data_of
  create_from_data-key_data get_metadata_pallet d v p n k e =
      let (t, typed, made) = and_then-ok (value_type_or get_metadata_pallet v p n) _ k e in
      sym (ap data_of made)

  to_hex-hex :
      (k : StorageKey K) (d : Bytes)
      → k.key_data ≡ some d
      → 32 ≤ length d
      → to_hex K k ≡ some (48 ∷ 120 ∷ hex d)
  unfolding to_hex
  to_hex-hex k [] e long = absurd (omega (arith, long))
  to_hex-hex k (b ∷ d) e long = rw e refl

  -- Of the key that `create_from_storage_function` makes, `to_hex` is `0x` and digits from which
  -- `bytes.fromhex` reads what `generate` returns, if that is bytes; and a key that `create_from_data`
  -- makes of this, whatever else it is given, has the same text.
  pub to_hex-create_from_data :
      (get_metadata_pallet : String → Option Pallet) (pallet name : String)
      (params : List (Param V)) (d : Bytes) (v p n : Option String) (k' : StorageKey K)
      → generate K get_metadata_pallet pallet name params ≡ ok d
      → AreBytes d
      → create_from_data K get_metadata_pallet d v p n ≡ ok k'
      → (k : StorageKey K) × (t : Text) × (create_from_storage_function K get_metadata_pallet pallet
            name params
          ≡ ok k)
        × (to_hex K k ≡ some (48 ∷ 120 ∷ t))
        × (fromhex t ≡ some d)
        × (to_hex K k' ≡ to_hex K k)
  to_hex-create_from_data get_metadata_pallet pallet name params d v p n k' e bytes made' =
      let (k, made, is_data, long) = create-generate get_metadata_pallet pallet name params d e in
      let same = create_from_data-key_data get_metadata_pallet d v p n k' made' in
      let shown = to_hex-hex k d is_data long in
      (k, hex d, made, shown, fromhex-hex d bytes, to_hex-hex k' d same long ∙ sym shown)
