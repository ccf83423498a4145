-- ===== src/Storage/QueryMap/Decoded.antt =====
-- From the parameters of a storage key to the values in its decoded key.
use async_substrate_interfac.Prelude.{
  ℕ, ◌≡◌, refl, sym, ap, ◌∙◌, Option, none, some, List, [], ◌∷◌, ◌++◌, String, length, drop, arith,
  map,
}
use async_substrate_interfac.Storage.Hasher.{Bytes}
use async_substrate_interfac.Storage.Key.{
  HasherName, StorageFunction, Pallet, ParamValue, Param, value, ok, Codec, encode_value,
  encode_param, encode_params, hash_param, hash_params, generate_in,
}
use async_substrate_interfac.Storage.Key.Prefix.{
  and_then-ok, append_assoc, hash_params-from, generate_in-append,
}
use async_substrate_interfac.Storage.QueryMap.{
  concat_hash_len, add_types, key_types, key_type_string, key_bytes, Field, hash, value_of,
}
use async_substrate_interfac.Storage.QueryMap.Keys.{hash_param-concat_hash_len}

-- The decoder of the types `([u8; n], t, ...)`: at each pair of types it takes `n` bytes, and reads a
-- value of `t` from an encoding of one, which says itself where it ends.
pub record Decoder : Type 1 where
  pub W : Type 0
  pub IsEncoding : String → Bytes → Type 0
  pub decode_value : String → Bytes → W
  pub decode_tuple : List (ℕ × String) → Bytes → Option (List (Field W))
  pub decode_nil : decode_tuple [] [] ≡ some []
  pub decode_cons :
      (n : ℕ) (t : String) (types : List (ℕ × String)) (h b bs : Bytes) (l : List (Field W))
      → length h ≡ n
      → IsEncoding t b
      → decode_tuple types bs ≡ some l
      → decode_tuple ((n, t) ∷ types) (h ++ (b ++ bs))
        ≡ some (hash h ∷ value_of (decode_value t b) ∷ l)

-- The values of a decoded key, without the hashes.
pub values_in : {W : Type 0} → List (Field W) → List W
values_in [] = []
values_in (hash h ∷ l) = values_in l
values_in (value_of v ∷ l) = v ∷ values_in l

drop_prefix : (p s : Bytes) → key_bytes p (p ++ s) ≡ s
unfolding key_bytes
drop_prefix [] s = refl
drop_prefix (b ∷ p) s = drop_prefix p s

add_types-some :
    (o : Option ℕ) (t : String) (rest : Option (List (ℕ × String))) (l : List (ℕ × String))
    → add_types o t rest ≡ some l
    → (n : ℕ) × (l' : List (ℕ × String)) × (o ≡ some n) × (rest ≡ some l') × (l ≡ (n, t) ∷ l')
unfolding add_types
add_types-some none t rest l e = absurd (cc e)
add_types-some (some n) t none l e = absurd (cc e)
add_types-some (some n) t (some l') l e = (n, l', refl, refl, ground arith)

same : (a b : Bytes) → ok a ≡ ok b → b ≡ a
same a b e = cc e

module _ (K : Codec) (D : Decoder) where
  open D use {W, IsEncoding, decode_value, decode_tuple, decode_nil, decode_cons}

  -- The bytes are encodings of values of the types, one for each.
  unfoldable pub AllEncode : List String → List Bytes → Type 0
  AllEncode [] [] = Unit
  AllEncode [] (b ∷ bs) = ⊥
  AllEncode (t ∷ ts) [] = ⊥
  AllEncode (t ∷ ts) (b ∷ bs) = IsEncoding t b × AllEncode ts bs

  pub decode_all : List String → List Bytes → List W
  decode_all [] bs = []
  decode_all (t ∷ ts) [] = []
  decode_all (t ∷ ts) (b ∷ bs) = decode_value t b ∷ decode_all ts bs

  decoded-hash_params :
      (ts : List String) (hs : List HasherName) (bs : List Bytes) (layout : List (ℕ × String))
      (s : Bytes)
      → key_types ts hs ≡ some layout
      → AllEncode ts bs
      → hash_params K [] hs bs ≡ ok s
      → (l : List (Field W)) × (decode_tuple layout s ≡ some l) × (values_in l ≡ decode_all ts bs)
  unfolding key_types AllEncode hash_params values_in decode_all
  decoded-hash_params [] hs [] layout s e a k =
      let no_types : layout ≡ [] = cc e in
      let no_bytes : s ≡ [] = cc k in ([], rw (no_types, no_bytes) decode_nil, refl)
  decoded-hash_params [] hs (b ∷ bs) layout s e a k = absurd a
  decoded-hash_params (t ∷ ts) hs [] layout s e a k = absurd a
  decoded-hash_params (t ∷ ts) [] (b ∷ bs) layout s e a k = absurd (cc e)
  decoded-hash_params (t ∷ ts) (h ∷ hs) (b ∷ bs) layout s e (encodes, rest_encode) k =
      let (n, l', size, rest, layout_is) =
        add_types-some (concat_hash_len h) t (key_types ts hs) layout e in
      let (p, hashed, length_p) = hash_param-concat_hash_len K h n b size in
      let (k1, hashed', later) = and_then-ok (hash_param K h b) _ s k in
      let (s', rest_hashed, whole) = hash_params-from K k1 hs bs s later in
      let (l, read, values) = decoded-hash_params ts hs bs l' s' rest rest_encode rest_hashed in
      let s_is : s ≡ p ++ (b ++ s') =
        whole ∙ ap (λ x. x ++ s') (same (p ++ b) k1 (sym hashed ∙ hashed')) ∙ append_assoc p b s' in
      (
        hash p ∷ value_of (decode_value t b) ∷ l,
        rw (layout_is, s_is) (decode_cons n t l' p b s' l length_p encodes read),
        ap (λ v. decode_value t b ∷ v) values,
      )

  -- What is after the prefix of the first parameters, in the key with all of them, decodes to what
  -- the decoder reads in the encodings of the others.
  decoded-encodings :
      (pallet : Pallet) (name : String) (f : StorageFunction) (xs ys : List (Param K.V))
      (key : Bytes) (layout : List (ℕ × String))
      → generate_in K pallet name f (xs ++ ys) ≡ ok key
      → key_type_string f.param_types f.hashers (length xs) ≡ some layout
      → ((bs : List Bytes)
          → encode_params K (drop (length xs) f.param_types) ys ≡ ok bs
          → AllEncode (drop (length xs) f.param_types) bs)
      → (prefix : Bytes) × (bs : List Bytes) × (l : List (Field W)) × (generate_in K pallet name f
            xs
          ≡ ok prefix)
        × (encode_params K (drop (length xs) f.param_types) ys ≡ ok bs)
        × (decode_tuple layout (key_bytes prefix key) ≡ some l)
        × (values_in l ≡ decode_all (drop (length xs) f.param_types) bs)
  unfolding key_type_string
  decoded-encodings pallet name f xs ys key layout e types encodings =
      let (p, s, bs, first, encoded, hashed, whole) =
        generate_in-append K pallet name f xs ys key e in
      let (l, read, values) =
        decoded-hash_params (drop (length xs) f.param_types) (drop (length xs) f.hashers) bs layout
          s types (encodings bs encoded) hashed in
      (p, bs, l, first, encoded, rw (whole, drop_prefix p s) read, values)

  -- The codec reads back what it encodes: the encoding of a parameter, at a type, is read as its
  -- value, which `value_at` is.
  abbrev pub ReadsBack : (String → ParamValue K.V → W) → Type 0
  ReadsBack value_at =
      (t : String) (v : ParamValue K.V) (b : Bytes)
      → encode_value K t v ≡ ok b
      → IsEncoding t b × (decode_value t b ≡ value_at t v)

  -- The values of parameters, each at its type.
  pub values_at : (String → ParamValue K.V → W) → List String → List (ParamValue K.V) → List W
  values_at value_at [] vs = []
  values_at value_at (t ∷ ts) [] = []
  values_at value_at (t ∷ ts) (v ∷ vs) = value_at t v ∷ values_at value_at ts vs

  read_all :
      (value_at : String → ParamValue K.V → W) (ts : List String) (vs : List (ParamValue K.V))
      (bs : List Bytes)
      → ReadsBack value_at
      → length vs ≡ length ts
      → encode_params K ts (map value vs) ≡ ok bs
      → AllEncode ts bs × (decode_all ts bs ≡ values_at value_at ts vs)
  unfolding encode_params encode_param AllEncode decode_all values_at
  read_all value_at [] [] bs back size e = let none_left : bs ≡ [] = cc e in rw none_left (tt, refl)
  read_all value_at [] (v ∷ vs) bs back size e = absurd (omega (arith, size))
  read_all value_at (t ∷ ts) [] bs back size e = absurd (omega (arith, size))
  read_all value_at (t ∷ ts) (v ∷ vs) bs back size e =
      let (b, one, later) = and_then-ok (encode_value K t v) _ bs e in
      let (l, more, last) = and_then-ok (encode_params K ts (map value vs)) _ bs later in
      let whole : bs ≡ b ∷ l = cc last in
      let (is_encoding, read) = back t v b one in
      let (rest, values) = read_all value_at ts vs l back (omega (arith, size)) more in
      rw whole ((is_encoding, rest), rw (read, values) refl)

  -- What follows, in the key of a storage function with all its parameters, the key for the first of
  -- them decodes, at the types that `_decode_query_map_pre` lays out for the hashers left, to the
  -- values of the others, which are not encoded beforehand, where the codec reads back what it
  -- encodes.
  pub decoded-generate_in :
      (value_at : String → ParamValue K.V → W) (pallet : Pallet) (name : String)
      (f : StorageFunction) (xs : List (Param K.V)) (vs : List (ParamValue K.V)) (key : Bytes)
      (layout : List (ℕ × String))
      → ReadsBack value_at
      → generate_in K pallet name f (xs ++ map value vs) ≡ ok key
      → length vs ≡ length (drop (length xs) f.param_types)
      → key_type_string f.param_types f.hashers (length xs) ≡ some layout
      → (prefix : Bytes) × (l : List (Field W)) × (generate_in K pallet name f xs ≡ ok prefix)
        × (decode_tuple layout (key_bytes prefix key) ≡ some l)
        × (values_in l ≡ values_at value_at (drop (length xs) f.param_types) vs)
  decoded-generate_in value_at pallet name f xs vs key layout back e size types =
      let ts = drop (length xs) f.param_types in
      let (p, bs, l, first, encoded, read, values) =
        decoded-encodings pallet name f xs (map value vs) key layout e types
          (λ bs encoded. (read_all value_at ts vs bs back size encoded).0) in
      (p, l, first, read, values ∙ (read_all value_at ts vs bs back size encoded).1)
