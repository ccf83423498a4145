-- ===== src/Storage/Key/Prefix.antt =====
-- The key of a storage function with some of its parameters is a prefix of the key with all.
use async_substrate_interfac.Prelude.{
  ℕ, zero, suc, ◌≡◌, refl, sym, ap, ◌∙◌, Option, List, [], ◌∷◌, ◌++◌, String, arith, length, drop,
  Option-cases, inl, inr,
}
use async_substrate_interfac.Storage.Hasher.{Bytes, xxh128}
use async_substrate_interfac.Storage.Key.{
  HasherName, StorageFunction, Pallet, Param, Result, ok, raised, and_then, Codec, encode_param,
  encode_params, hash_param, hash_params, tail, generate_in, generate,
}

pub append_assoc : {A : Type 0} (xs ys zs : List A) → (xs ++ ys) ++ zs ≡ xs ++ (ys ++ zs)
append_assoc [] ys zs = refl
append_assoc (x ∷ xs) ys zs = ap (λ l. x ∷ l) (append_assoc xs ys zs)

pub append_nil : {A : Type 0} (xs : List A) → xs ++ [] ≡ xs
append_nil [] = refl
append_nil (x ∷ xs) = ap (λ l. x ∷ l) (append_nil xs)

pub and_then-ok :
    {A B : Type 0} (r : Result A) (f : A → Result B) (b : B)
    → and_then r f ≡ ok b
    → (a : A) × (r ≡ ok a) × (f a ≡ ok b)
unfolding and_then
and_then-ok (ok a) f b e = (a, refl, e)
and_then-ok (raised x) f b e = absurd (cc e)

listed_bytes : (l bs : Bytes) → ok l ≡ ok bs → l ≡ bs
listed_bytes l bs e = cc e

drop-tail : {A : Type 0} (n : ℕ) (l : List A) → drop (suc n) l ≡ drop n (tail l)
unfolding tail
drop-tail zero [] = refl
drop-tail (suc n) [] = refl
drop-tail n (x ∷ l) = refl

module _ (K : Codec) where
  open K use {V, hashes, utf8}

  -- What stands before all that is hashed stays before it.
  shifted :
      (pre mid : Bytes) (hs : List HasherName) (bs : List Bytes) (s : Bytes)
      → hash_params K mid hs bs ≡ ok s
      → hash_params K (pre ++ mid) hs bs ≡ ok (pre ++ s)
  unfolding hash_params
  shifted pre mid hs [] s e = ap (λ t. ok (pre ++ t)) (listed_bytes mid s e)
  shifted pre mid [] (b ∷ bs) s e = absurd (cc e)
  shifted pre mid (h ∷ hs) (b ∷ bs) s e =
      let (k, hashed, later) = and_then-ok (hash_param K h b) _ s e in
      let rest = shifted pre (mid ++ k) hs bs s later in
      rw hashed (unfold and_then in ap (λ t. hash_params K t hs bs) (append_assoc pre mid k) ∙ rest)

  joined :
      (pre : Bytes) (hs : List HasherName) (bs : List Bytes) (s : Bytes)
      → hash_params K [] hs bs ≡ ok s
      → hash_params K pre hs bs ≡ ok (pre ++ s)
  joined pre hs bs s e =
      ap (λ t. hash_params K t hs bs) (sym (append_nil pre)) ∙ shifted pre [] hs bs s e

  -- What is hashed later does not depend on what was hashed before.
  pub hash_params-from :
      (pre : Bytes) (hs : List HasherName) (bs : List Bytes) (key : Bytes)
      → hash_params K pre hs bs ≡ ok key
      → (s : Bytes) × (hash_params K [] hs bs ≡ ok s) × (key ≡ pre ++ s)
  unfolding hash_params
  hash_params-from pre hs [] key e = ([], refl, ground (arith, append_nil pre))
  hash_params-from pre [] (b ∷ bs) key e = absurd (cc e)
  hash_params-from pre (h ∷ hs) (b ∷ bs) key e =
      let (k, hashed, later) = and_then-ok (hash_param K h b) _ key e in
      let (s, rest, whole) = hash_params-from (pre ++ k) hs bs key later in
      (k ++ s, rw hashed (unfold and_then in joined k hs bs s rest), whole ∙ append_assoc pre k s)

  hash_params-append :
      (pre : Bytes) (hs : List HasherName) (b1 b2 : List Bytes) (key : Bytes)
      → hash_params K pre hs (b1 ++ b2) ≡ ok key
      → (p : Bytes) × (s : Bytes) × (hash_params K pre hs b1 ≡ ok p)
        × (hash_params K [] (drop (length b1) hs) b2 ≡ ok s)
        × (key ≡ p ++ s)
  unfolding hash_params
  hash_params-append pre hs [] b2 key e =
      let (s, rest, whole) = hash_params-from pre hs b2 key e in (pre, s, refl, rest, whole)
  hash_params-append pre [] (b ∷ b1) b2 key e = absurd (cc e)
  hash_params-append pre (h ∷ hs) (b ∷ b1) b2 key e =
      let (k, hashed, later) = and_then-ok (hash_param K h b) _ key e in
      let (p, s, first, rest, whole) = hash_params-append (pre ++ k) hs b1 b2 key later in
      (p, s, rw hashed (unfold and_then in first), rest, whole)

  listed : (b : Bytes) (l bs : List Bytes) → ok (b ∷ l) ≡ ok bs → bs ≡ b ∷ l
  listed b l bs e = cc e

  encode_params-append :
      (types : List String) (xs ys : List (Param V)) (bs : List Bytes)
      → encode_params K types (xs ++ ys) ≡ ok bs
      → (b1 : List Bytes) × (b2 : List Bytes) × (encode_params K types xs ≡ ok b1)
        × (encode_params K (drop (length xs) types) ys ≡ ok b2)
        × (length b1 ≡ length xs)
        × (bs ≡ b1 ++ b2)
  unfolding encode_params
  encode_params-append types [] ys bs e = ([], bs, refl, e, refl, refl)
  encode_params-append types (x ∷ xs) ys bs e =
      let (b, one, later) = and_then-ok (encode_param K types x) _ bs e in
      let (l, more, last) = and_then-ok (encode_params K (tail types) (xs ++ ys)) _ bs later in
      let (b1, b2, first, second, size, whole) = encode_params-append (tail types) xs ys l more in
      (
        b ∷ b1,
        b2,
        rw one (unfold and_then in rw first refl),
        ap (λ ts. encode_params K ts ys) (drop-tail (length xs) types) ∙ second,
        ap suc size,
        listed b l bs last ∙ ap (λ t. b ∷ t) whole,
      )

  pub generate_in-append :
      (pallet : Pallet) (name : String) (f : StorageFunction) (xs ys : List (Param V)) (key : Bytes)
      → generate_in K pallet name f (xs ++ ys) ≡ ok key
      → (p : Bytes) × (s : Bytes) × (bs : List Bytes) × (generate_in K pallet name f xs ≡ ok p)
        × (encode_params K (drop (length xs) f.param_types) ys ≡ ok bs)
        × (hash_params K [] (drop (length xs) f.hashers) bs ≡ ok s)
        × (key ≡ p ++ s)
  unfolding generate_in
  generate_in-append pallet name f xs ys key e =
      let (bs, encoded, hashed) = and_then-ok (encode_params K f.param_types (xs ++ ys)) _ key e in
      let (b1, b2, first, second, size, whole) =
        encode_params-append f.param_types xs ys bs encoded in
      let start = xxh128 hashes pallet.storage_prefix ++ xxh128 hashes (utf8 name) in
      let (p, s, one, two, key_is) =
        hash_params-append start f.hashers b1 b2 key
          (ap (hash_params K start f.hashers) (sym whole) ∙ hashed) in
      (
        p,
        s,
        b2,
        rw first (unfold and_then in one),
        second,
        ap (λ n. hash_params K [] (drop n f.hashers) b2) (sym size) ∙ two,
        key_is,
      )

  -- The key of a storage function with more parameters starts with its key for the first of them:
  -- where the key with all is generated, so is that with the first.
  pub generate-append :
      (get_metadata_pallet : String → Option Pallet) (pallet_name name : String)
      (xs ys : List (Param V)) (key : Bytes)
      → generate K get_metadata_pallet pallet_name name (xs ++ ys) ≡ ok key
      → (p : Bytes) × (s : Bytes) × (generate K get_metadata_pallet pallet_name name xs ≡ ok p)
        × (key ≡ p ++ s)
  unfolding generate
  generate-append m pallet_name name xs ys key e = elim (Option-cases (m pallet_name)) [
    | inl missing ↦ absurd (cc (rw (missing, generate) at e))
    | inr (pallet, found) ↦ elim (Option-cases (pallet.get_storage_function name)) [
      | inl missing ↦ absurd (cc (rw (found, generate, missing) at e))
      | inr (f, there) ↦
          let (p, stem, _, first, _, _, whole) =
            generate_in-append pallet name f xs ys key (rw (found, generate, there) at e) in
          (p, stem, rw (found, generate, there) first, whole)
    ]
  ]
