-- ===== src/Scale/Accounts.antt =====
-- Lists of accounts in SCALE bytes (async_substrate_interface/types.py).
use async_substrate_interfac.Prelude.{
  ℕ, zero, suc, ◌*◌, ◌/◌, ◌<◌, ◌≤◌, ◌≡◌, refl, ap, ◌∙◌, String, true, false, List, [], ◌∷◌, ◌++◌,
  length, length-append, take, drop, map, All, arith, inl, inr,
}
use async_substrate_interfac.Scale.{
  Bytes, Item, sequence, Codec, Runtime, type_id, scale_info, encode_account_id, append_to,
  encode_accounts, encode_items, encode_vec, encode_typed, encode_scale,
}
use async_substrate_interfac.Prelude.Entries.{length-map}
use text.Mathlib.Text.{◌==◌ as str_eq}

-- The accounts in a list's bytes, each of 32 bytes.
unfoldable pub read_accounts : ℕ → Bytes → List Bytes
read_accounts zero bs = []
read_accounts (suc n) bs = take 32 bs ∷ read_accounts n (drop 32 bs)

-- The compact length of up to 63 items is the first byte shifted back by two bits.
unfoldable pub decode_accounts : Bytes → List Bytes
unfolding read_accounts
decode_accounts [] = []
decode_accounts (b ∷ bs) = read_accounts (b / 4) bs

take_of : {A : Type 0} (n : ℕ) (xs ys : List A) → length xs ≡ n → take n (xs ++ ys) ≡ xs
take_of zero [] ys h = refl
take_of zero (x ∷ xs) ys h = absurd (omega (arith, h))
take_of (suc n) [] ys h = absurd (omega (arith, h))
take_of (suc n) (x ∷ xs) ys h = ap (λ l. x ∷ l) (take_of n xs ys (omega (arith, h)))

drop_of : {A : Type 0} (n : ℕ) (xs ys : List A) → length xs ≡ n → drop n (xs ++ ys) ≡ ys
drop_of zero [] ys h = refl
drop_of zero (x ∷ xs) ys h = absurd (omega (arith, h))
drop_of (suc n) [] ys h = absurd (omega (arith, h))
drop_of (suc n) (x ∷ xs) ys h = drop_of n xs ys (omega (arith, h))

module _ (C : Codec) where
  open C use {Other, Error}

  -- Accounts, each with its 32 bytes.
  abbrev pub AreAccounts : List (Item Other × Bytes) → Type 0
  AreAccounts = All (λ p. (encode_account_id C p.0 ≡ inr p.1) × (length p.1 ≡ 32))

  encode_accounts_lem :
      (l : List (Item Other × Bytes))
      → AreAccounts l
      → (bs : Bytes) × (encode_accounts C (map (λ p. p.0) l) ≡ inr bs)
        × (length bs ≡ 32 * length l)
        × (read_accounts (length l) bs ≡ map (λ p. p.1) l)
  unfolding encode_accounts append_to read_accounts
  encode_accounts_lem [] h = ([], refl, refl, refl)
  encode_accounts_lem ((i, b) ∷ l) ((e, n), h) =
      let (bs, e', n', r) = encode_accounts_lem l h in
      (
        b ++ bs,
        rw (e, e') refl,
        omega (arith, length-append b bs, n, n'),
        ap (λ x. x ∷ read_accounts (length l) (drop 32 (b ++ bs))) (take_of 32 b bs n)
            ∙ ap (λ x. b ∷ read_accounts (length l) x) (drop_of 32 b bs n)
            ∙ ap (λ x. b ∷ x) r,
      )

  -- A type that is the list of accounts of a runtime's registry, and neither of the types before it.
  abbrev pub IsVec : String → Runtime C → Type 0
  IsVec t r =
      (str_eq t "scale_info::0" ≡ false)
      × (str_eq t (scale_info C (type_id C r.registry_type_map "Option<(AccountId32, u16)>" 579))
          ≡ false)
      × (str_eq t (scale_info C (type_id C r.registry_type_map "Vec<AccountId32>" 152)) ≡ true)

  as_vec :
      (t : String) (r : Runtime C) (l : List (Item Other))
      → IsVec t r
      → encode_scale C t (sequence l) r ≡ encode_items C l
  unfolding encode_scale encode_typed encode_vec
  as_vec t r l (not_one, not_pair, is_vec) = rw (not_one, not_pair, is_vec) refl

  items_short :
      (l : List (Item Other)) (bs : Bytes)
      → length l < 64
      → encode_accounts C l ≡ inr bs
      → encode_items C l ≡ inr (4 * length l ∷ bs)
  unfolding encode_items append_to
  items_short l bs short e = ground (arith, short, e)

  -- Fewer than 64 accounts, each of 32 bytes, are encoded to one byte, which is below 256, and 32
  -- bytes for each, from which the accounts are read again in their order.
  pub encode_scale-decode_accounts :
      (t : String) (r : Runtime C) (l : List (Item Other × Bytes))
      → IsVec t r
      → AreAccounts l
      → length l < 64
      → (b : ℕ) × (bs : Bytes) × (encode_scale C t (sequence (map (λ p. p.0) l)) r ≡ inr (b ∷ bs))
        × (b < 256)
        × (length bs ≡ 32 * length l)
        × (decode_accounts (b ∷ bs) ≡ map (λ p. p.1) l)
  unfolding decode_accounts
  encode_scale-decode_accounts t r l is_vec accounts short =
      let (bs, e, n, read) = encode_accounts_lem l accounts in
      let same : length (map (λ p. p.0) l) ≡ length l = length-map (λ p. p.0) l in
      (
        4 * length (map (λ p. p.0) l),
        bs,
        as_vec t r (map (λ p. p.0) l) is_vec
            ∙ items_short (map (λ p. p.0) l) bs (omega (arith, same, short)) e,
        omega (arith, same, short),
        n,
        ap (λ k. read_accounts k bs) (omega (arith, same)) ∙ read,
      )

  -- With 64 or more items, whatever they are, a list of accounts is refused by a ValueError.
  pub encode_scale-refuses :
      (t : String) (r : Runtime C) (l : List (Item Other))
      → IsVec t r
      → 64 ≤ length l
      → encode_scale C t (sequence l) r ≡ inl C.value_error
  unfolding encode_items
  encode_scale-refuses t r l is_vec long = as_vec t r l is_vec ∙ ground (arith, long)
