-- ===== src/Scale/Tests.antt =====
-- Two accounts, in a runtime whose registry names no types.
use async_substrate_interfac.Prelude.{
  ℕ, zero, suc, ◌*◌, ◌<◌, ◌≡◌, refl, List, [], ◌∷◌, length, map, inl, inr, arith,
}
use async_substrate_interfac.Prelude.Dict.{lookup}
use async_substrate_interfac.Scale.{
  Bytes, Item, raw, string, integer, null, sequence, Codec, Runtime, scale_info, type_id,
  encode_account_id, encode_scale, encode_pair,
}
use async_substrate_interfac.Scale.Accounts.{
  AreAccounts, IsVec, decode_accounts, encode_scale-decode_accounts, encode_scale-refuses,
}
use async_substrate_interfac.Registry.{decimal, digits, digit}

abbrev repeat : ℕ → ℕ → Bytes
repeat b zero = []
repeat b (suc n) = b ∷ repeat b n

abbrev codec : Codec
codec = record {
  Other = Unit;
  Error = ℕ;
  Registry = Unit;
  value_error = 1;
  overflow_error = 2;
  attribute_error = 3;
  no_account = 4;
  ss58_decode = λ s. inr (repeat 7 32);
  encode_by_type_string = λ t r v. inr [];
}

abbrev runtime : Runtime codec
runtime = record { registry_type_map = []; registry = tt }

abbrev accounts : List (Item Unit × Bytes)
accounts = (string "alice", repeat 7 32) ∷ (raw (repeat 9 32), repeat 9 32) ∷ []

IsVec-runtime : IsVec codec "scale_info::152" runtime
unfolding scale_info type_id lookup decimal digits digit
IsVec-runtime = (refl, refl, refl)

AreAccounts-accounts : AreAccounts codec accounts
unfolding encode_account_id
AreAccounts-accounts = ((refl, refl), ((refl, refl), tt))

-- None is one zero byte, whatever the type.
none_byte : encode_scale codec "scale_info::152" null runtime ≡ inr (0 ∷ [])
unfolding encode_scale
none_byte = refl

pair_bytes :
    encode_pair codec (sequence (raw (5 ∷ []) ∷ integer 770 ∷ [])) ≡ inr (1 ∷ 5 ∷ 2 ∷ 3 ∷ [])
unfolding encode_pair
pair_bytes = refl

encode_scale-decode_accounts_example :
    (b : ℕ) × (bs : Bytes) × (encode_scale codec "scale_info::152"
        (sequence (map (λ p. p.0) accounts))
        runtime
      ≡ inr (b ∷ bs))
    × (b < 256)
    × (length bs ≡ 32 * length accounts)
    × (decode_accounts (b ∷ bs) ≡ map (λ p. p.1) accounts)
encode_scale-decode_accounts_example =
    encode_scale-decode_accounts codec "scale_info::152" runtime accounts IsVec-runtime
      AreAccounts-accounts (omega arith)

abbrev many : ℕ → List (Item Unit)
many zero = []
many (suc n) = raw [] ∷ many n

-- The length of 64 accounts does not fit into one byte.
too_many : encode_scale codec "scale_info::152" (sequence (many 64)) runtime ≡ inl 1
too_many =
    encode_scale-refuses codec "scale_info::152" runtime (many 64) IsVec-runtime (omega arith)
