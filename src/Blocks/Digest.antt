-- ===== src/Blocks/Digest.antt =====
-- The items of a block's digest and the author that they tell, as `decode_block` in
-- `_get_block_handler` of AsyncSubstrateInterface reads them
-- (async_substrate_interface/async_substrate.py).
pub mod Author
use async_substrate_interfac.Prelude.{
  ℕ, zero, suc, ◌%◌, String, Bool, true, false, ◌&&◌, Option, none, some, List, [], ◌∷◌, length,
  inl, inr, ◌⊎◌, if◌then◌else◌,
}
use async_substrate_interfac.Prelude.Action.{
  Action, pure, raise, lift, raise_if, go_on, ◌>>=◌, ◌>>◌,
}
use async_substrate_interfac.Storage.TupleType.{Text}
use text.Mathlib.Text.{◌==◌ as str_eq}

-- The runtime's codecs, which are scalecodec's, and the query of the validators at a block. A log
-- is a decoded item of the digest: `engine` and `legacy_engine` name the engine of its
-- pre-runtime digest, by whether the runtime implements scale info; `babe_index`, `aura_slot` and
-- `legacy_index` read its data.
pub record Codec : Type 1 where
  pub World : Type 0
  pub Error : Type 0
  pub Runtime : Type 0
  pub Extrinsic : Type 0
  pub Log : Type 0
  pub Account : Type 0
  pub value_error : Error
  pub index_error : Error
  pub zero_division : Error
  pub not_implemented : Error
  pub decode_extrinsic : Runtime → String → Error ⊎ Extrinsic
  pub has_log_class : Runtime → Bool
  pub decode_log : Runtime → String → Error ⊎ Log
  pub has_pre_runtime : Log → Bool
  pub implements_scaleinfo : Runtime → Bool
  pub engine : Log → Error ⊎ String
  pub babe_index : Runtime → Log → Error ⊎ ℕ
  pub aura_slot : Runtime → Log → Error ⊎ ℕ
  pub legacy_engine : Log → Error ⊎ String
  pub legacy_index : Log → Error ⊎ ℕ
  pub validators : Runtime → String → Action World Error (List Account)

-- A number of a block, as a text in hexadecimal digits or as it is.
pub data Number : Type 0 where
  hex_number : Text → Number
  number : ℕ → Number

-- An item of a block before and after decoding; None is `undecodable`.
pub data Slot (A : Type 0) : Type 0 where
  raw : String → Slot A
  decoded : A → Slot A
  undecodable : Slot A

unfoldable pub nth_account : {A : Type 0} → ℕ → List A → Option A
nth_account n [] = none
nth_account zero (a ∷ l) = some a
nth_account (suc n) (a ∷ l) = nth_account n l

module _ (C : Codec) where
  open C use {World, Error, Runtime, Log, Account}

  -- A header: `hash` and `author` are keys that decoding adds.
  pub record Header : Type 0 where
    pub hash : Option String
    pub number_of : Number
    pub parent_hash : String
    pub logs : List (Slot Log)

  unfoldable pub account_at : ℕ → List Account → Error ⊎ Account
  unfolding nth_account
  account_at n l = elim (nth_account n l) [ none ↦ inl C.index_error | some a ↦ inr a ]

  unfoldable pub modulo : ℕ → ℕ → Error ⊎ ℕ
  modulo n zero = inl C.zero_division
  modulo n (suc k) = inr (n % suc k)

  unfoldable pub babe_author : Runtime → Log → List Account → Action World Error Account
  unfolding account_at
  babe_author r log validator_set = do
    rank_validator ← lift (C.babe_index r log)
    lift (account_at rank_validator validator_set)

  unfoldable pub aura_author : Runtime → Log → List Account → Action World Error Account
  unfolding modulo account_at
  aura_author r log validator_set = do
    slot ← lift (C.aura_slot r log)
    rank_validator ← lift (modulo slot (length validator_set))
    lift (account_at rank_validator validator_set)

  unfoldable pub author_of : Runtime → Log → Header → Action World Error Account
  unfolding babe_author aura_author
  author_of r log h = do
    engine ← lift (C.engine log)
    validator_set ← C.validators r h.parent_hash
    (if str_eq engine "BABE"
        then babe_author r log validator_set
        else if str_eq engine "aura"
        then aura_author r log validator_set
        else raise C.not_implemented)

  unfoldable pub legacy_query : Runtime → Log → String → Action World Error Account
  unfolding account_at
  legacy_query r log block_hash = do
    validator_set ← C.validators r block_hash
    rank_validator ← lift (C.legacy_index log)
    lift (account_at rank_validator validator_set)

  unfoldable pub legacy_author : Runtime → Log → String → Action World Error Account
  unfolding legacy_query
  legacy_author r log block_hash = do
    engine ← lift (C.legacy_engine log)
    (if str_eq engine "BABE" then legacy_query r log block_hash else raise C.not_implemented)

  -- The author, where the item tells it and it is asked for.
  unfoldable pub author_if :
      Runtime → Bool → String → Header → Log → Option Account → Action World Error (Option Account)
  unfolding author_of legacy_author
  author_if r include_author block_hash h log author =
      if include_author && C.has_pre_runtime log
      then (do
        a ← (if C.implements_scaleinfo r then author_of r log h else legacy_author r log block_hash)
        pure (some a))
      else pure author

  unfoldable pub decode_log_text :
      Runtime
      → Bool
      → String
      → Header
      → String
      → Option Account
      → Action World Error (Slot Log × Option Account)
  unfolding author_if
  decode_log_text r include_author block_hash h s author = do
    raise_if (if C.has_log_class r then false else true) C.not_implemented
    log ← lift (C.decode_log r s)
    a ← author_if r include_author block_hash h log author
    pure (decoded log, a)

  -- `except Exception`: the item is lost, and the author stays.
  unfoldable pub recover :
      Bool
      → Option Account
      → World × (Error ⊎ (Slot Log × Option Account))
      → World × (Error ⊎ (Slot Log × Option Account))
  recover ignore author (w, inr found) = (w, inr found)
  recover ignore author (w, inl e) = if ignore then (w, inr (undecodable, author)) else (w, inl e)

  -- An item that is no text stays as it is.
  unfoldable pub decode_log_slot :
      Runtime
      → Bool
      → Bool
      → String
      → Header
      → Slot Log
      → Option Account
      → Action World Error (Slot Log × Option Account)
  unfolding decode_log_text recover
  decode_log_slot r ignore include_author block_hash h (raw s) author w =
      recover ignore author (decode_log_text r include_author block_hash h s author w)
  decode_log_slot r ignore include_author block_hash h (decoded a) author w =
      (w, inr (decoded a, author))
  decode_log_slot r ignore include_author block_hash h undecodable author w =
      (w, inr (undecodable, author))

  unfoldable pub decode_logs :
      Runtime
      → Bool
      → Bool
      → String
      → Header
      → List (Slot Log)
      → Option Account
      → Action World Error (List (Slot Log) × Option Account)
  unfolding decode_log_slot
  decode_logs r ignore include_author block_hash h [] author = pure ([], author)
  decode_logs r ignore include_author block_hash h (s ∷ l) author = do
    first ← decode_log_slot r ignore include_author block_hash h s author
    rest ← decode_logs r ignore include_author block_hash h l (first.1)
    pure (first.0 ∷ rest.0, rest.1)
