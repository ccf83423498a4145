-- ===== src/Blocks/Retrieve.antt =====
-- `_get_block_handler`, `get_block` and `get_block_header` of AsyncSubstrateInterface in
-- async_substrate_interface/async_substrate.py.
use async_substrate_interfac.Prelude.{
  ℕ, zero, suc, String, Bool, true, false, not, ◌&&◌, Option, none, some, inl, inr, ◌⊎◌,
  if◌then◌else◌,
}
use async_substrate_interfac.Prelude.Action.{Action, pure, raise, raise_if, ◌>>=◌, ◌>>◌}
use async_substrate_interfac.Blocks.Digest.{Codec, Header}
use async_substrate_interfac.Blocks.Decode.{BlockData, Block, decode_block}
use text.Mathlib.Text.{◌==◌ as str_eq}

-- What is asked of the node and of the rest of the client. `get_header` and `get_block_data` are
-- the results of `chain_getHeader` and `chain_getBlock`, none for null; within the latter, none is
-- a block that is null.
pub record Node (C : Codec) : Type 1 where
  pub type_error : C.Error
  pub block_not_found : C.Error → Bool
  pub init_runtime : String → Action C.World C.Error C.Runtime
  pub get_block_hash : ℕ → Action C.World C.Error (Option String)
  pub get_chain_head : Action C.World C.Error String
  pub get_chain_finalised_head : Action C.World C.Error String
  pub get_header : String → C.Runtime → Action C.World C.Error (Option (Header C))
  pub get_block_data : String → C.Runtime → Action C.World C.Error (Option (Option (BlockData C)))
  pub unsubscribe : String → String → Action C.World C.Error Unit

module _ (C : Codec) (N : Node C) where
  open C use {World, Error, Runtime}

  unfoldable pub given : {A : Type 0} → Option A → Action World Error A
  given none = raise N.type_error
  given (some a) = pure a

  unfoldable pub decode_header :
      Runtime → Bool → Bool → String → Action World Error (Option (Block C))
  unfolding given
  decode_header r ignore include_author block_hash = do
    result ← N.get_header block_hash r
    h ← given result
    b ←
        decode_block C r ignore include_author block_hash (some block_hash)
          (record { data_header = h; texts = none })
    pure (some b)

  -- A block that is null is given back as it is.
  unfoldable pub decode_data :
      Runtime → Bool → Bool → String → Option (BlockData C) → Action World Error (Option (Block C))
  decode_data r ignore include_author block_hash none = pure none
  decode_data r ignore include_author block_hash (some data_block) = do
    b ← decode_block C r ignore include_author block_hash (some block_hash) data_block
    pure (some b)

  unfoldable pub decode_whole :
      Runtime → Bool → Bool → String → Action World Error (Option (Block C))
  unfolding given decode_data
  decode_whole r ignore include_author block_hash = do
    result ← N.get_block_data block_hash r
    data_block ← given result
    decode_data r ignore include_author block_hash data_block

  -- `except BlockNotFound: return None`, around the initialisation of the runtime alone.
  unfoldable pub with_runtime :
      {A : Type 0}
      → (Runtime → Action World Error (Option A))
      → World × (Error ⊎ Runtime)
      → World × (Error ⊎ Option A)
  with_runtime f (w, inl e) = if N.block_not_found e then (w, inr none) else (w, inl e)
  with_runtime f (w, inr r) = f r w

  -- `_get_block_handler` without a handler of a subscription.
  unfoldable pub get_block_handler :
      String → Bool → Bool → Bool → Action World Error (Option (Block C))
  unfolding with_runtime decode_header decode_whole
  get_block_handler block_hash ignore include_author header_only w =
      with_runtime
        (λ r.
          if header_only
          then decode_header r ignore include_author block_hash
          else decode_whole r ignore include_author block_hash)
        (N.init_runtime block_hash w)

  unfoldable pub is_set : Option String → Bool
  is_set none = false
  is_set (some s) = not (str_eq s "")

  unfoldable pub is_above_zero : Option ℕ → Bool
  is_above_zero none = false
  is_above_zero (some zero) = false
  is_above_zero (some (suc n)) = true

  unfoldable pub head_hash : Bool → Action World Error String
  head_hash finalized_only = if finalized_only then N.get_chain_finalised_head else N.get_chain_head

  -- From a hash on. `get_block_header` alone tests `finalized_only` once more.
  unfoldable pub from_hash :
      Bool → Bool → Bool → Bool → Option String → Action World Error (Option (Block C))
  unfolding get_block_handler is_set head_hash
  from_hash header_only ignore include_author finalized_only none = do
    block_hash ← head_hash finalized_only
    get_block_handler block_hash ignore include_author header_only
  from_hash header_only ignore include_author finalized_only (some h) = do
    raise_if (is_set (some h) && finalized_only) C.value_error
    raise_if (header_only && finalized_only) C.value_error
    get_block_handler h ignore include_author header_only

  -- Where a number is given, its hash takes the place of the one that is given.
  unfoldable pub from_number :
      Bool → Bool → Bool → Bool → Option String → Option ℕ → Action World Error (Option (Block C))
  unfolding from_hash
  from_number header_only ignore include_author finalized_only block_hash none =
      from_hash header_only ignore include_author finalized_only block_hash
  from_number header_only ignore include_author finalized_only block_hash (some n) = do
    found ← N.get_block_hash n
    elim found [
      | none ↦ pure none
      | some h ↦ from_hash header_only ignore include_author finalized_only (some h)
    ]

  unfoldable pub retrieve :
      Bool → Option String → Option ℕ → Bool → Bool → Bool → Action World Error (Option (Block C))
  unfolding is_set is_above_zero from_number
  retrieve header_only block_hash n ignore include_author finalized_only = do
    raise_if (is_set block_hash && is_above_zero n) C.value_error
    from_number header_only ignore include_author finalized_only block_hash n

  unfoldable pub get_block :
      Option String → Option ℕ → Bool → Bool → Bool → Action World Error (Option (Block C))
  unfolding retrieve
  get_block = retrieve false

  unfoldable pub get_block_header :
      Option String → Option ℕ → Bool → Bool → Bool → Action World Error (Option (Block C))
  unfolding retrieve
  get_block_header = retrieve true
