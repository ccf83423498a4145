-- ===== src/Blocks/Subscribe.antt =====
-- The subscription to block headers: `subscribe_block_headers` and `_get_block_handler` with a handler,
-- of AsyncSubstrateInterface in async_substrate_interface/async_substrate.py.
use async_substrate_interfac.Prelude.{
  String, Bool, true, false, Option, none, some, List, [], ◌∷◌, inl, inr, ◌⊎◌, if◌then◌else◌,
}
use async_substrate_interfac.Prelude.Action.{Action, pure, lift, ◌>>=◌, ◌>>◌}
use async_substrate_interfac.Blocks.Digest.{Codec, Header}
use async_substrate_interfac.Blocks.Decode.{Block, decode_block}
use async_substrate_interfac.Blocks.Retrieve.{Node, with_runtime, head_hash}
use Prim.Native.String.{◌++◌ as join}

unfoldable pub rpc_method_prefix : Bool → String
rpc_method_prefix finalized_only = if finalized_only then "Finalized" else "New"

module _ (C : Codec) (N : Node C) where
  open C use {World, Error, Runtime}

  -- What a message of the subscription leads to, with whether the end is reached; a message without
  -- `params` is none.
  unfoldable pub result_handler :
      {A : Type 0}
      → Runtime
      → Bool
      → Bool
      → Bool
      → String
      → (Block C → Action World Error (Option A))
      → String
      → Option (Header C)
      → Action World Error (Option A × Bool)
  result_handler r ignore include_author finalized_only block_hash handler subscription_id none =
      pure (none, false)
  result_handler r ignore include_author finalized_only block_hash handler subscription_id
        (some h) =
      do
        new_block ←
            decode_block C r ignore include_author block_hash none
              (record { data_header = h; texts = none })
        answer ← handler new_block
        elim answer [
          | none ↦ pure (none, false)
          | some a ↦ (do
            N.unsubscribe subscription_id
                (join "chain_unsubscribe" (join (rpc_method_prefix finalized_only) "Heads"))
            pure (some a, true))
        ]

  unfoldable pub last_answer : {A : Type 0} → List (Option A) → Error ⊎ Option A
  last_answer [] = inl C.index_error
  last_answer (a ∷ []) = inr a
  last_answer (a ∷ b ∷ l) = last_answer (b ∷ l)

  -- `_make_rpc_request` of a method without parameters, with a result handler, which is given the id
  -- of the subscription and the header of a message: its answers for the one payload.
  abbrev pub Subscription : Type 0 → Type 0
  Subscription A =
      Runtime
      → String
      → (String → Option (Header C) → Action World Error (Option A × Bool))
      → Action World Error (List (Option A))

  module _ {A : Type 0} (request : Subscription A) where
    unfoldable pub subscribe_with :
        Bool
        → Bool
        → Bool
        → String
        → (Block C → Action World Error (Option A))
        → Runtime
        → Action World Error (Option A)
    unfolding result_handler last_answer rpc_method_prefix
    subscribe_with ignore include_author finalized_only block_hash handler r = do
      answers ←
          request r (join "chain_subscribe" (join (rpc_method_prefix finalized_only) "Heads"))
            (result_handler r ignore include_author finalized_only block_hash handler)
      lift (last_answer answers)

    -- `_get_block_handler` with a handler of a subscription.
    unfoldable pub subscription_handler :
        Bool
        → Bool
        → Bool
        → String
        → (Block C → Action World Error (Option A))
        → Action World Error (Option A)
    unfolding subscribe_with with_runtime
    subscription_handler ignore include_author finalized_only block_hash handler w =
        with_runtime C N (subscribe_with ignore include_author finalized_only block_hash handler)
          (N.init_runtime block_hash w)

    unfoldable pub subscribe_block_headers :
        (Block C → Action World Error (Option A))
        → Bool
        → Bool
        → Bool
        → Action World Error (Option A)
    unfolding head_hash subscription_handler
    subscribe_block_headers handler ignore include_author finalized_only = do
      block_hash ← head_hash C N finalized_only
      subscription_handler ignore include_author finalized_only block_hash handler
