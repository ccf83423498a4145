-- ===== src/Signing/Payload/Signed.antt =====
-- What `generate_signature_payload` (async_substrate_interface/async_substrate.py) signs.
use async_substrate_interfac.Prelude.{
  ℕ, ◌≤◌, ◌≡◌, refl, ap, sym, String, Bool, true, Option, some, List, length, arith, Option-cases,
  inl, inr, All, is_some, inr_inj,
}
use async_substrate_interfac.Prelude.Every.{All-append}
use async_substrate_interfac.Prelude.Dict.{lookup}
use async_substrate_interfac.Prelude.Strings.{String-discrete}
use async_substrate_interfac.Prelude.Action.{go_on-inr}
use async_substrate_interfac.Json.{Json, field_of}
use async_substrate_interfac.Signing.Payload.{
  Extension, Extensions, TypeMapping, Codec, is_immortal, given_era, append_part, append_extrinsic,
  append_additional, type_mapping, Terms, payload_dict, encode_terms, shorten, block_hash_for,
  generate_signature_payload, given_runtime,
}

-- Every name in the mapping satisfies `P`, where `P` holds of the names that are appended.
Named : (String → Type 0) → TypeMapping → Type 0
Named P m = All (λ e. P e.0) m

append_part-Named :
    (P : String → Type 0) (exts : Extensions) (key name : String) (part : Extension → String)
    (m : TypeMapping)
    → P name
    → Named P m
    → Named P (append_part exts key name part m)
unfolding append_part Named
append_part-Named P exts key name part m p h =
    elim (Option-cases (lookup String-discrete key exts)) [
      | inl e ↦ rw (e, append_part) h
      | inr (x, e) ↦ rw (e, append_part) (All-append (λ e'. P e'.0) m _ h (p, tt))
    ]

module _ (C : Codec) where
  open C use {World, Error, Runtime}

  -- Whatever signed extensions a runtime has, each part of the payload that the type mapping asks
  -- for has a value in the payload.
  pub type_mapping-payload_dict :
      (r : Runtime) (call : String) (t : Terms) (genesis block : String) (default : TypeMapping)
      (exts : Extensions)
      → All
          (λ e. is_some (field_of e.0 (payload_dict C r call t genesis block)) ≡ true)
          (type_mapping default (some exts))
  unfolding type_mapping append_extrinsic append_additional Named payload_dict field_of
  type_mapping-payload_dict r call t genesis block default exts =
      let P : String → Type 0 =
        λ n. is_some (field_of n (payload_dict C r call t genesis block)) ≡ true in
      let add = append_part-Named P exts in
      add "CheckMetadataHash" "metadata_hash" _ _ refl (
        add "CheckEra" "block_hash" _ _ refl (
          add "CheckMortality" "block_hash" _ _ refl (
            add "CheckGenesis" "genesis_hash" _ _ refl (
              add "CheckTxVersion" "transaction_version" _ _ refl (
                add "CheckSpecVersion" "spec_version" _ _ refl (
                  add "CheckMetadataHash" "mode" _ _ refl (
                    add "ChargeAssetTxPayment" "asset_id" _ _ refl (
                      add "ChargeTransactionPayment" "tip" _ _ refl (
                        add "CheckNonce" "nonce" _ _ refl (
                          add "CheckEra" "era" _ _ refl
                            (add "CheckMortality" "era" _ _ refl (refl, tt))))))))))))

  -- The payload that a call of `generate_signature_payload` has encoded before it returned `b`.
  pub record HasSigned (call : String) (t : Terms) (given : Option Runtime) (b : List ℕ)
      : Type 0 where
    pub runtime : Runtime
    pub call_data : String
    pub genesis_hash : String
    pub block_hash : String
    pub payload : List ℕ
    pub encoded :
        encode_terms C runtime call_data
          (record t { era = given_era t.era })
          genesis_hash
          block_hash
        ≡ inr payload
    pub at_runtime : (r : Runtime) → given ≡ some r → runtime ≡ r
    pub shortened : b ≡ shorten C payload
    pub immortal : is_immortal (given_era t.era) ≡ true → block_hash ≡ genesis_hash

  immortal_hash :
      (r : Runtime) (genesis block : String) (era : Json) (w : World)
      → (block_hash_for C r genesis era w).1 ≡ inr block
      → is_immortal era ≡ true
      → block ≡ genesis
  unfolding block_hash_for
  immortal_hash r genesis block era w h on = inr_inj (sym (rw (on, block_hash_for) at h))

  runtime_given :
      (given : Option Runtime) (r r' : Runtime) (w w' : World)
      → given_runtime C given w ≡ (w', inr r')
      → given ≡ some r
      → r' ≡ r
  unfolding given_runtime
  runtime_given given r r' w w' h e = inr_inj (sym (ap (λ x. x.1) (rw (e, given_runtime) at h)))

  pub generate_signature_payload-HasSigned :
      (call : String) (t : Terms) (with_length : Bool) (given : Option Runtime) (w : World)
      (b : List ℕ)
      → (generate_signature_payload C call t with_length given w).1 ≡ inr b
      → HasSigned call t given b
  unfolding generate_signature_payload
  generate_signature_payload-HasSigned call t with_length given w b h =
      let (genesis, w1, e1, h1) = go_on-inr _ _ b h in
      let (r, w2, e2, h2) = go_on-inr _ _ b h1 in
      let (block, w3, e3, h3) = go_on-inr _ _ b h2 in
      let (call', w4, e4, h4) = go_on-inr _ _ b h3 in
      let (payload, w5, e5, h5) = go_on-inr _ _ b h4 in
      record {
        runtime = r;
        call_data = call';
        genesis_hash = genesis;
        block_hash = block;
        payload = payload;
        encoded = ap (λ x. x.1) e5;
        at_runtime = λ r' same. runtime_given given r' r w1 w2 e2 same;
        shortened = inr_inj (sym h5);
        immortal = immortal_hash r genesis block (given_era t.era) w2 (ap (λ x. x.1) e3);
      }

  -- Where blake2b gives 32 bytes, what is signed is never more than 256 bytes, however long the
  -- call is.
  pub generate_signature_payload-bound :
      (call : String) (t : Terms) (with_length : Bool) (given : Option Runtime) (w : World)
      (b : List ℕ)
      → ((l : List ℕ) → length (C.blake2b l) ≡ 32)
      → (generate_signature_payload C call t with_length given w).1 ≡ inr b
      → length b ≤ 256
  generate_signature_payload-bound call t with_length given w b digest h =
      let signed = generate_signature_payload-HasSigned call t with_length given w b h in
      unfold shorten in ground (arith, signed.shortened, digest signed.payload)
