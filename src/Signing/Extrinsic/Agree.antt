-- ===== src/Signing/Extrinsic/Agree.antt =====
-- What a signed extrinsic (async_substrate_interface/async_substrate.py) says is what was signed.
use async_substrate_interfac.Prelude.{
  ℕ, ◌≡◌, refl, ap, ◌∙◌, sym, String, false, not, Option, none, some, List, arith, Bool-cases,
  Option-cases, inl, inr, inr_inj, ◌==◌,
}
use async_substrate_interfac.Prelude.Action.{go_on-inr, raise_if}
use async_substrate_interfac.Json.{Json, str, num, Fields, field_of}
use async_substrate_interfac.Signing.Payload.{Codec, Terms, asset_fields}
use async_substrate_interfac.Signing.Payload.Signed.{
  HasSigned, generate_signature_payload-HasSigned,
}
use async_substrate_interfac.Signing.Hex.{hex}
use async_substrate_interfac.Signing.Extrinsic.{
  Keypair, Call, Client, value_fields, encode_signed, make_signature, call_item,
  create_signed_extrinsic, call_or_raise,
}
use Prim.Native.String.{◌++◌ as join}

module _ (C : Codec) (K : Client C) where
  open C use {World, Error, Runtime}

  -- The value of an extrinsic that was made of a call, terms and a signature.
  pub record HasMade (call : Call) (k : Keypair C) (terms : Terms) (runtime : Runtime)
      (signature : ℕ × List ℕ) (made : K.Made) : Type 0 where
    pub value : Fields
    pub encoded : K.encode_extrinsic runtime value ≡ inr made
    pub at_version : K.version runtime ≡ 4
    pub account : field_of "account_id" value ≡ some (str (join "0x" (hex k.public_key)))
    pub signed : field_of "signature" value ≡ some (str (join "0x" (hex (signature.1))))
    pub call_args : field_of "call_args" value ≡ field_of "call_args" call.value
    pub call_function : field_of "call_function" value ≡ field_of "call_function" call.value
    pub call_module : field_of "call_module" value ≡ field_of "call_module" call.value
    pub nonce : field_of "nonce" value ≡ some (num terms.nonce)
    pub era : field_of "era" value ≡ some terms.era
    pub tip : field_of "tip" value ≡ some (num terms.tip)
    pub asset_id : field_of "asset_id" value ≡ some (asset_fields terms.tip terms.tip_asset_id)
    pub mode : field_of "mode" value ≡ some (str "Disabled")

  item_of :
      (call : Call) (key : String) (w w' : World) (v : Json)
      → call_item C K call key w ≡ (w', inr v)
      → field_of key call.value ≡ some v
  unfolding call_item
  item_of call key w w' v h = elim (Option-cases (field_of key call.value)) [
    | inl e ↦ absurd (cc (ap (λ x. x.1) (rw (e, call_item) at h)))
    | inr (u, e) ↦ e ∙ ap some (inr_inj (ap (λ x. x.1) (rw (e, call_item) at h)))
  ]

  made_of :
      (call : Call) (k : Keypair C) (t : Terms) (r : Runtime) (signature : ℕ × List ℕ) (w : World)
      (made : K.Made)
      → K.version r ≡ 4
      → (encode_signed C K call k t r signature w).1 ≡ inr made
      → HasMade call k t r signature made
  unfolding encode_signed value_fields field_of
  made_of call k t r signature w made at h =
      let (f, w1, e1, h1) = go_on-inr _ _ made h in
      let (m, w2, e2, h2) = go_on-inr _ _ made h1 in
      let (a, w3, e3, h3) = go_on-inr _ _ made h2 in
      record {
        value = value_fields C K k t signature (K.has_enum r) f m a;
        encoded = h3;
        at_version = at;
        account = refl;
        signed = refl;
        call_args = sym (item_of call "call_args" w2 w3 a e3);
        call_function = sym (item_of call "call_function" w w1 f e1);
        call_module = sym (item_of call "call_module" w1 w2 m e2);
        nonce = refl;
        era = refl;
        tip = refl;
        asset_id = refl;
        mode = refl;
      }

  version_is :
      (r : Runtime) (w w' : World) (u : Unit)
      → raise_if (not (K.version r == 4)) K.not_implemented w ≡ (w', inr u)
      → K.version r ≡ 4
  version_is r w w' u h = elim (Bool-cases (K.version r == 4)) [
    | inl same ↦ ground (arith, same)
    | inr other ↦ absurd (cc (ap (λ x. x.1) (rw other at h)))
  ]

  -- An extrinsic, and the signature of its terms by the keypair that it holds.
  pub record IsSigned (call : Call) (k : Keypair C) (made : K.Made) : Type 0 where
    pub terms : Terms
    pub signature : ℕ × List ℕ
    pub runtime : Runtime
    pub extrinsic : HasMade call k terms runtime signature made
    pub payload : List ℕ
    pub signs : HasSigned C call.hex_data terms (some runtime) payload
    pub world : World
    pub by_keypair : (k.sign payload world).1 ≡ inr (signature.1)
    pub crypto_type : signature.0 ≡ k.crypto_type

  own_signature :
      (call : Call) (k : Keypair C) (t : Terms) (r : Runtime) (w : World) (s : ℕ × List ℕ)
      → (make_signature C K call k t none r w).1 ≡ inr s
      → (payload : List ℕ) × (w' : World) × HasSigned C call.hex_data t (some r) payload
        × ((k.sign payload w').1 ≡ inr (s.1))
        × (s.0 ≡ k.crypto_type)
  unfolding make_signature
  own_signature call k t r w s h =
      let (payload, w1, e1, h1) = go_on-inr _ _ s h in
      let (b, w2, e2, h2) = go_on-inr _ _ s h1 in
      let same : (k.crypto_type, b) ≡ s = inr_inj h2 in
      (
        payload,
        w1,
        generate_signature_payload-HasSigned C call.hex_data t false (some r) w payload
            (ap (λ x. x.1) e1),
        ap (λ x. x.1) e2 ∙ ap (λ x. inr (x.1)) same,
        sym (ap (λ x. x.0) same),
      )

  finish :
      (call : Call) (k : Keypair C) (t : Terms) (r : Runtime) (w w' : World) (s : ℕ × List ℕ)
      (made : K.Made)
      → K.version r ≡ 4
      → (make_signature C K call k t none r w).1 ≡ inr s
      → (encode_signed C K call k t r s w').1 ≡ inr made
      → IsSigned call k made
  finish call k t r w w' s made at m h =
      let (payload, w1, signs, by_keypair, crypto_type) = own_signature call k t r w s m in
      record {
        terms = t;
        signature = s;
        runtime = r;
        extrinsic = made_of call k t r s w' made at h;
        payload = payload;
        signs = signs;
        world = w1;
        by_keypair = by_keypair;
        crypto_type = crypto_type;
      }

  call_is :
      (argument call : Call) (w w' : World)
      → call_or_raise C K (some argument) w ≡ (w', inr call)
      → argument ≡ call
  unfolding call_or_raise
  call_is argument call w w' h = inr_inj (ap (λ x. x.1) h)

  -- An extrinsic that is made without a signature from outside, at version 4 of extrinsics, holds
  -- the call's function, module and arguments, and the keypair's signature of a payload with the
  -- nonce, the tip and the asset that the extrinsic holds, and its era, or 00 where that is empty,
  -- encoded for the runtime that the extrinsic is encoded for.
  pub create_signed_extrinsic-IsSigned :
      (call : Call) (k : Keypair C) (era : Option Json) (given : Option ℕ) (tip : ℕ)
      (tip_asset_id : Option ℕ) (w : World) (made : K.Made)
      → (create_signed_extrinsic C K (some call) k era given tip tip_asset_id none w).1 ≡ inr made
      → IsSigned call k made
  unfolding create_signed_extrinsic
  create_signed_extrinsic-IsSigned call k era given tip tip_asset_id w made h =
      let (r, w1, e1, h1) = go_on-inr _ _ made h in
      let (c, w2, e2, h2) = go_on-inr _ _ made h1 in
      let (u, w3, e3, h3) = go_on-inr _ _ made h2 in
      let (n, w4, e4, h4) = go_on-inr _ _ made h3 in
      let (era', w5, e5, h5) = go_on-inr _ _ made h4 in
      let (s, w6, e6, h6) = go_on-inr _ _ made h5 in
      rw (call_is call c w1 w2 e2) (
        finish c k (record { era = era'; nonce = n; tip = tip; tip_asset_id = tip_asset_id }) r w5
          w6 s made (version_is r w2 w3 u e3) (ap (λ x. x.1) e6) h6)
