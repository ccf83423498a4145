-- ===== src/Blocks/Decode/Modes.antt =====
-- `decode_block` (async_substrate_interface/async_substrate.py) with and without
-- `ignore_decoding_errors`.
use mathlib.Core.Option.{map as map_option}
use async_substrate_interfac.Prelude.{
  suc, ◌≡◌, refl, ap, ◌∙◌, String, Bool, true, false, Option, none, some, List, [], ◌∷◌, length,
  map, inl, inr, ◌⊎◌, sum_cases,
}
use async_substrate_interfac.Prelude.Action.{go_on, go_on-same}
use async_substrate_interfac.Blocks.Digest.{
  Codec, Number, Slot, raw, decoded, undecodable, Header, decode_log_text, recover, decode_log_slot,
  decode_logs,
}
use async_substrate_interfac.Blocks.Decode.{
  BlockData, Block, decode_extrinsics, extrinsics_if, block_number, decode_block, with_hash,
}

module _ (C : Codec) where
  open C use {World, Error, Runtime, Extrinsic, Log, Account}

  -- An extrinsic that can be decoded, or None.
  abbrev pub slot_of : {A : Type 0} → Error ⊎ A → Slot A
  slot_of (inl e) = undecodable
  slot_of (inr a) = decoded a

  extrinsics_lenient :
      (r : Runtime) (l : List String)
      → decode_extrinsics C r true l ≡ inr (map (λ s. slot_of (C.decode_extrinsic r s)) l)
  unfolding decode_extrinsics
  extrinsics_lenient r [] = refl
  extrinsics_lenient r (s ∷ l) = elim (sum_cases (C.decode_extrinsic r s)) [
    | inl (e, h) ↦ rw (h, extrinsics_lenient r l) refl
    | inr (a, h) ↦ rw (h, extrinsics_lenient r l) refl
  ]

  -- What is decoded with errors raised is decoded the same with errors ignored.
  extrinsics_same :
      (r : Runtime) (l : List String) (l' : List (Slot Extrinsic))
      → decode_extrinsics C r false l ≡ inr l'
      → decode_extrinsics C r true l ≡ inr l'
  unfolding decode_extrinsics
  extrinsics_same r [] l' h = h
  extrinsics_same r (s ∷ l) l' h = elim (sum_cases (C.decode_extrinsic r s)) [
    | inl (e, h') ↦ absurd (cc (rw h' at h))
    | inr (a, h') ↦ elim (sum_cases (decode_extrinsics C r false l)) [
      | inl (e, h'') ↦ absurd (cc (rw (h', h'') at h))
      | inr (x, h'') ↦ rw (h', extrinsics_same r l x h'') (rw (h', h'') at h)
    ]
  ]

  if_same :
      (r : Runtime) (o : Option (List String)) (o' : Option (List (Slot Extrinsic)))
      → extrinsics_if C r false o ≡ inr o'
      → extrinsics_if C r true o ≡ inr o'
  unfolding extrinsics_if
  if_same r none o' h = h
  if_same r (some l) o' h = elim (sum_cases (decode_extrinsics C r false l)) [
    | inl (e, h') ↦ absurd (cc (rw (h', extrinsics_if) at h))
    | inr (x, h') ↦ rw (extrinsics_same r l x h', extrinsics_if) (rw (h', extrinsics_if) at h)
  ]

  if_lenient :
      (r : Runtime) (o : Option (List String))
      → extrinsics_if C r true o ≡ inr (map_option (map (λ s. slot_of (C.decode_extrinsic r s))) o)
  unfolding extrinsics_if
  if_lenient r none = refl
  if_lenient r (some l) = rw (extrinsics_lenient r l, extrinsics_if) refl

  recover_same :
      (author : Option Account) (found : World × (Error ⊎ (Slot Log × Option Account))) (w : World)
      (x : Slot Log × Option Account)
      → recover C false author found ≡ (w, inr x)
      → recover C true author found ≡ (w, inr x)
  unfolding recover
  recover_same author (w', inl e) w x h = absurd (cc (ap (λ y. y.1) h))
  recover_same author (w', inr y) w x h = h

  recover_total :
      (author : Option Account) (found : World × (Error ⊎ (Slot Log × Option Account)))
      → (w : World) × (x : Slot Log × Option Account) × (recover C true author found ≡ (w, inr x))
  unfolding recover
  recover_total author (w, inl e) = (w, (undecodable, author), refl)
  recover_total author (w, inr x) = (w, x, refl)

  module _ (r : Runtime) (include_author : Bool) (block_hash : String) (h : Header C) where
    slot_same :
        (s : Slot Log) (author : Option Account) (w w' : World) (x : Slot Log × Option Account)
        → decode_log_slot C r false include_author block_hash h s author w ≡ (w', inr x)
        → decode_log_slot C r true include_author block_hash h s author w ≡ (w', inr x)
    unfolding decode_log_slot
    slot_same (raw s) author w w' x e =
        recover_same author (decode_log_text C r include_author block_hash h s author w) w' x e
    slot_same (decoded a) author w w' x e = e
    slot_same undecodable author w w' x e = e

    slot_total :
        (s : Slot Log) (author : Option Account) (w : World)
        → (w' : World) × (x : Slot Log × Option Account) × (decode_log_slot C r true include_author
              block_hash h s author w
            ≡ (w', inr x))
    unfolding decode_log_slot
    slot_total (raw s) author w =
        recover_total author (decode_log_text C r include_author block_hash h s author w)
    slot_total (decoded a) author w = (w, (decoded a, author), refl)
    slot_total undecodable author w = (w, (undecodable, author), refl)

    logs_total :
        (l : List (Slot Log)) (author : Option Account) (w : World)
        → (w' : World) × (x : List (Slot Log) × Option Account) × (decode_logs C r true
              include_author block_hash h l author w
            ≡ (w', inr x))
          × (length (x.0) ≡ length l)
    unfolding decode_logs go_on
    logs_total [] author w = (w, ([], author), refl, refl)
    logs_total (s ∷ l) author w =
        let (w1, x, e) = slot_total s author w in
        let (w2, y, e', n) = logs_total l (x.1) w1 in
        (w2, (x.0 ∷ y.0, y.1), rw (e, e') refl, ap suc n)

    logs_same :
        (l : List (Slot Log)) (author : Option Account) (w w' : World)
        (x : List (Slot Log) × Option Account)
        → decode_logs C r false include_author block_hash h l author w ≡ (w', inr x)
        → decode_logs C r true include_author block_hash h l author w ≡ (w', inr x)
    unfolding decode_logs
    logs_same [] author w w' x e = e
    logs_same (s ∷ l) author w w' x e =
        go_on-same _ _ _ _ w' x (slot_same s author w)
          (λ y w1. go_on-same _ _ _ _ w' x (logs_same l (y.1) w1) (λ z w2 e'. e')) e

  -- A block that is decoded with errors raised is decoded the same, with the same calls, with
  -- errors ignored.
  pub decode_block-same :
      (r : Runtime) (include_author : Bool) (block_hash : String) (hash : Option String)
      (b : BlockData C) (w w' : World) (x : Block C)
      → decode_block C r false include_author block_hash hash b w ≡ (w', inr x)
      → decode_block C r true include_author block_hash hash b w ≡ (w', inr x)
  unfolding decode_block
  decode_block-same r include_author block_hash hash b w w' x h =
      go_on-same _ _ _ _ w' x (λ w1 n e. e)
        (λ n w1.
          go_on-same _ _ _ _ w' x
            (λ w2 o e.
              ap (λ y. (w1, y)) (if_same r b.texts o (ap (λ y. y.1) e))
              ∙ ap (λ y. (y, inr o)) (ap (λ y. y.0) e))
            (λ o w2.
              go_on-same _ _ _ _ w' x
                (logs_same r include_author block_hash b.data_header b.data_header.logs none w2)
                (λ l w3 e. e)))
        h

  -- With errors ignored, a block whose number can be read is decoded, whatever else is in it: its
  -- extrinsics are those that can be decoded, with None in place of each other one, and it has as
  -- many items of the digest as before.
  pub decode_block-lenient :
      (r : Runtime) (include_author : Bool) (block_hash : String) (hash : Option String)
      (b : BlockData C) (n : Number) (w : World)
      → block_number C b.data_header.number_of ≡ inr n
      → (w' : World) × (x : Block C) × (decode_block C r true include_author block_hash hash b w
          ≡ (w', inr x))
        × (x.header.number_of ≡ n)
        × (x.extrinsics ≡ map_option (map (λ s. slot_of (C.decode_extrinsic r s))) b.texts)
        × (length x.header.logs ≡ length b.data_header.logs)
  unfolding decode_block go_on
  decode_block-lenient r include_author block_hash hash b n w h =
      let (w1, l, e, same) =
        logs_total r include_author block_hash b.data_header b.data_header.logs none w in
      let made : Block C = record {
        header = record (with_hash C hash b.data_header) { number_of = n; logs = l.0 };
        extrinsics = map_option (map (λ s. slot_of (C.decode_extrinsic r s))) b.texts;
        author = l.1;
      } in
      (w1, made, rw (h, if_lenient r b.texts, e) refl, refl, refl, same)
