-- ===== src/Receipts/Block.antt =====
-- A receipt and the block of its extrinsic: class AsyncExtrinsicReceipt of
-- async_substrate_interface/async_substrate.py. What it asks of its substrate is a field of a
-- `Chain`; an exception is `none`.
use async_substrate_interfac.Prelude.{
  ℕ, zero, suc, ◌+◌, ◌≡◌, refl, Bool, true, false, Option, none, some, List, [], ◌∷◌, if◌then◌else◌,
  ite, ℕ_discrete, arith, inl, inr, Bool-cases, Option-cases,
}
use async_substrate_interfac.Json.{◌>>=◌}
use async_substrate_interfac.Receipts.Events.{Event, ErrorMessage}
use async_substrate_interfac.Receipts.{Findings, process_events}
use async_substrate_interfac.Json.{Json}

-- `hash_of` is the hexadecimal text of an extrinsic's hash, where it has one. `get_events` and the
-- others raise where they are `none`; `get_block_number` answers None for an unknown block.
pub record Chain : Type 1 where
  pub Hash : Type 0
  pub Extrinsic : Type 0
  pub Block : Type 0
  pub hash_discrete : Discrete Hash
  pub hash_of : Extrinsic → Option Hash
  pub get_block : Block → Option (List Extrinsic)
  pub get_events : Block → Option (List Event)
  pub get_block_number : Block → Option (Option ℕ)
  pub get_block_hash : ℕ → Option (Option Block)
  pub resolve_module_error : Json → Json → Option ErrorMessage

-- `a == b`, where both may be None.
unfoldable pub same_idx : Option ℕ → Option ℕ → Bool
unfolding ℕ_discrete
same_idx none none = true
same_idx (some a) (some b) = ite (ℕ_discrete a b) true false
same_idx _ _ = false

-- The events of an extrinsic.
unfoldable pub events_of : Option ℕ → List Event → List Event
unfolding same_idx
events_of idx [] = []
events_of idx (e ∷ l) =
    let rest = events_of idx l in if same_idx e.extrinsic_idx idx then e ∷ rest else rest

unfoldable pub nth_of : {A : Type 0} → List A → ℕ → Option A
nth_of [] n = none
nth_of (x ∷ l) zero = some x
nth_of (x ∷ l) (suc n) = nth_of l n

module _ (C : Chain) where
  open C use {
    Hash, Extrinsic, Block, hash_discrete, hash_of, get_block, get_events, get_block_number,
    get_block_hash, resolve_module_error,
  }

  pub record Receipt : Type 0 where
    pub extrinsic_hash : Option Hash
    pub block_hash : Option Block
    pub block_number : Option ℕ
    pub extrinsic_idx : Option ℕ
    pub extrinsic : Option Extrinsic
    pub triggered_events : Option (List Event)
    pub found : Findings

  unfoldable pub has_hash : Option Hash → Extrinsic → Bool
  has_hash none x = false
  has_hash (some h) x = elim (hash_of x) [
    | none ↦ false
    | some k ↦ ite (hash_discrete k h) true false
  ]

  -- `__get_extrinsic_index`, from an index on; `none` is ExtrinsicNotFound.
  unfoldable pub get_extrinsic_index : List Extrinsic → Option Hash → ℕ → Option ℕ
  unfolding has_hash
  get_extrinsic_index [] h i = none
  get_extrinsic_index (x ∷ l) h i =
      let rest = get_extrinsic_index l h (i + 1) in if has_hash h x then some i else rest

  unfoldable pub known_index : Receipt → List Extrinsic → Option ℕ
  unfolding get_extrinsic_index
  known_index r extrinsics = elim r.extrinsic_idx [
    | none ↦ get_extrinsic_index extrinsics r.extrinsic_hash 0
    | some i ↦ some i
  ]

  -- The rest of `retrieve_extrinsic` for a block that has extrinsics.
  unfoldable pub select : Receipt → List Extrinsic → Option Receipt
  unfolding known_index nth_of
  select r [] = some r
  select r (x ∷ l) = known_index r (x ∷ l) >>= λ i. nth_of (x ∷ l) i >>= λ found.
      some (record r { extrinsic_idx = some i; extrinsic = some found })

  unfoldable pub retrieve_extrinsic : Receipt → Option Receipt
  unfolding select
  retrieve_extrinsic r = r.block_hash >>= λ b. get_block b >>= λ extrinsics. select r extrinsics

  -- The property `extrinsic_idx`: the receipt, which keeps the index.
  unfoldable pub with_idx : Receipt → Option Receipt
  unfolding retrieve_extrinsic
  with_idx r = elim r.extrinsic_idx [ none ↦ retrieve_extrinsic r | some i ↦ some r ]

  -- `if await self.extrinsic_idx is None: await self.retrieve_extrinsic()`
  unfoldable pub located : Receipt → Option Receipt
  unfolding with_idx retrieve_extrinsic
  located r =
      with_idx r >>= λ s. elim s.extrinsic_idx [ none ↦ retrieve_extrinsic s | some i ↦ some s ]

  unfoldable pub gather : Receipt → Block → Option Receipt
  unfolding located events_of
  gather r b = located r >>= λ s. get_events b >>= λ events.
      some (record s { triggered_events = some (events_of s.extrinsic_idx events) })

  -- The property `triggered_events`: the receipt, which keeps the events.
  unfoldable pub with_events : Receipt → Option Receipt
  unfolding gather
  with_events r = elim r.triggered_events [
    | some events ↦ some r
    | none ↦ (r.block_hash >>= λ b. gather r b)
  ]

  unfoldable pub processed : Receipt → Option Receipt
  unfolding with_events process_events
  processed r = with_events r >>= λ s. elim s.triggered_events [
    | none ↦ some s
    | some events ↦
        (process_events resolve_module_error s.found events >>= λ f. some (record s { found = f }))
  ]

  -- The property `is_success`.
  unfoldable pub with_success : Receipt → Option Receipt
  unfolding processed
  with_success r = elim r.found.is_success [ none ↦ processed r | some b ↦ some r ]

  -- The property `error_message`.
  unfoldable pub with_message : Receipt → Option Receipt
  unfolding with_success processed
  with_message r = elim r.found.error_message [
    | some m ↦ some r
    | none ↦
        (with_success r >>= λ s. elim s.found.is_success [
          | none ↦ processed s
          | some true ↦ some s
          | some false ↦ processed s
        ])
  ]

  unfoldable pub numbered : Receipt → Option Receipt
  numbered r = elim r.block_number [
    | some n ↦ some r
    | none ↦
        (r.block_hash >>= λ b. get_block_number b >>= λ n. elim n [
          | none ↦ none
          | some k ↦ some (record r { block_number = some k })
        ])
  ]

  -- `get_extrinsic_identifier`: the number of the block and the index, of which the text is made.
  unfoldable pub get_extrinsic_identifier : Receipt → Option (Option ℕ × Option ℕ)
  unfolding numbered with_idx
  get_extrinsic_identifier r =
      numbered r >>= λ s. with_idx s >>= λ t. some (t.block_number, t.extrinsic_idx)

  unfoldable pub receipt_at : ℕ → ℕ → Option Block → Receipt
  receipt_at block_number idx block = record {
    extrinsic_hash = none;
    block_hash = block;
    block_number = some block_number;
    extrinsic_idx = some idx;
    extrinsic = none;
    triggered_events = none;
    found = record {
      is_success = none;
      error_message = none;
      weight = Json.null;
      total_fee_amount = Json.null;
    };
  }

  -- `create_from_extrinsic_identifier`, with the two numbers of the identifier.
  unfoldable pub create_from_extrinsic_identifier : ℕ → ℕ → Option Receipt
  unfolding receipt_at
  create_from_extrinsic_identifier block_number idx =
      get_block_hash block_number >>= λ block. some (receipt_at block_number idx block)

  index_found :
      (l : List Extrinsic) (h : Option Hash) (i j : ℕ)
      → get_extrinsic_index l h i ≡ some j
      → (d : ℕ) × (x : Extrinsic) × (j ≡ i + d) × (nth_of l d ≡ some x) × (has_hash h x ≡ true)
  unfolding get_extrinsic_index nth_of
  index_found [] h i j e = absurd (cc e)
  index_found (x ∷ l) h i j e =
      let ih = index_found l h (i + 1) j in
      elim (Bool-cases (has_hash h x)) [
        | inl here ↦ (0, x, ground arith, refl, here)
        | inr elsewhere ↦
            let (d, y, at, found, same) = ih (rw (elsewhere, get_extrinsic_index) at e) in
            (suc d, y, omega arith, found, same)
      ]

  -- The receipt of an extrinsic whose hash and block are known, in a block that is not empty: once its
  -- events are read without an exception, they are those of the block's events that have the index of
  -- an extrinsic of the block with that hash.
  pub with_events-index :
      (r s : Receipt) (b : Block) (x : Extrinsic) (l : List Extrinsic) (events : List Event)
      → r.block_hash ≡ some b
      → r.extrinsic_idx ≡ none
      → r.triggered_events ≡ none
      → get_block b ≡ some (x ∷ l)
      → get_events b ≡ some events
      → with_events r ≡ some s
      → (i : ℕ) × (y : Extrinsic) × (nth_of (x ∷ l) i ≡ some y)
        × (has_hash r.extrinsic_hash y ≡ true)
        × (s.triggered_events ≡ some (events_of (some i) events))
  unfolding with_events gather located with_idx retrieve_extrinsic select known_index
  with_events-index r s b x l events block idx none_yet extrinsics found e =
      elim (Option-cases (get_extrinsic_index (x ∷ l) r.extrinsic_hash 0)) [
        | inl missing ↦ absurd (ground arith)
        | inr (j, first) ↦
            let (d, y, at, there, same) = index_found (x ∷ l) r.extrinsic_hash 0 j first in
            let j_is : j ≡ d = omega arith in (d, y, there, same, ground arith)
      ]
