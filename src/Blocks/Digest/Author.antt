-- ===== src/Blocks/Digest/Author.antt =====
-- The author of a block (async_substrate_interface/async_substrate.py).
use async_substrate_interfac.Prelude.{
  ℕ, zero, suc, ◌%◌, ◌<◌, ◌≡◌, refl, ap, some, List, [], ◌∷◌, length, inr, ◌⊎◌, arith,
}
use async_substrate_interfac.Prelude.Action.{go_on}
use async_substrate_interfac.Blocks.Digest.{
  Codec, Header, nth_account, account_at, modulo, aura_author, author_of,
}

nth_there : {A : Type 0} (n : ℕ) (l : List A) → n < length l → (a : A) × (nth_account n l ≡ some a)
unfolding nth_account
nth_there n [] h = absurd (omega arith)
nth_there zero (a ∷ l) h = (a, refl)
nth_there (suc n) (a ∷ l) h = nth_there n l (omega arith)

module _ (C : Codec) where
  open C use {World, Error, Runtime, Log, Account}

  aura_lem :
      (r : Runtime) (log : Log) (slot : ℕ) (a : Account) (l : List Account) (w : World)
      → C.aura_slot r log ≡ inr slot
      → aura_author C r log (a ∷ l) w ≡ (w, account_at C (slot % suc (length l)) (a ∷ l))
  unfolding aura_author modulo go_on
  aura_lem r log slot a l w at =
      let last : ℕ → World → World × (Error ⊎ Account) = λ k w1. (w1, account_at C k (a ∷ l)) in
      ap (λ x. go_on (λ n w1. go_on last (w1, modulo C n (suc (length l)))) (w, x)) at

  -- The author by aura: with a validator, the rank of a slot is in range, whatever the slot, and the
  -- author is the validator at the slot's number modulo the number of validators; the calls are the
  -- query alone.
  pub author_of-aura :
      (r : Runtime) (log : Log) (h : Header C) (slot : ℕ) (a : Account) (l : List Account)
      (w w' : World)
      → C.engine log ≡ inr "aura"
      → C.aura_slot r log ≡ inr slot
      → C.validators r h.parent_hash w ≡ (w', inr (a ∷ l))
      → (author : Account) × (nth_account (slot % length (a ∷ l)) (a ∷ l) ≡ some author)
        × (author_of C r log h w ≡ (w', inr author))
  unfolding author_of account_at go_on
  author_of-aura r log h slot a l w w' engine at query =
      let (author, e) = nth_there (slot % suc (length l)) (a ∷ l) (omega arith) in
      (author, e, rw (engine, query, aura_lem r log slot a l w' at, e, account_at) refl)
