-- ===== src/Cache/Fetcher/Sound.antt =====
-- What holds of the futures in flight, and the operations of a fetcher keep.
use async_substrate_interfac.Prelude.{
  ℕ, ◌<◌, ◌≡◌, ◌≢◌, refl, inl, inr, Bool-cases, some, ℕ_discrete, arith,
}
use async_substrate_interfac.Prelude.Dict.{lookup, put, lookup-put, lookup-remove}
use async_substrate_interfac.Cache.Lru.{LruCache}
use async_substrate_interfac.Cache.Fetcher.{
  Future, pending, result, is_cancelled, Fetcher, is_pending, cancel, landed, new_future,
}

module _ {Key Value : Type 0} (dk : Discrete Key) where
  -- What is in flight: no future twice, and none that has a result.
  pub record IsSound (s : Fetcher Key Value) : Type 0 where
    pub distinct :
        (k k' : Key) (f : ℕ)
        → lookup dk k s.inflight ≡ some f
        → lookup dk k' s.inflight ≡ some f
        → k ≡ k'
    pub below : (k : Key) (f : ℕ) → lookup dk k s.inflight ≡ some f → f < s.next_future
    pub unset :
        (k : Key) (f : ℕ) (v : Value)
        → lookup dk k s.inflight ≡ some f
        → lookup ℕ_discrete f s.futures ≢ some (result v)

  pub new_future-IsSound :
      (s : Fetcher Key Value) (key : Key) → IsSound s → IsSound (new_future dk s key)
  unfolding new_future
  new_future-IsSound s key i = record {
    distinct = λ k k' f h h'. ground (
      arith,
      lookup-put dk key s.next_future s.inflight k,
      lookup-put dk key s.next_future s.inflight k',
      i.distinct k k' f,
      i.below k f,
      i.below k' f,
    );
    below = λ k f h. ground (arith, lookup-put dk key s.next_future s.inflight k, i.below k f);
    unset = λ k f v h e. ground (
      arith,
      lookup-put dk key s.next_future s.inflight k,
      lookup-put ℕ_discrete s.next_future pending s.futures f,
      i.below k f,
      i.unset k f v,
    );
  }

  pub landed-IsSound : (s : Fetcher Key Value) (key : Key) → IsSound s → IsSound (landed dk s key)
  unfolding landed
  landed-IsSound s key i = record {
    distinct = λ k k' f h h'. ground (
      arith,
      lookup-remove dk key s.inflight k,
      lookup-remove dk key s.inflight k',
      i.distinct k k' f,
    );
    below = λ k f h. ground (arith, lookup-remove dk key s.inflight k, i.below k f);
    unset = λ k f v h e. ground (arith, lookup-remove dk key s.inflight k, i.unset k f v);
  }

  -- A future that is set or cancelled, and no longer in flight.
  pub settled-IsSound :
      (s : Fetcher Key Value) (key : Key) (f : ℕ) (x : Future Value)
      → IsSound s
      → lookup dk key s.inflight ≡ some f
      → IsSound (landed dk (record s { futures = put ℕ_discrete f x s.futures }) key)
  unfolding landed
  settled-IsSound s key f x i there = record {
    distinct = λ k k' g h h'. ground (
      arith,
      lookup-remove dk key s.inflight k,
      lookup-remove dk key s.inflight k',
      i.distinct k k' g,
    );
    below = λ k g h. ground (arith, lookup-remove dk key s.inflight k, i.below k g);
    unset = λ k g v h e. ground (
      arith,
      lookup-remove dk key s.inflight k,
      lookup-put ℕ_discrete f x s.futures g,
      i.distinct k key g,
      i.unset k g v,
    );
  }

  pub with_cache-IsSound :
      (s : Fetcher Key Value) (c : LruCache Key Value)
      → IsSound s
      → IsSound (record s { cache = c })
  with_cache-IsSound s c i = record { distinct = i.distinct; below = i.below; unset = i.unset }

  pub cancel-inflight : (s : Fetcher Key Value) (f : ℕ) → (cancel s f).inflight ≡ s.inflight
  unfolding cancel
  cancel-inflight s f = elim (Bool-cases (is_pending (lookup ℕ_discrete f s.futures))) [
    | inr is_done ↦ rw (cancel, is_done) refl
    | inl is_open ↦ rw (cancel, is_open) refl
  ]

  pub cancel-IsSound : (s : Fetcher Key Value) (f : ℕ) → IsSound s → IsSound (cancel s f)
  unfolding cancel
  cancel-IsSound s f i = elim (Bool-cases (is_pending (lookup ℕ_discrete f s.futures))) [
    | inr is_done ↦ rw (cancel, is_done) i
    | inl is_open ↦
        rw (cancel, is_open)
          (record {
            distinct = i.distinct;
            below = i.below;
            unset = λ k g v h e.
                ground (arith, lookup-put ℕ_discrete f is_cancelled s.futures g, i.unset k g v);
          })
  ]
