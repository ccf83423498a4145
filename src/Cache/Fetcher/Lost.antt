-- ===== src/Cache/Fetcher/Lost.antt =====
-- A future that no task will set, and the operations of a fetcher.
use async_substrate_interfac.Prelude.{ℕ, ◌<◌, ◌≢◌, inl, inr, Bool-cases, some, ℕ_discrete, arith}
use async_substrate_interfac.Prelude.Dict.{lookup, put, lookup-put, lookup-remove}
use async_substrate_interfac.Cache.Lru.{LruCache}
use async_substrate_interfac.Cache.Fetcher.{
  pending, result, is_cancelled, Fetcher, is_pending, cancel, landed, new_future,
}

module _ {Key Value : Type 0} (dk : Discrete Key) where
  -- The future is made, has no result, and is not in flight.
  pub record IsLost (f : ℕ) (s : Fetcher Key Value) : Type 0 where
    pub absent : (k : Key) → lookup dk k s.inflight ≢ some f
    pub below : f < s.next_future
    pub unset : (v : Value) → lookup ℕ_discrete f s.futures ≢ some (result v)

  pub new_future-IsLost :
      (f : ℕ) (s : Fetcher Key Value) (key : Key) → IsLost f s → IsLost f (new_future dk s key)
  unfolding new_future
  new_future-IsLost f s key i = record {
    absent =
        λ k e. ground (arith, lookup-put dk key s.next_future s.inflight k, i.absent k, i.below);
    below = omega (arith, i.below);
    unset =
        λ v e. ground (arith, lookup-put ℕ_discrete s.next_future pending s.futures f, i.unset v);
  }

  pub landed-IsLost :
      (f : ℕ) (s : Fetcher Key Value) (key : Key) → IsLost f s → IsLost f (landed dk s key)
  unfolding landed
  landed-IsLost f s key i = record {
    absent = λ k e. ground (arith, lookup-remove dk key s.inflight k, i.absent k);
    below = i.below;
    unset = i.unset;
  }

  pub set-IsLost :
      (f g : ℕ) (v : Value) (s : Fetcher Key Value)
      → g ≢ f
      → IsLost f s
      → IsLost f (record s { futures = put ℕ_discrete g (result v) s.futures })
  set-IsLost f g v s apart i = record {
    absent = i.absent;
    below = i.below;
    unset = λ u e. ground (arith, lookup-put ℕ_discrete g (result v) s.futures f, i.unset u);
  }

  pub cancel-IsLost : (f g : ℕ) (s : Fetcher Key Value) → IsLost f s → IsLost f (cancel s g)
  unfolding cancel
  cancel-IsLost f g s i = elim (Bool-cases (is_pending (lookup ℕ_discrete g s.futures))) [
    | inr is_done ↦ rw (cancel, is_done) i
    | inl is_open ↦
        rw (cancel, is_open)
          (record {
            absent = i.absent;
            below = i.below;
            unset =
                λ u e. ground (arith, lookup-put ℕ_discrete g is_cancelled s.futures f, i.unset u);
          })
  ]

  pub with_cache-IsLost :
      (f : ℕ) (s : Fetcher Key Value) (c : LruCache Key Value)
      → IsLost f s
      → IsLost f (record s { cache = c })
  with_cache-IsLost f s c i = record { absent = i.absent; below = i.below; unset = i.unset }
