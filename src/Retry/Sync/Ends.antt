-- ===== src/Retry/Sync/Ends.antt =====
-- With a finite list of chains the nested calls of `_retry` end.
use async_substrate_interfac.Prelude.{
  ℕ, zero, suc, ◌+◌, ◌<◌, ◌≤◌, ◌≡◌, refl, ◌∙◌, Option, none, some, Bool, true, false, length, List,
  [], ◌∷◌, ◌⊎◌, inl, inr, Bool-cases, arith,
}
use async_substrate_interfac.Retry.{
  Failure, Outcome, returned, raised, once, next_chain, stop_iteration, Base,
}
use async_substrate_interfac.Retry.Sync.{
  catches, use_archive, stopped, take_chain, Object, Run, Moved, moved_to, initialized_by,
  connected_by, move_on, reinstantiate_substrate, call_again, recover, retry,
}

module _ (N : Base) where
  open N use {Url, World, Value, Error, Method, connect, initialize, close, call}

  -- The object's iterators are finite and have at most `k` chains left.
  pub record HasAtMost (k : ℕ) (s : Object N) : Type 0 where
    pub fallback : List Url
    pub archive : List Url
    pub fallback_once : s.fallback_chains ≡ once fallback
    pub archive_once : s.archive_nodes ≡ once archive
    pub few : length fallback + length archive ≤ k

  -- No method adds a chain to the object's iterators.
  abbrev pub IsFrugal : Type 0
  IsFrugal = (m : Method) (s : Object N) (k : ℕ) → HasAtMost k s → HasAtMost k (call m s).0

  abbrev pub RunEnds : ℕ → Run N → Type 0
  RunEnds k r = (s : Object N) × (o : Outcome Value Error) × (r ≡ some (s, o)) × HasAtMost k s

  abbrev MoveEnds : ℕ → Moved N → Type 0
  MoveEnds k r = (s : Object N) × (o : Option (Failure Error)) × (r ≡ some (s, o)) × HasAtMost k s

  weaker : (j k : ℕ) (s : Object N) → j ≤ k → HasAtMost j s → HasAtMost k s
  weaker j k s h f = record {
    fallback = f.fallback;
    archive = f.archive;
    fallback_once = f.fallback_once;
    archive_once = f.archive_once;
    few = let p = f.few in omega arith;
  }

  same_chains :
      (k : ℕ) (s s' : Object N)
      → s'.fallback_chains ≡ s.fallback_chains
      → s'.archive_nodes ≡ s.archive_nodes
      → HasAtMost k s
      → HasAtMost k s'
  same_chains k s s' p q f = record {
    fallback = f.fallback;
    archive = f.archive;
    fallback_once = p ∙ f.fallback_once;
    archive_once = q ∙ f.archive_once;
    few = f.few;
  }

  abbrev Taken : ℕ → Option (Url × Object N) → Type 0
  Taken k t =
      (t ≡ none)
      ⊎ ((u : Url) × (s' : Object N) × (j : ℕ) × (t ≡ some (u, s')) × (j + 1 ≤ k) × HasAtMost j s')

  take_archive :
      (s : Object N) (k : ℕ) (fl al : List Url)
      → s.fallback_chains ≡ once fl
      → s.archive_nodes ≡ once al
      → length fl + length al ≤ k
      → Taken k (take_chain true s)
  unfolding take_chain next_chain
  take_archive s k fl [] e a h = inl (rw a refl)
  take_archive s k fl (u ∷ al) e a h = inr (
    u,
    record s { archive_nodes = once al },
    length fl + length al,
    rw a refl,
    omega arith,
    record {
      fallback = fl;
      archive = al;
      fallback_once = e;
      archive_once = refl;
      few = omega arith;
    },
  )

  take_fallback :
      (s : Object N) (k : ℕ) (fl al : List Url)
      → s.fallback_chains ≡ once fl
      → s.archive_nodes ≡ once al
      → length fl + length al ≤ k
      → Taken k (take_chain false s)
  unfolding take_chain next_chain
  take_fallback s k [] al e a h = inl (rw e refl)
  take_fallback s k (u ∷ fl) al e a h = inr (
    u,
    record s { fallback_chains = once fl },
    length fl + length al,
    rw e refl,
    omega arith,
    record {
      fallback = fl;
      archive = al;
      fallback_once = refl;
      archive_once = a;
      few = omega arith;
    },
  )

  take_chain-cases :
      (archive : Bool) (s : Object N) (k : ℕ) → HasAtMost k s → Taken k (take_chain archive s)
  take_chain-cases true s k f =
      take_archive s k f.fallback f.archive f.fallback_once f.archive_once f.few
  take_chain-cases false s k f =
      take_fallback s k f.fallback f.archive f.fallback_once f.archive_once f.few

  module _ (frugal : IsFrugal) (mock : Bool) where
    initialized-ends : (k : ℕ) (r : Run N) → RunEnds k r → MoveEnds k (initialized_by N r)
    unfolding initialized_by
    initialized-ends k r (s, returned v, e, h) = (s, none, rw e refl, h)
    initialized-ends k r (s, raised x, e, h) = (s, some x, rw e refl, h)

    connected-ends :
        (wrapped : Method → Object N → Run N) (b : Bool) (k : ℕ) (r : Run N)
        → ((m : Method) (s : Object N) → HasAtMost k s → RunEnds k (wrapped m s))
        → RunEnds k r
        → MoveEnds k (connected_by N wrapped b r)
    unfolding connected_by
    connected-ends wrapped b k r ends (s, raised x, e, h) = (s, some x, rw e refl, h)
    connected-ends wrapped true k r ends (s, returned v, e, h) = (
      record s { ws = some v },
      none,
      rw e refl,
      same_chains k s (record s { ws = some v }) refl refl h,
    )
    connected-ends wrapped false k r ends (s, returned v, e, h) =
        let s' : Object N = record s { ws = some v } in
        rw e (
          initialized-ends k (wrapped initialize s')
            (ends initialize s' (same_chains k s s' refl refl h)))

    -- Every nested call ends, once it is given fewer chains.
    reinstantiated-ends :
        (wrapped : Method → Object N → Run N) (x : Failure Error) (k : ℕ) (s : Object N)
        → ((j : ℕ)
            → j + 1 ≤ k
            → (m : Method) (t : Object N) → HasAtMost j t
            → RunEnds j (wrapped m t))
        → HasAtMost k s
        → MoveEnds k (reinstantiate_substrate N wrapped mock x s)
    unfolding reinstantiate_substrate move_on
    reinstantiated-ends wrapped x k s ends h = elim (take_chain-cases (use_archive x) s k h) [
      | inl stuck ↦ (s, some stop_iteration, rw stuck refl, h)
      | inr (u, s', j, taken, fewer, h') ↦
          let t : Object N = moved_to N u s' in
          let (v, o, e, g) =
            connected-ends wrapped mock j (wrapped connect t) (ends j fewer)
              (ends j fewer connect t (unfold moved_to in same_chains j s' t refl refl h')) in
          (v, o, rw taken e, weaker j k v (omega arith) g)
    ]

    again-ends : (m : Method) (k : ℕ) (r : Moved N) → MoveEnds k r → RunEnds k (call_again N m r)
    unfolding call_again
    again-ends m k r (s, none, e, h) =
        ((call m s).0, stopped (call m s).1, rw e refl, frugal m s k h)
    again-ends m k r (s, some x, e, h) = (s, stopped (raised x), rw e refl, h)

    recovered-ends :
        (wrapped : Method → Object N → Run N) (m : Method) (k : ℕ) (s : Object N)
        (o : Outcome Value Error)
        → ((j : ℕ)
            → j + 1 ≤ k
            → (m : Method) (t : Object N) → HasAtMost j t
            → RunEnds j (wrapped m t))
        → HasAtMost k s
        → RunEnds k (recover N wrapped mock m (s, o))
    unfolding recover
    recovered-ends wrapped m k s (returned v) ends h = (s, returned v, refl, h)
    recovered-ends wrapped m k s (raised x) ends h = elim (Bool-cases (catches x)) [
      | inl caught ↦ rw caught (
          again-ends m k (reinstantiate_substrate N wrapped mock x s)
            (reinstantiated-ends wrapped x k s ends h))
      | inr other ↦ rw other (s, raised x, refl, h)
    ]

    retry-ends :
        (fuel k : ℕ) (m : Method) (s : Object N)
        → k < fuel
        → HasAtMost k s
        → RunEnds k (retry N mock fuel m s)
    unfolding retry
    retry-ends zero k m s room h = absurd (omega arith)
    retry-ends (suc fuel) k m s room h =
        recovered-ends (λ m t. retry N mock fuel m t) m k (call m s).0 (call m s).1
          (λ j fewer m t g. retry-ends fuel j m t (omega arith) g) (frugal m s k h)

    -- With finite iterators that hold `k` chains or fewer, and methods that add none to them, a
    -- retried method ends after at most `k` nested retries below its own, and finite iterators
    -- with at most `k` chains are left.
    pub retry-total :
        (k : ℕ) (m : Method) (s : Object N)
        → HasAtMost k s
        → (s' : Object N) × (o : Outcome Value Error) × (retry N mock (k + 1) m s ≡ some (s', o))
          × HasAtMost k s'
    retry-total k m s h = retry-ends (k + 1) k m s (omega arith) h
