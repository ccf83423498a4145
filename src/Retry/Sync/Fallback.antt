-- ===== src/Retry/Sync/Fallback.antt =====
-- Which chain a retried method ends on, and what happens when every chain is down.
use async_substrate_interfac.Prelude.{
  ℕ, zero, suc, ◌≤◌, ◌<◌, ◌≡◌, refl, ap, ◌∙◌, Option, none, some, Bool, true, false, length, List,
  [], ◌∷◌, inl, inr, Bool-cases, arith, if◌then◌else◌,
}
use async_substrate_interfac.Retry.{
  Failure, returned, raised, once, cycle, next_chain, start_round, stop_iteration, connection_error,
  max_retries_exceeded, Base,
}
use async_substrate_interfac.Retry.Sync.{
  catches, use_archive, stopped, take_chain, Object, Run, Moved, moved_to, initialized_by,
  connected_by, move_on, reinstantiate_substrate, call_again, recover, retry,
}

-- The first of the chains that is up.
unfoldable pub first_up : {Url : Type 0} → (Url → Bool) → List Url → Option Url
first_up up [] = none
first_up up (u ∷ l) = if up u then some u else first_up up l

first_up-up :
    {Url : Type 0} (up : Url → Bool) (l : List Url) (u : Url) → first_up up l ≡ some u → up u ≡ true
unfolding first_up
first_up-up up [] u e = cc
first_up-up up (v ∷ l) u e = ground (arith, first_up-up up l u)

module _ (N : Base) where
  open N use {Url, World, Value, Error, Method, connect, initialize, close, call}

  -- `connect` gives a connection exactly where the object's chain is up, `initialize` succeeds,
  -- and neither touches the iterators or the address.
  pub record Connects (up : Url → Bool) (connection : Url → Value) : Type 0 where
    pub connect_call :
        (s : Object N)
        → call connect s
          ≡ (s, if up s.url then returned (connection s.url) else raised connection_error)
    pub initialize_call :
        (s : Object N)
        → (v : Value) × (call initialize s ≡ (record s { initialized = true }, returned v))

  -- Where `_reinstantiate_substrate` ends: with the address of the chain, or, without a chain, with
  -- an exception that `_retry` turns into MaxRetriesExceeded.
  pub Lands : Moved N → Option Url → Type 0
  Lands r none =
      (s : Object N) × (x : Failure Error) × (r ≡ some (s, some x))
      × (stopped {Value = Value} (raised x) ≡ raised max_retries_exceeded)
  Lands r (some u) = (s : Object N) × (r ≡ some (s, none)) × (s.url ≡ u)

  -- What a retried method ends with: its result at the chain, or MaxRetriesExceeded without one.
  unfoldable pub EndsOn : Method → Run N → Option Url → Type 0
  EndsOn method r none = (s : Object N) × (r ≡ some (s, raised max_retries_exceeded))
  EndsOn method r (some u) =
      (s : Object N) × (s.url ≡ u) × (r ≡ some ((call method s).0, stopped (call method s).1))

  module _ (up : Url → Bool) (connection : Url → Value) (works : Connects up connection)
      (mock : Bool) where
    abbrev wrapped : ℕ → Method → Object N → Run N
    wrapped fuel m t = retry N mock fuel m t

    after_initialize :
        (fuel : ℕ) (s : Object N)
        → (s' : Object N) × (initialized_by N (retry N mock (suc fuel) initialize s)
            ≡ some (s', none))
          × (s'.url ≡ s.url)
    unfolding retry recover initialized_by
    after_initialize fuel s =
        let (v, e) = works.initialize_call s in (record s { initialized = true }, rw e refl, refl)

    after_connect :
        (b : Bool) (fuel : ℕ) (s : Object N) (v : Value) (u : Url)
        → s.url ≡ u
        → (s' : Object N) × (connected_by N (wrapped (suc fuel)) b (some (s, returned v))
            ≡ some (s', none))
          × (s'.url ≡ u)
    unfolding connected_by wrapped
    after_connect true fuel s v u p = (record s { ws = some v }, refl, p)
    after_connect false fuel s v u p =
        let (s', e, q) = after_initialize fuel (record s { ws = some v }) in (s', e, q ∙ p)

    -- The next chain is down: what the retry inside lands on is what this one lands on.
    passed_on :
        (fuel : ℕ) (o : Option Url) (r : Moved N)
        → ((u : Url) → o ≡ some u → up u ≡ true)
        → Lands r o
        → Lands (connected_by N (wrapped (suc fuel)) mock (call_again N connect r)) o
    unfolding call_again connected_by Lands
    passed_on fuel none r h (s, x, e, st) =
        (s, max_retries_exceeded, rw (e, st) refl, unfold stopped in refl)
    passed_on fuel (some u) r h (s, e, p) =
        let again : call_again N connect r ≡ some (s, returned (connection s.url)) =
          rw (e, works.connect_call s, p, h u refl) (unfold call_again stopped in refl) in
        rw again (after_connect mock fuel s (connection s.url) u p)

    next_address : Url → List Url → Object N → Object N
    next_address u l s = moved_to N u (record s { fallback_chains = once l })

    -- What `_reinstantiate_substrate` does with one chain more.
    step :
        (fuel : ℕ) (x : Failure Error) (u : Url) (l : List Url) (s : Object N)
        → use_archive x ≡ false
        → s.fallback_chains ≡ once (u ∷ l)
        → reinstantiate_substrate N (wrapped (suc fuel)) mock x s
          ≡ connected_by N (wrapped (suc fuel)) mock (
              recover N (wrapped fuel) mock connect (
                next_address u l s,
                if up u then returned (connection u) else raised connection_error,
              ))
    unfolding reinstantiate_substrate take_chain next_chain move_on moved_to next_address wrapped
        retry
    step fuel x u l s a e = rw (a, e, works.connect_call (next_address u l s)) refl

    down-Lands :
        (fuel : ℕ) (t : Object N) (o : Option Url)
        → ((u : Url) → o ≡ some u → up u ≡ true)
        → Lands (reinstantiate_substrate N (wrapped fuel) mock connection_error t) o
        → Lands
            (connected_by N
              (wrapped (suc fuel))
              mock
              (recover N (wrapped fuel) mock connect (t, raised connection_error)))
            o
    unfolding recover catches
    down-Lands fuel t o =
        passed_on fuel o (reinstantiate_substrate N (wrapped fuel) mock connection_error t)

    address_chains :
        (u : Url) (l : List Url) (s : Object N) → (next_address u l s).fallback_chains ≡ once l
    unfolding next_address moved_to
    address_chains u l s = refl

    landed :
        (fuel : ℕ) (x : Failure Error) (l : List Url) (s : Object N)
        → use_archive x ≡ false
        → s.fallback_chains ≡ once l
        → length l ≤ fuel
        → Lands (reinstantiate_substrate N (wrapped fuel) mock x s) (first_up up l)
    unfolding first_up
    landed fuel x [] s a e room =
        unfold reinstantiate_substrate take_chain next_chain move_on Lands in
        (s, stop_iteration, rw (a, e) refl, unfold stopped in refl)
    landed zero x (u ∷ l) s a e room = absurd (omega arith)
    landed (suc fuel) x (u ∷ l) s a e room =
        let t : Object N = next_address u l s in
        let rest =
          landed fuel connection_error l t (unfold use_archive in refl) (address_chains u l s)
            (omega arith) in
        elim (Bool-cases (up u)) [
          | inl is_up ↦
              rw (step fuel x u l s a e, is_up)
                (unfold recover moved_to next_address Lands in
                  after_connect mock fuel t (connection u) u refl)
          | inr down ↦
              rw (step fuel x u l s a e, down)
                (down-Lands fuel t (first_up up l) (first_up-up up l) rest)
        ]

    called_on :
        (method : Method) (o : Option Url) (r : Moved N)
        → Lands r o
        → EndsOn method (call_again N method r) o
    unfolding call_again Lands EndsOn
    called_on method none r (s, x, e, st) = (s, rw (e, st) refl)
    called_on method (some u) r (s, e, p) = (s, p, rw e refl)

    -- Without `retry_forever`, so that the iterator of the fallback chains is that of a finite list,
    -- and where `connect` succeeds exactly on a chain that is up, `initialize` always succeeds, and
    -- neither touches the iterators or the address, a method that fails by a lost connection, which
    -- does not ask for an archive, is called again at the first chain of that list that is up, or,
    -- with none of them up, `_retry` raises MaxRetriesExceeded. More fuel than there are chains is
    -- enough.
    pub retry-first_up :
        (fuel : ℕ) (method : Method) (l : List Url) (s s1 : Object N) (x : Failure Error)
        → length l < fuel
        → call method s ≡ (s1, raised x)
        → catches x ≡ true
        → use_archive x ≡ false
        → s1.fallback_chains ≡ once l
        → EndsOn method (retry N mock fuel method s) (first_up up l)
    unfolding retry recover
    retry-first_up zero method l s s1 x room fails caught a e = absurd (omega arith)
    retry-first_up (suc fuel) method l s s1 x room fails caught a e =
        rw (fails, caught)
          (called_on method (first_up up l) (reinstantiate_substrate N (wrapped fuel) mock x s1)
            (landed fuel x l s1 a e (omega arith)))

    -- `next` of a cycle of fallback chains always has a chain.
    next_of_cycle :
        (u : Url) (all rest : List Url)
        → (v : Url) × (r : List Url) × (next_chain (cycle (u ∷ all) rest)
            ≡ some (v, cycle (u ∷ all) r))
    unfolding next_chain start_round
    next_of_cycle u all [] = (u, all, refl)
    next_of_cycle u all (v ∷ r) = (v, r, refl)

    cycled :
        (fuel : ℕ) (u v : Url) (all rest r : List Url) (x : Failure Error) (s : Object N)
        → use_archive x ≡ false
        → s.fallback_chains ≡ cycle (u ∷ all) rest
        → next_chain (cycle (u ∷ all) rest) ≡ some (v, cycle (u ∷ all) r)
        → reinstantiate_substrate N (wrapped fuel) mock x s
          ≡ connected_by N (wrapped fuel) mock (
              retry N mock fuel connect
                (moved_to N v (record s { fallback_chains = cycle (u ∷ all) r })))
    unfolding reinstantiate_substrate take_chain move_on
    cycled fuel u v all rest r x s a e taken =
        let first : next_chain s.fallback_chains ≡ some (v, cycle (u ∷ all) r) =
          ap next_chain e ∙ taken in
        rw a (rw (first, take_chain) refl)

    stays_down :
        (fuel : ℕ) (t : Object N)
        → up t.url ≡ false
        → reinstantiate_substrate N (wrapped fuel) mock connection_error t ≡ none
        → connected_by N (wrapped (suc fuel)) mock (retry N mock (suc fuel) connect t) ≡ none
    unfolding retry recover catches call_again connected_by
    stays_down fuel t down stuck = rw (works.connect_call t, down) (rw stuck refl)

    down_for_good :
        (fuel : ℕ) (u : Url) (all rest : List Url) (x : Failure Error) (s : Object N)
        → ((v : Url) → up v ≡ false)
        → use_archive x ≡ false
        → s.fallback_chains ≡ cycle (u ∷ all) rest
        → reinstantiate_substrate N (wrapped fuel) mock x s ≡ none
    down_for_good zero u all rest x s down a e =
        let (v, r, taken) = next_of_cycle u all rest in
        cycled zero u v all rest r x s a e taken ∙ unfold retry connected_by in refl
    down_for_good (suc fuel) u all rest x s down a e =
        let (v, r, taken) = next_of_cycle u all rest in
        let t : Object N = moved_to N v (record s { fallback_chains = cycle (u ∷ all) r }) in
        let stuck =
          down_for_good fuel u all r connection_error t down (unfold use_archive in refl)
            (unfold moved_to in refl) in
        cycled (suc fuel) u v all rest r x s a e taken ∙ stays_down fuel t (down t.url) stuck

    -- With `retry_forever`, which makes the fallback chains a cycle, and `connect` failing on every
    -- chain, the retries of a method that lost its connection never end, whatever the fuel.
    pub retry-all_down :
        (fuel : ℕ) (method : Method) (u : Url) (all rest : List Url) (s s1 : Object N)
        (x : Failure Error)
        → ((v : Url) → up v ≡ false)
        → call method s ≡ (s1, raised x)
        → catches x ≡ true
        → use_archive x ≡ false
        → s1.fallback_chains ≡ cycle (u ∷ all) rest
        → retry N mock fuel method s ≡ none
    unfolding retry recover call_again
    retry-all_down zero method u all rest s s1 x down fails caught a e = refl
    retry-all_down (suc fuel) method u all rest s s1 x down fails caught a e =
        rw (fails, caught) (rw (down_for_good fuel u all rest x s1 down a e) refl)
