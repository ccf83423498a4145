-- ===== src/Retry/Async/Raises.antt =====
-- What RetryAsyncSubstrate raises when the chains are used up.
use async_substrate_interfac.Prelude.{
  ℕ, zero, suc, ◌≡◌, refl, ap, ◌∙◌, Option, none, some, Bool, true, false, not, [], inl, inr,
  Bool-cases, arith,
}
use async_substrate_interfac.Retry.{
  Failure, max_retries_exceeded, connection_error, eof_error, connection_closed, timeout_error,
  gai_error, state_discarded, runtime_error, other, stop_iteration, Outcome, returned, raised, once,
  next_chain,
}
use async_substrate_interfac.Retry.Sync.{use_archive, stopped, take_chain, Object, Run, Moved}
use async_substrate_interfac.Retry.Async.{
  catches, leaving, awaited, AsyncBase, moved_to, initialized_by, move_on, reinstantiate_substrate,
  call_again, recover, retry,
}

-- What `_retry` catches is never a StopIteration.
leaving-catches : {Error : Type 0} (x : Failure Error) → catches x ≡ true → leaving x ≡ x
unfolding leaving catches
leaving-catches max_retries_exceeded h = refl
leaving-catches connection_error h = refl
leaving-catches eof_error h = refl
leaving-catches connection_closed h = refl
leaving-catches timeout_error h = refl
leaving-catches gai_error h = refl
leaving-catches state_discarded h = refl
leaving-catches stop_iteration h = absurd (cc h)
leaving-catches runtime_error h = refl
leaving-catches (other e) h = refl

unfoldable pub is_max : {Error : Type 0} → Failure Error → Bool
is_max max_retries_exceeded = true
is_max _ = false

is_max-leaving : {Error : Type 0} (x : Failure Error) → is_max (leaving x) ≡ is_max x
unfolding is_max leaving
is_max-leaving max_retries_exceeded = refl
is_max-leaving connection_error = refl
is_max-leaving eof_error = refl
is_max-leaving connection_closed = refl
is_max-leaving timeout_error = refl
is_max-leaving gai_error = refl
is_max-leaving state_discarded = refl
is_max-leaving stop_iteration = refl
is_max-leaving runtime_error = refl
is_max-leaving (other e) = refl

-- `except StopIteration` never catches what a coroutine raises.
pub stopped-leaving :
    {Error : Type 0} (Value : Type 0) (x : Failure Error)
    → stopped {Value = Value} (raised (leaving x)) ≡ raised (leaving x)
unfolding stopped leaving
stopped-leaving Value max_retries_exceeded = refl
stopped-leaving Value connection_error = refl
stopped-leaving Value eof_error = refl
stopped-leaving Value connection_closed = refl
stopped-leaving Value timeout_error = refl
stopped-leaving Value gai_error = refl
stopped-leaving Value state_discarded = refl
stopped-leaving Value stop_iteration = refl
stopped-leaving Value runtime_error = refl
stopped-leaving Value (other e) = refl

-- Not a MaxRetriesExceeded.
unfoldable pub is_quiet : {Value Error : Type 0} → Outcome Value Error → Bool
unfolding is_max
is_quiet (returned v) = true
is_quiet (raised x) = not (is_max x)

is_quiet-awaited :
    {Value Error : Type 0} (o : Outcome Value Error) → is_quiet (awaited o) ≡ is_quiet o
unfolding is_quiet awaited
is_quiet-awaited (returned v) = refl
is_quiet-awaited (raised x) = ap not (is_max-leaving x)

stopped-awaited : {Value Error : Type 0} (o : Outcome Value Error) → stopped (awaited o) ≡ awaited o
unfolding awaited
stopped-awaited (returned v) = unfold stopped in refl
stopped-awaited {Value} (raised x) = stopped-leaving Value x

module _ (N : AsyncBase) where
  open N use {base}
  open base use {Url, Value, Error, Method, initialize, call}

  -- With no fallback chain left, a lost connection ends in a RuntimeError.
  pub retry-exhausted :
      (fuel : ℕ) (method : Method) (s s1 : Object base) (x : Failure Error)
      → call method s ≡ (s1, raised x)
      → catches x ≡ true
      → use_archive x ≡ false
      → s1.fallback_chains ≡ once []
      → retry N (suc fuel) method s ≡ some (s1, raised runtime_error)
  unfolding retry recover reinstantiate_substrate take_chain next_chain move_on call_again stopped
      awaited
  retry-exhausted fuel method s s1 x fails caught a e =
      rw (fails, leaving-catches x caught, caught, a, e) refl

  -- Where a run ends, it ends without a MaxRetriesExceeded.
  pub QuietRun : Run base → Type 0
  QuietRun none = true ≡ true
  QuietRun (some (s, o)) = is_quiet o ≡ true

  QuietMove : Moved base → Type 0
  QuietMove none = true ≡ true
  QuietMove (some (s, none)) = true ≡ true
  QuietMove (some (s, some x)) = (y : Failure Error) × (x ≡ leaving y) × (is_max y ≡ false)

  module _ (honest : (m : Method) (s : Object base) → is_quiet (call m s).1 ≡ true) where
    initialized-quiet : (r : Run base) → QuietRun r → QuietMove (initialized_by N r)
    unfolding initialized_by QuietRun QuietMove is_quiet
    initialized-quiet none q = refl
    initialized-quiet (some (t, returned v)) q = refl
    initialized-quiet (some (t, raised y)) q = (y, refl, ground arith)

    again-quiet : (m : Method) (r : Moved base) → QuietMove r → QuietRun (call_again N m r)
    unfolding call_again QuietRun QuietMove
    again-quiet m none q = refl
    again-quiet m (some (t, none)) q =
        let o = (call m t).1 in rw (stopped-awaited o, is_quiet-awaited o) (honest m t)
    again-quiet m (some (t, some x)) (y, e, h) =
        rw (e, stopped-leaving Value y) (unfold is_quiet in rw (is_max-leaving y, h) refl)

    moved-quiet :
        (wrapped : Method → Object base → Run base) (s : Object base)
        (next : Option (Url × Object base))
        → ((m : Method) (t : Object base) → QuietRun (wrapped m t))
        → QuietMove (move_on N wrapped s next)
    unfolding move_on
    moved-quiet wrapped s none quiet =
        unfold QuietMove in (stop_iteration, refl, unfold is_max in refl)
    moved-quiet wrapped s (some (u, s')) quiet =
        let t : Object base = moved_to N u s' in
        initialized-quiet (wrapped initialize t) (quiet initialize t)

    recovered-quiet :
        (wrapped : Method → Object base → Run base) (m : Method) (s : Object base)
        (o : Outcome Value Error)
        → ((m : Method) (t : Object base) → QuietRun (wrapped m t))
        → is_quiet o ≡ true
        → QuietRun (recover N wrapped m (s, o))
    unfolding recover
    recovered-quiet wrapped m s (returned v) quiet q = unfold QuietRun in q
    recovered-quiet wrapped m s (raised x) quiet q = elim (Bool-cases (catches x)) [
      | inl caught ↦ rw caught (
          again-quiet m (reinstantiate_substrate N wrapped x s) (
            unfold reinstantiate_substrate in
            moved-quiet wrapped s (take_chain (use_archive x) s) quiet))
      | inr uncaught ↦ rw uncaught (unfold QuietRun in q)
    ]

    -- Unless a method raises MaxRetriesExceeded itself, `_retry` never does.
    pub retry-QuietRun : (fuel : ℕ) (m : Method) (s : Object base) → QuietRun (retry N fuel m s)
    unfolding retry
    retry-QuietRun zero m s = unfold QuietRun in refl
    retry-QuietRun (suc fuel) m s =
        let o = (call m s).1 in
        recovered-quiet (λ m t. retry N fuel m t) m (call m s).0 (awaited o)
          (λ m t. retry-QuietRun fuel m t) (is_quiet-awaited o ∙ honest m s)
