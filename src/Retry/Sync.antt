-- ===== src/Retry/Sync.antt =====
-- RetrySyncSubstrate of async_substrate_interface/substrate_addons.py: `_retry` and
-- `_reinstantiate_substrate`. `connect` and `initialize` are themselves retried methods, so each
-- level of fuel is one `_retry` inside another.
pub mod Ends
pub mod Fallback
pub mod Create
use async_substrate_interfac.Prelude.{
  ℕ, zero, suc, Option, none, some, Bool, true, false, if◌then◌else◌,
}
use async_substrate_interfac.Retry.{
  Failure, max_retries_exceeded, connection_error, eof_error, connection_closed, timeout_error,
  gai_error, state_discarded, stop_iteration, Outcome, returned, raised, Chains, next_chain,
  Substrate, Base,
}

-- The exceptions that `_retry` catches.
unfoldable pub catches : {Error : Type 0} → Failure Error → Bool
catches max_retries_exceeded = true
catches connection_error = true
catches eof_error = true
catches connection_closed = true
catches timeout_error = true
catches gai_error = true
catches state_discarded = true
catches _ = false

unfoldable pub use_archive : {Error : Type 0} → Failure Error → Bool
use_archive state_discarded = true
use_archive _ = false

-- `except StopIteration`
unfoldable pub stopped : {Value Error : Type 0} → Outcome Value Error → Outcome Value Error
stopped (raised stop_iteration) = raised max_retries_exceeded
stopped o = o

unfoldable pub take_chain :
    {Url World Value : Type 0}
    → Bool
    → Substrate Url World Value
    → Option (Url × Substrate Url World Value)
unfolding next_chain
take_chain true s = elim (next_chain s.archive_nodes) [
  | none ↦ none
  | some (u, c) ↦ some (u, record s { archive_nodes = c })
]
take_chain false s = elim (next_chain s.fallback_chains) [
  | none ↦ none
  | some (u, c) ↦ some (u, record s { fallback_chains = c })
]

module _ (N : Base) where
  open N use {Url, World, Value, Error, Method, connect, initialize, close, call}

  abbrev pub Object : Type 0
  Object = Substrate Url World Value

  -- What a method ends with; `none` says that the fuel ran out.
  abbrev pub Run : Type 0
  Run = Option (Object × Outcome Value Error)

  -- What `_reinstantiate_substrate` ends with: an exception, or nothing.
  abbrev pub Moved : Type 0
  Moved = Option (Object × Option (Failure Error))

  unfoldable pub moved_to : Url → Object → Object
  moved_to u s = record s {
    world = close s.world;
    url = u;
    chain_endpoint = u;
    initialized = false;
  }

  unfoldable pub initialized_by : Run → Moved
  initialized_by none = none
  initialized_by (some (s, returned _)) = some (s, none)
  initialized_by (some (s, raised e)) = some (s, some e)

  unfoldable pub connected_by : (Method → Object → Run) → Bool → Run → Moved
  unfolding initialized_by
  connected_by wrapped mock none = none
  connected_by wrapped mock (some (s, raised e)) = some (s, some e)
  connected_by wrapped true (some (s, returned ws)) = some (record s { ws = some ws }, none)
  connected_by wrapped false (some (s, returned ws)) =
      initialized_by (wrapped initialize (record s { ws = some ws }))

  unfoldable pub move_on : (Method → Object → Run) → Bool → Object → Option (Url × Object) → Moved
  unfolding connected_by moved_to
  move_on wrapped mock s none = some (s, some stop_iteration)
  move_on wrapped mock s (some (u, s')) =
      connected_by wrapped mock (wrapped connect (moved_to u s'))

  -- `wrapped` is `_retry`, as bound to the object for each method.
  unfoldable pub reinstantiate_substrate :
      (Method → Object → Run) → Bool → Failure Error → Object → Moved
  unfolding move_on take_chain use_archive
  reinstantiate_substrate wrapped mock e s = move_on wrapped mock s (take_chain (use_archive e) s)

  -- The second call of the method.
  unfoldable pub call_again : Method → Moved → Run
  unfolding stopped
  call_again method none = none
  call_again method (some (s, some e)) = some (s, stopped (raised e))
  call_again method (some (s, none)) = some ((call method s).0, stopped (call method s).1)

  unfoldable pub recover :
      (Method → Object → Run) → Bool → Method → Object × Outcome Value Error → Run
  unfolding call_again reinstantiate_substrate catches
  recover wrapped mock method (s, returned v) = some (s, returned v)
  recover wrapped mock method (s, raised e) =
      if catches e
      then call_again method (reinstantiate_substrate wrapped mock e s)
      else some (s, raised e)

  unfoldable pub retry : Bool → ℕ → Method → Object → Run
  unfolding recover
  retry mock zero method s = none
  retry mock (suc fuel) method s = recover (λ m t. retry mock fuel m t) mock method (call method s)
