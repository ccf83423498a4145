-- ===== src/Retry/Async.antt =====
-- RetryAsyncSubstrate of async_substrate_interface/substrate_addons.py: `_retry` and
-- `_reinstantiate_substrate`, which are coroutines, as the methods are. A StopIteration that leaves
-- a coroutine is a RuntimeError outside. Each level of fuel is one `_retry` inside another.
pub mod Raises
use async_substrate_interfac.Prelude.{
  ℕ, zero, suc, Option, none, some, Bool, true, false, if◌then◌else◌,
}
use async_substrate_interfac.Retry.{
  Failure, max_retries_exceeded, connection_error, eof_error, connection_closed, gai_error,
  state_discarded, stop_iteration, runtime_error, Outcome, returned, raised, Substrate, Base,
}
use async_substrate_interfac.Retry.Sync.{use_archive, stopped, take_chain, Object, Run, Moved}

-- The exceptions that `_retry` catches.
unfoldable pub catches : {Error : Type 0} → Failure Error → Bool
catches max_retries_exceeded = true
catches connection_error = true
catches connection_closed = true
catches eof_error = true
catches gai_error = true
catches state_discarded = true
catches _ = false

-- What `await` of a coroutine raises, by what its body raises.
unfoldable pub leaving : {Error : Type 0} → Failure Error → Failure Error
leaving stop_iteration = runtime_error
leaving e = e

unfoldable pub awaited : {Value Error : Type 0} → Outcome Value Error → Outcome Value Error
unfolding leaving
awaited (returned v) = returned v
awaited (raised e) = raised (leaving e)

-- What the asynchronous base class has besides: the shutdown of the websocket, the cancellation of
-- its tasks, and the websocket for an address, which is not connected yet.
pub record AsyncBase : Type 1 where
  pub base : Base
  pub shutdown : base.World → base.World
  pub cancel_tasks : base.World → base.World
  pub websocket : base.Url → base.Value

module _ (N : AsyncBase) where
  open N use {base, shutdown, cancel_tasks, websocket}
  open base use {Url, World, Value, Error, Method, initialize, call}

  unfoldable pub moved_to : Url → Object base → Object base
  moved_to u s = record s {
    world = cancel_tasks (shutdown s.world);
    chain_endpoint = u;
    url = u;
    ws = some (websocket u);
    initialized = false;
    initializing = false;
  }

  unfoldable pub initialized_by : Run base → Moved base
  unfolding leaving
  initialized_by none = none
  initialized_by (some (s, returned _)) = some (s, none)
  initialized_by (some (s, raised e)) = some (s, some (leaving e))

  unfoldable pub move_on :
      (Method → Object base → Run base) → Object base → Option (Url × Object base) → Moved base
  unfolding initialized_by moved_to leaving
  move_on wrapped s none = some (s, some (leaving stop_iteration))
  move_on wrapped s (some (u, s')) = initialized_by (wrapped initialize (moved_to u s'))

  -- `wrapped` is `_retry`, as bound to the object for each method.
  unfoldable pub reinstantiate_substrate :
      (Method → Object base → Run base) → Failure Error → Object base → Moved base
  unfolding move_on take_chain use_archive
  reinstantiate_substrate wrapped e s = move_on wrapped s (take_chain (use_archive e) s)

  -- The second call of the method.
  unfoldable pub call_again : Method → Moved base → Run base
  unfolding stopped awaited
  call_again method none = none
  call_again method (some (s, some e)) = some (s, stopped (raised e))
  call_again method (some (s, none)) = some ((call method s).0, stopped (awaited (call method s).1))

  unfoldable pub recover :
      (Method → Object base → Run base) → Method → Object base × Outcome Value Error → Run base
  unfolding call_again reinstantiate_substrate catches
  recover wrapped method (s, returned v) = some (s, returned v)
  recover wrapped method (s, raised e) =
      if catches e
      then call_again method (reinstantiate_substrate wrapped e s)
      else some (s, raised e)

  unfoldable pub retry : ℕ → Method → Object base → Run base
  unfolding recover awaited
  retry zero method s = none
  retry (suc fuel) method s =
      recover (λ m t. retry fuel m t) method ((call method s).0, awaited (call method s).1)
