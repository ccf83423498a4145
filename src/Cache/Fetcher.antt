-- ===== src/Cache/Fetcher.antt =====
-- class CachedFetcher of async_substrate_interface/utils/cache.py, and the tasks that call it: what a
-- task runs between two awaits is one step. Keys, results, exceptions and the test of a result are
-- parameters.
pub mod Sound
pub mod Single
pub mod Lost
pub mod Orphan
mod Tests
use async_substrate_interfac.Prelude.{
  ℕ, zero, suc, ◌≡◌, Bool, true, false, Option, none, some, List, [], ◌∷◌, if◌then◌else◌, ite,
  ℕ_discrete,
}
use async_substrate_interfac.Prelude.Dict.{lookup, put, remove}
use async_substrate_interfac.Cache.Lru.{LruCache, get, set}

-- asyncio.Future: nothing sets an exception here.
pub data Future (Value : Type 0) : Type 0 where
  pending : Future Value
  result : Value → Future Value
  is_cancelled : Future Value

-- What the method of a fetcher ends with; `interrupted` is a CancelledError, which is no Exception.
pub data Ended (Value Error : Type 0) : Type 0 where
  gives : Value → Ended Value Error
  fails : Error → Ended Value Error
  interrupted : Ended Value Error

-- Where a task is: not begun, in the method or at a future that another task has made, or at its end.
pub data Place (Key Value Error : Type 0) : Type 0 where
  idle : Place Key Value Error
  fetching : Key → ℕ → Place Key Value Error
  waiting : Key → ℕ → Place Key Value Error
  returned : Value → Place Key Value Error
  raised : Error → Place Key Value Error
  cancelled : Place Key Value Error
  invalid_state : Place Key Value Error

-- `futures` are all that were made, by their numbers.
pub record Fetcher (Key Value : Type 0) : Type 0 where
  pub cache : LruCache Key Value
  pub inflight : List (Key × ℕ)
  pub futures : List (ℕ × Future Value)
  pub next_future : ℕ

pub record World (Key Value Error : Type 0) : Type 0 where
  pub fetcher : Fetcher Key Value
  pub tasks : ℕ → Place Key Value Error

-- `if item := self._cache.get(key)`
unfoldable pub cached : {Value : Type 0} → (Value → Bool) → Option Value → Option Value
cached truthy none = none
cached truthy (some v) = if truthy v then some v else none

unfoldable pub is_pending : {Value : Type 0} → Option (Future Value) → Bool
is_pending (some pending) = true
is_pending _ = false

-- `future.cancel()`, which leaves a future that is done.
unfoldable pub cancel : {Key Value : Type 0} → Fetcher Key Value → ℕ → Fetcher Key Value
unfolding lookup put is_pending
cancel s f =
    if is_pending (lookup ℕ_discrete f s.futures)
    then record s { futures = put ℕ_discrete f is_cancelled s.futures }
    else s

-- `self._inflight.pop(key, None)`
unfoldable pub landed :
    {Key Value : Type 0} → Discrete Key → Fetcher Key Value → Key → Fetcher Key Value
unfolding remove
landed dk s key = record s { inflight = remove dk key s.inflight }

-- The key is in flight, with a future that is new.
unfoldable pub new_future :
    {Key Value : Type 0} → Discrete Key → Fetcher Key Value → Key → Fetcher Key Value
unfolding put
new_future dk s key = record s {
  inflight = put dk key s.next_future s.inflight;
  futures = put ℕ_discrete s.next_future pending s.futures;
  next_future = suc s.next_future;
}

-- What a task gets of a future that is done.
unfoldable pub wake :
    {Key Value Error : Type 0}
    → Place Key Value Error
    → Option (Future Value)
    → Place Key Value Error
wake p (some (result v)) = returned v
wake p (some is_cancelled) = cancelled
wake p _ = p

module _ {Key Value Error : Type 0} (dk : Discrete Key) where
  unfoldable pub join : Fetcher Key Value → Key → Fetcher Key Value × Place Key Value Error
  unfolding lookup new_future
  join s key = elim (lookup dk key s.inflight) [
    | none ↦ (new_future dk s key, fetching key s.next_future)
    | some f ↦ (s, waiting key f)
  ]

  unfoldable pub look :
      Fetcher Key Value → Key → Option Value → Fetcher Key Value × Place Key Value Error
  unfolding join
  look s key none = join s key
  look s key (some v) = (s, returned v)

  -- `__call__` up to its first await.
  unfoldable pub begin :
      (Value → Bool) → Fetcher Key Value → Key → Fetcher Key Value × Place Key Value Error
  unfolding look cached
  begin truthy s key =
      look (record s { cache = (get dk s.cache key).0 }) key (cached truthy (get dk s.cache key).1)

  -- `future.set_result(result)`: InvalidStateError where the future is done.
  unfoldable pub set_result :
      Fetcher Key Value → ℕ → Value → Fetcher Key Value × Place Key Value Error
  unfolding lookup put is_pending
  set_result s f v =
      if is_pending (lookup ℕ_discrete f s.futures)
      then (record s { futures = put ℕ_discrete f (result v) s.futures }, returned v)
      else (s, invalid_state)

  -- `__call__` from the end of the method.
  unfoldable pub finish :
      Fetcher Key Value → Key → ℕ → Ended Value Error → Fetcher Key Value × Place Key Value Error
  unfolding landed cancel set_result
  finish s key f (gives v) =
      let stored : Fetcher Key Value = record s { cache = set dk s.cache key v } in
      (landed dk (set_result stored f v).0 key, (set_result stored f v).1)
  finish s key f (fails e) = (cancel (landed dk s key) f, raised e)
  finish s key f interrupted = (landed dk s key, cancelled)

unfoldable pub assign :
    {Key Value Error : Type 0}
    → World Key Value Error
    → ℕ
    → Fetcher Key Value × Place Key Value Error
    → World Key Value Error
assign w t (s, p) = record { fetcher = s; tasks = λ x. ite (ℕ_discrete x t) p (w.tasks x) }

module _ {Key Value Error : Type 0} (dk : Discrete Key) (truthy : Value → Bool) where
  -- The steps of the tasks, in any order. To cancel a task that waits is to cancel its future.
  pub data Step (w w' : World Key Value Error) : Type 0 where
    begins :
        (t : ℕ) (key : Key)
        → w.tasks t ≡ idle
        → w' ≡ assign w t (begin dk truthy w.fetcher key)
        → Step w w'
    finishes :
        (t : ℕ) (key : Key) (f : ℕ) (e : Ended Value Error)
        → w.tasks t ≡ fetching key f
        → w' ≡ assign w t (finish dk w.fetcher key f e)
        → Step w w'
    wakes :
        (t : ℕ) (key : Key) (f : ℕ)
        → w.tasks t ≡ waiting key f
        → w' ≡ assign w t (w.fetcher, wake (waiting key f) (lookup ℕ_discrete f w.fetcher.futures))
        → Step w w'
    is_stopped :
        (t : ℕ) (key : Key) (f : ℕ)
        → w.tasks t ≡ waiting key f
        → w' ≡ assign w t (cancel w.fetcher f, cancelled)
        → Step w w'

  pub data Reach (w : World Key Value Error) : World Key Value Error → Type 0 where
    here : Reach w w
    next : {u v : World Key Value Error} → Reach w u → Step u v → Reach w v
