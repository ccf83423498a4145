-- ===== src/Retry.antt =====
-- The retrying substrates of async_substrate_interface/substrate_addons.py: the iterators of
-- chains, and the object as far as RetrySyncSubstrate and RetryAsyncSubstrate change it. The
-- base class is an interface: its methods, as bound to the object, may do anything to it.
pub mod Sync
pub mod Async
mod Tests
use async_substrate_interfac.Prelude.{
  Option, none, some, List, [], ◌∷◌, ◌++◌, Bool, true, false, if◌then◌else◌,
}

-- What a method raises, by what the code asks of it.
pub data Failure (Error : Type 0) : Type 0 where
  max_retries_exceeded connection_error eof_error connection_closed timeout_error gai_error
        state_discarded stop_iteration runtime_error :
      Failure Error
  other : Error → Failure Error

pub data Outcome (Value Error : Type 0) : Type 0 where
  returned : Value → Outcome Value Error
  raised : Failure Error → Outcome Value Error

-- `iter` of a list, with what is left of it, and `itertools.cycle` of a list, with what is left
-- of the current round.
pub data Chains (Url : Type 0) : Type 0 where
  once : List Url → Chains Url
  cycle : List Url → List Url → Chains Url

unfoldable pub start_round : {Url : Type 0} → List Url → Option (Url × Chains Url)
start_round [] = none
start_round (u ∷ l) = some (u, cycle (u ∷ l) l)

-- `next`: `none` is StopIteration.
unfoldable pub next_chain : {Url : Type 0} → Chains Url → Option (Url × Chains Url)
unfolding start_round
next_chain (once []) = none
next_chain (once (u ∷ l)) = some (u, once l)
next_chain (cycle all []) = start_round all
next_chain (cycle all (u ∷ l)) = some (u, cycle all l)

-- The fallback chains and the archive nodes, as the constructors set them.
unfoldable pub fallback_iter : {Url : Type 0} → Url → List Url → Bool → Chains Url
fallback_iter url chains retry_forever =
    if retry_forever then cycle (chains ++ url ∷ []) (chains ++ url ∷ []) else once chains

unfoldable pub archive_iter : {Url : Type 0} → List Url → Bool → Chains Url
archive_iter nodes retry_forever = if retry_forever then cycle nodes nodes else once nodes

-- `initializing` is the asynchronous one's. `world` is all else that the methods read and change.
pub record Substrate (Url World Value : Type 0) : Type 0 where
  pub fallback_chains : Chains Url
  pub archive_nodes : Chains Url
  pub url : Url
  pub chain_endpoint : Url
  pub initialized : Bool
  pub initializing : Bool
  pub ws : Option Value
  pub world : World

pub record Base : Type 1 where
  pub Url : Type 0
  pub World : Type 0
  pub Value : Type 0
  pub Error : Type 0
  pub Method : Type 0
  pub connect : Method
  pub initialize : Method
  pub close : World → World
  pub call : Method → Substrate Url World Value → Substrate Url World Value × Outcome Value Error
