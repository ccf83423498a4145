-- ===== src/Retry/Tests.antt =====
-- Retries with chains that are up or down, and the theorems on them at concrete inputs.
use async_substrate_interfac.Prelude.{
  ℕ, ◌≡◌, refl, none, some, Bool, true, false, [], ◌∷◌, arith, if◌then◌else◌, ◌+◌, ltb,
}
use async_substrate_interfac.Retry.{
  connection_error, Outcome, returned, raised, once, cycle, Substrate, Base,
}
use async_substrate_interfac.Retry.Sync as Sync
use async_substrate_interfac.Retry.Sync.{Object}
use async_substrate_interfac.Retry.Sync.Ends.{HasAtMost, IsFrugal, retry-total}
use async_substrate_interfac.Retry.Sync.Fallback.{
  first_up, Connects, EndsOn, retry-first_up, retry-all_down,
}
use async_substrate_interfac.Retry.Sync.Create.{Constructor, create, Gives, create-first_up}
use async_substrate_interfac.Retry.Async.{AsyncBase}
use async_substrate_interfac.Retry.Async.Raises.{is_quiet, is_max}

-- Chains are numbers.
data Method : Type 0 where
  connect initialize query : Method

abbrev Node : Type 0
Node = Substrate ℕ ℕ ℕ

-- A method answers the number of its chain, where that is up; `initialize` always succeeds.
answer : (ℕ → Bool) → Method → Node → Node × Outcome ℕ ℕ
answer up initialize s = (record s { initialized = true }, returned 0)
answer up connect s = (s, if up s.url then returned s.url else raised connection_error)
answer up query s = (s, if up s.url then returned s.url else raised connection_error)

abbrev chains_up : (ℕ → Bool) → Base
chains_up up = record {
  Url = ℕ;
  World = ℕ;
  Value = ℕ;
  Error = ℕ;
  Method = Method;
  connect = connect;
  initialize = initialize;
  close = λ w. w;
  call = answer up;
}

abbrev from_third : ℕ → Bool
from_third u = ltb 2 u

abbrev on_first : Node
on_first = record {
  fallback_chains = once (2 ∷ 3 ∷ 4 ∷ []);
  archive_nodes = once [];
  url = 1;
  chain_endpoint = 1;
  initialized = true;
  initializing = false;
  ws = none;
  world = 0;
}

-- The second chain is down as well: the retry inside `connect` goes on to the third.
third_of_chains :
    Sync.retry (chains_up from_third) false 4 query on_first
    ≡ some (
      record on_first { fallback_chains = once (4 ∷ []); url = 3; chain_endpoint = 3; ws = some 3 },
      returned 3,
    )
unfolding answer Sync.retry
third_of_chains = refl

answer-IsFrugal : (up : ℕ → Bool) → IsFrugal (chains_up up)
unfolding answer
answer-IsFrugal up connect s k h = h
answer-IsFrugal up query s k h = h
answer-IsFrugal up initialize s k h = record {
  fallback = h.fallback;
  archive = h.archive;
  fallback_once = h.fallback_once;
  archive_once = h.archive_once;
  few = h.few;
}

answer-Connects : (up : ℕ → Bool) → Connects (chains_up up) up (λ u. u)
unfolding answer
answer-Connects up = record { connect_call = λ s. refl; initialize_call = λ s. (0, refl) }

retry-total_example :
    (s' : Node) × (o : Outcome ℕ ℕ) × (Sync.retry
        (chains_up from_third)
        false
        (3 + 1)
        query
        on_first
      ≡ some (s', o))
    × HasAtMost (chains_up from_third) 3 s'
retry-total_example =
    retry-total (chains_up from_third) (answer-IsFrugal from_third) false 3 query on_first (record {
      fallback = 2 ∷ 3 ∷ 4 ∷ [];
      archive = [];
      fallback_once = refl;
      archive_once = refl;
      few = omega arith;
    })

retry-first_up_example :
    EndsOn
      (chains_up from_third)
      query
      (Sync.retry (chains_up from_third) false 4 query on_first)
      (some 3)
unfolding answer Sync.catches Sync.use_archive first_up
retry-first_up_example =
    retry-first_up (chains_up from_third) from_third (λ u. u) (answer-Connects from_third) false 4
      query (2 ∷ 3 ∷ 4 ∷ []) on_first on_first connection_error (omega arith) refl refl refl refl

abbrev all_down : ℕ → Bool
all_down u = false

abbrev forever : Node
forever = record on_first { fallback_chains = cycle (2 ∷ 1 ∷ []) (2 ∷ 1 ∷ []) }

retry-all_down_example : Sync.retry (chains_up all_down) false 9 query forever ≡ none
unfolding answer Sync.catches Sync.use_archive
retry-all_down_example =
    retry-all_down (chains_up all_down) all_down (λ u. u) (answer-Connects all_down) false 9 query 2
      (1 ∷ []) (2 ∷ 1 ∷ []) forever forever connection_error (λ v. refl) refl refl refl refl

construct : (ℕ → Bool) → Constructor ℕ ℕ ℕ
construct up u w = (w + 1, if up u then none else some connection_error)

create-first_up_example :
    Gives 1 (2 ∷ 3 ∷ []) [] false (create (construct from_third) 1 (2 ∷ 3 ∷ []) [] false 0) (some 3)
unfolding construct first_up
create-first_up_example =
    create-first_up (construct from_third) from_third (λ u w. (w + 1, refl)) 1 (2 ∷ 3 ∷ []) [] false
      0

abbrev async_chains : (ℕ → Bool) → AsyncBase
async_chains up = record {
  base = chains_up up;
  shutdown = λ w. w;
  cancel_tasks = λ w. w;
  websocket = λ u. u;
}

abbrev used_up : Node
used_up = record on_first { fallback_chains = once [] }

answer-is_quiet : (up : ℕ → Bool) (m : Method) (s : Node) → is_quiet (answer up m s).1 ≡ true
unfolding answer is_quiet is_max
answer-is_quiet up initialize s = refl
answer-is_quiet up connect s = ground arith
answer-is_quiet up query s = ground arith
