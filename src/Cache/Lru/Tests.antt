-- ===== src/Cache/Lru/Tests.antt =====
-- Runs of LRUCache, and its theorems at concrete inputs.
use async_substrate_interfac.Prelude.{ℕ, ◌≡◌, refl, none, some, List, [], ◌∷◌, arith, ℕ_discrete}
use async_substrate_interfac.Prelude.Dict.{lookup}
use async_substrate_interfac.Cache.Lru.{LruCache, init, set, get}
use async_substrate_interfac.Cache.Lru.Invariant.{IsValid, get-IsValid}
use async_substrate_interfac.Cache.Lru.Recency.{
  Call, sets, gets, run, ideal_run, Tracks, run-Tracks,
}
use async_substrate_interfac.Cache.Lru.Reads.{lookup-set_self}

abbrev empty : LruCache ℕ ℕ
empty = record { max_size = 2; cache = [] }

abbrev two : LruCache ℕ ℕ
two = record { max_size = 2; cache = (1, 10) ∷ (2, 20) ∷ [] }

-- The read of 1 makes 2 the entry to go.
abbrev calls : List (Call ℕ ℕ)
calls = sets 1 10 ∷ sets 2 20 ∷ gets 1 ∷ sets 3 30 ∷ gets 2 ∷ []

init-empty : init 2 ≡ empty
unfolding init
init-empty = refl

run-calls : run ℕ_discrete empty calls ≡ (
  record { max_size = 2; cache = (1, 10) ∷ (3, 30) ∷ [] },
  none ∷ none ∷ some 10 ∷ none ∷ none ∷ [],
)
unfolding run set get ℕ_discrete
run-calls = refl

two-IsValid : IsValid ℕ_discrete two
unfolding lookup ℕ_discrete
two-IsValid = record { distinct = (refl, (refl, tt)); bounded = omega arith }

get-IsValid_example : IsValid ℕ_discrete (get ℕ_discrete two 1).0
get-IsValid_example = get-IsValid ℕ_discrete two 1 two-IsValid

run-Tracks_example :
    Tracks ℕ_discrete 2 (run ℕ_discrete empty calls).0 (ideal_run ℕ_discrete 2 [] calls).0
    × ((run ℕ_discrete empty calls).1 ≡ (ideal_run ℕ_discrete 2 [] calls).1)
run-Tracks_example = run-Tracks ℕ_discrete 2 empty [] calls (record {
  valid = record { distinct = tt; bounded = omega arith };
  sized = refl;
  distinct = tt;
  recent = refl;
})

lookup-set_self_example : lookup ℕ_discrete 3 (set ℕ_discrete two 3 30).cache ≡ some 30
lookup-set_self_example = lookup-set_self ℕ_discrete two 3 30 two-IsValid (omega arith)

abbrev one : LruCache ℕ ℕ
one = record { max_size = 2; cache = (1, 10) ∷ [] }
