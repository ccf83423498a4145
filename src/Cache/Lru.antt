-- ===== src/Cache/Lru.antt =====
-- class LRUCache of async_substrate_interface/utils/cache.py. Its OrderedDict is an association
-- list, least recently used entry first; `max_size` is a number, as its annotation says.
pub mod Invariant
pub mod Recency
pub mod Reads
pub mod Entries
mod Tests
use async_substrate_interfac.Prelude.{
  ℕ, ◌+◌, ◌-◌, ◌≡◌, Bool, Option, none, some, List, [], ◌∷◌, ◌++◌, arith, ltb, if◌then◌else◌,
  is_some, length, drop,
}
use async_substrate_interfac.Prelude.Dict.{lookup, put, remove}

pub record LruCache {ℓ} (K V : Type ℓ) : Type ℓ where
  pub max_size : ℕ
  pub cache : List (K × V)

unfoldable pub init {ℓ} : {K V : Type ℓ} → ℕ → LruCache K V
init max_size = record { max_size = max_size; cache = [] }

-- `if len(cache) > max_size: cache.popitem(last=False)`
unfoldable pub pop_excess {ℓ} : {A : Type ℓ} → ℕ → List A → List A
pop_excess max_size cache = if ltb max_size (length cache) then drop 1 cache else cache

module _ {ℓ} {K V : Type ℓ} (dec : Discrete K) where
  -- `OrderedDict.move_to_end`; the callers have tested that the key is there.
  unfoldable pub move_to_end : K → List (K × V) → List (K × V)
  unfolding lookup remove
  move_to_end key cache = elim (lookup dec key cache) [
    | none ↦ cache
    | some value ↦ remove dec key cache ++ (key, value) ∷ []
  ]

  unfoldable pub set : LruCache K V → K → V → LruCache K V
  unfolding move_to_end pop_excess put
  set c key value =
      let moved = if is_some (lookup dec key c.cache) then move_to_end key c.cache else c.cache in
      record c { cache = pop_excess c.max_size (put dec key value moved) }

  -- `return None` when the key is missing
  unfoldable pub get : LruCache K V → K → LruCache K V × Option V
  unfolding move_to_end
  get c key =
      if is_some (lookup dec key c.cache)
      then (record c { cache = move_to_end key c.cache }, lookup dec key (move_to_end key c.cache))
      else (c, none)
