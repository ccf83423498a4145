-- ===== src/Runtimes/Load/Keeps.antt =====
-- What `get_block_number` (async_substrate_interface/async_substrate.py) keeps of the RuntimeCache.
use async_substrate_interfac.Prelude.{ℕ, String, Option, none, some, inl, inr, ◌⊎◌}
use async_substrate_interfac.Prelude.Strings.{String-discrete}
use async_substrate_interfac.Prelude.Action.{Action, go_on, ◌>>=◌}
use async_substrate_interfac.Cache.Lru.Invariant.{get-IsValid}
use async_substrate_interfac.Runtimes.Invariant.{IsValid, add_item-IsValid}
use async_substrate_interfac.Runtimes.Load.{
  Client, Node, Run, put_world, ask, store, look_hash, get_block_number,
}

module _ (N : Node) where
  open N use {World, Error, R}

  abbrev pub HasValid : Client World R → Type 0
  HasValid s = IsValid String-discrete s.runtime_cache

  -- Whatever it returns or raises, the caches are valid after it where they were before.
  abbrev pub Keeps : {A : Type 0} → Run N A → Type 0
  Keeps m = (s : Client World R) → HasValid s → HasValid (m s).0

  go_on-Keeps :
      {A B : Type 0} (f : A → Run N B) (r : Client World R × (Error ⊎ A))
      → HasValid r.0
      → ((a : A) → Keeps (f a))
      → HasValid (go_on f r).0
  unfolding go_on
  go_on-Keeps f (s, inl e) h next = h
  go_on-Keeps f (s, inr a) h next = next a s h

  bind-Keeps :
      {A B : Type 0} (m : Run N A) (f : A → Run N B)
      → Keeps m
      → ((a : A) → Keeps (f a))
      → Keeps (m >>= f)
  bind-Keeps m f first next s h = go_on-Keeps f (m s) (first s h) next

  either-Keeps :
      {A B : Type 0} (o : Option A) (m : Run N B) (f : A → Run N B)
      → Keeps m
      → ((a : A) → Keeps (f a))
      → Keeps (elim o [ none ↦ m | some a ↦ f a ])
  either-Keeps none m f at_none at_some = at_none
  either-Keeps (some a) m f at_none at_some = at_some a

  ask-Keeps : {A : Type 0} (m : Action World Error A) → Keeps (ask N m)
  unfolding ask put_world
  ask-Keeps m s h = h

  store-Keeps :
      (r : Option R) (b : Option ℕ) (h : Option String) (v : Option ℕ) → Keeps (store N r b h v)
  unfolding store
  store-Keeps r b h v s valid = add_item-IsValid String-discrete s.runtime_cache r b h v valid

  look_hash-Keeps : (h : String) → Keeps (look_hash N h)
  unfolding look_hash
  look_hash-Keeps h s v = record {
    blocks = v.blocks;
    blocks_reverse = get-IsValid String-discrete s.runtime_cache.blocks_reverse h v.blocks_reverse;
    block_hashes = v.block_hashes;
    versions = v.versions;
  }

  pub get_block_number-Keeps : (h : String) → Keeps (get_block_number N h)
  unfolding get_block_number
  get_block_number-Keeps h = bind-Keeps (look_hash N h) _ (look_hash-Keeps h) (λ known.
      either-Keeps known _ _
        (bind-Keeps (ask N (N.cached_get_block_number h)) _
          (ask-Keeps (N.cached_get_block_number h))
          (λ n.
            bind-Keeps (store N none (some n) (some h) none) _
              (store-Keeps none (some n) (some h) none) (λ u s v. v)))
        (λ n s v. v))
