-- ===== src/Runtimes/Load.antt =====
-- `init_runtime`, `get_runtime_for_version`, `get_block_hash` and `get_block_number` of
-- AsyncSubstrateInterface in async_substrate_interface/async_substrate.py, over the RuntimeCache.
-- One task runs them; what runs at once in a `gather` is taken one after the other.
pub mod Again
pub mod Keeps
pub mod Sound
pub mod Found
pub mod Versions
mod Tests
use async_substrate_interfac.Prelude.{
  ℕ, zero, suc, String, Bool, true, false, not, ◌&&◌, Option, none, some, List, [], ◌∷◌, inl, inr,
  ◌⊎◌, if◌then◌else◌, ℕ_discrete,
}
use async_substrate_interfac.Prelude.Strings.{String-discrete}
use async_substrate_interfac.Prelude.Action.{
  Action, pure, raise, lift, raise_if, go_on, ◌>>=◌, ◌>>◌,
}
use async_substrate_interfac.Cache.Lru
use async_substrate_interfac.Cache.Lru.{LruCache}
use async_substrate_interfac.Runtimes.{RuntimeCache, add_item, retrieve}
use text.Mathlib.Text.{◌==◌ as str_eq}

-- The client: `runtimes` is the cache in front of `get_runtime_for_version`, by the version;
-- `startup` is whether there is a `startup_runtime_task`.
pub record Client (World R : Type 0) : Type 0 where
  pub world : World
  pub runtime_cache : RuntimeCache String R
  pub runtimes : LruCache ℕ R
  pub last_block_hash : Option String
  pub startup : Bool
  pub startup_block_hash : Option String

-- What is asked of the node, and the end of the task that `initialize` starts. `get_block_runtime_info`
-- is the spec version of the runtime, and `load_runtime` a Runtime from the metadata and the registry
-- of a block, none where they are missing.
pub record Node : Type 1 where
  pub World : Type 0
  pub Error : Type 0
  pub R : Type 0
  pub value_error : Error
  pub no_runtime : String → Error
  pub no_metadata : String → Error
  pub get_chain_head : Action World Error String
  pub cached_get_block_hash : ℕ → Action World Error (Option String)
  pub cached_get_block_number : String → Action World Error ℕ
  pub get_parent_block_hash : String → Action World Error String
  pub get_block_runtime_info : String → Action World Error (Option ℕ)
  pub load_runtime : ℕ → String → Action World Error (Option R)
  pub finish_startup : Action (Client World R) Error Unit

module _ (N : Node) where
  open N use {World, Error, R}

  abbrev pub Run : Type 0 → Type 0
  Run A = Action (Client World R) Error A

  unfoldable pub put_world : {A : Type 0} → Client World R → World × A → Client World R × A
  put_world s (w, a) = (record s { world = w }, a)

  unfoldable pub ask : {A : Type 0} → Action World Error A → Run A
  unfolding put_world
  ask m s = put_world s (m s.world)

  unfoldable pub put_cache :
      {A : Type 0} → Client World R → RuntimeCache String R × A → Client World R × (Error ⊎ A)
  put_cache s (c, a) = (record s { runtime_cache = c }, inr a)

  unfoldable pub retrieve_from : Option ℕ → Option String → Option ℕ → Run (Option R)
  unfolding put_cache
  retrieve_from block block_hash version s =
      put_cache s (retrieve String-discrete s.runtime_cache block block_hash version)

  unfoldable pub store : Option R → Option ℕ → Option String → Option ℕ → Run Unit
  store runtime block block_hash version s = (
    record s {
      runtime_cache = add_item String-discrete s.runtime_cache runtime block block_hash version;
    },
    inr tt,
  )

  unfoldable pub look_block : ℕ → Run (Option String)
  look_block n s =
      let (blocks', h) = Lru.get ℕ_discrete s.runtime_cache.blocks n in
      (record s { runtime_cache = record s.runtime_cache { blocks = blocks' } }, inr h)

  unfoldable pub look_hash : String → Run (Option ℕ)
  look_hash h s =
      let (reverse, n) = Lru.get String-discrete s.runtime_cache.blocks_reverse h in
      (record s { runtime_cache = record s.runtime_cache { blocks_reverse = reverse } }, inr n)

  -- `get_block_hash` of a number; the node may answer None.
  unfoldable pub get_block_hash : ℕ → Run (Option String)
  unfolding look_block ask store
  get_block_hash n = do
    known ← look_block n
    elim known [
      | some h ↦ pure (some h)
      | none ↦ (do h ← ask (N.cached_get_block_hash n); store none (some n) h none; pure h)
    ]

  -- `get_block_number` of a hash.
  unfoldable pub get_block_number : String → Run ℕ
  unfolding look_hash ask store
  get_block_number h = do
    known ← look_hash h
    elim known [
      | some n ↦ pure n
      | none ↦ (do n ← ask (N.cached_get_block_number h); store none (some n) (some h) none; pure n)
    ]

  unfoldable pub runtime_or_raise : String → Option R → Run R
  runtime_or_raise h none = raise (N.no_metadata h)
  runtime_or_raise h (some r) = pure r

  -- `_get_runtime_for_version` with a hash, which `init_runtime` always gives.
  unfoldable pub load_for_version : ℕ → String → Run R
  unfolding ask get_block_number runtime_or_raise store
  load_for_version version block_hash = do
    parent ← ask (N.get_parent_block_hash block_hash)
    n ← get_block_number block_hash
    loaded ← ask (N.load_runtime version parent)
    r ← runtime_or_raise parent loaded
    store (some r) (some n) (some block_hash) (some version)
    pure r

  unfoldable pub look_runtime : ℕ → Run (Option R)
  look_runtime v s =
      let (runtimes', r) = Lru.get ℕ_discrete s.runtimes v in
      (record s { runtimes = runtimes' }, inr r)

  unfoldable pub keep_runtime : ℕ → R → Run R
  keep_runtime v r s = (record s { runtimes = Lru.set ℕ_discrete s.runtimes v r }, inr r)

  unfoldable pub get_runtime_for_version : ℕ → String → Run R
  unfolding look_runtime load_for_version keep_runtime
  get_runtime_for_version version block_hash = do
    known ← look_runtime version
    elim known [
      | some r ↦ pure r
      | none ↦ (do r ← load_for_version version block_hash; keep_runtime version r)
    ]

  unfoldable pub get_block_runtime_version_for : String → Run (Option ℕ)
  unfolding ask
  get_block_runtime_version_for block_hash = do
    parent ← ask (N.get_parent_block_hash block_hash)
    ask (N.get_block_runtime_info parent)

  unfoldable pub of_version : String → Option ℕ → Run R
  unfolding retrieve_from get_runtime_for_version
  of_version block_hash none = raise (N.no_runtime block_hash)
  of_version block_hash (some v) = do
    found ← retrieve_from none none (some v)
    elim found [ some r ↦ pure r | none ↦ get_runtime_for_version v block_hash ]

  unfoldable pub by_version : String → Run R
  unfolding get_block_runtime_version_for of_version
  by_version block_hash = do v ← get_block_runtime_version_for block_hash; of_version block_hash v

  unfoldable pub set_last : String → Run Unit
  set_last h s = (record s { last_block_hash = some h }, inr tt)

  unfoldable pub is_set : Option String → Bool
  is_set none = false
  is_set (some s) = not (str_eq s "")

  -- `get_chain_head` notes the hash that it answers.
  unfoldable pub at_head : Run R
  unfolding ask set_last by_version
  at_head = do head ← ask N.get_chain_head; set_last head; by_version head

  unfoldable pub at_hash : Option String → Run R
  unfolding at_head set_last retrieve_from by_version
  at_hash none = at_head
  at_hash (some h) = if str_eq h "" then at_head else (do
    set_last h
    found ← retrieve_from none (some h) none
    elim found [ some r ↦ pure r | none ↦ by_version h ])

  -- Where a number is given, the hash of it takes the place of the one that is given.
  unfoldable pub at_block : Option ℕ → Option String → Run R
  unfolding retrieve_from get_block_hash at_hash
  at_block none block_hash = at_hash block_hash
  at_block (some n) block_hash = do
    found ← retrieve_from (some n) none none
    elim found [ some r ↦ pure r | none ↦ (do h ← get_block_hash n; at_hash h) ]

  unfoldable pub same_hash : Option String → Option String → Bool
  same_hash none none = true
  same_hash (some a) (some b) = str_eq a b
  same_hash _ _ = false

  unfoldable pub clear_startup : Run Unit
  clear_startup s = (record s { startup = false }, inr tt)

  unfoldable pub await_startup : Run Unit
  unfolding clear_startup
  await_startup = do N.finish_startup; clear_startup

  unfoldable pub startup_first : Bool → Option String → Run Unit
  unfolding same_hash await_startup
  startup_first init block_hash s =
      if not init && s.startup && same_hash block_hash s.startup_block_hash
      then await_startup s
      else (s, inr tt)

  unfoldable pub both_given : Option String → Option ℕ → Bool
  unfolding is_set
  both_given block_hash none = false
  both_given block_hash (some zero) = false
  both_given block_hash (some (suc n)) = is_set block_hash

  unfoldable pub init_runtime : Option String → Option ℕ → Bool → Run R
  unfolding startup_first both_given at_block
  init_runtime block_hash block_id init = do
    startup_first init block_hash
    raise_if (both_given block_hash block_id) N.value_error
    at_block block_id block_hash
