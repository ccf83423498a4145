-- ===== src/Runtimes.antt =====
-- class RuntimeCache of async_substrate_interface/types.py: which Runtime a block, a block hash or
-- a spec version stands for. Block hashes and runtimes are parameters, `Hash` and `R`; the sizes
-- of the caches, which the source reads from the environment, are arguments of `init`.
pub mod Known
pub mod Lookups
pub mod Invariant
pub mod Load
mod Tests
use async_substrate_interfac.Prelude.{
  ℕ, ◌+◌, ◌-◌, ◌≡◌, Bool, Option, none, some, List, [], ◌∷◌, ◌++◌, arith, leb, if◌then◌else◌, map,
  zero, suc,
}
use async_substrate_interfac.Prelude.{ℕ_discrete}
use async_substrate_interfac.Cache.Lru
use async_substrate_interfac.Cache.Lru.{LruCache}

-- `sorted(known_versions, key=lambda v: v[0])`, which is stable.
unfoldable pub insert_sorted : ℕ × ℕ → List (ℕ × ℕ) → List (ℕ × ℕ)
insert_sorted v [] = v ∷ []
insert_sorted v (w ∷ vs) = if leb v.0 w.0 then v ∷ w ∷ vs else w ∷ insert_sorted v vs

unfoldable pub sort_versions : List (ℕ × ℕ) → List (ℕ × ℕ)
unfolding insert_sorted
sort_versions [] = []
sort_versions (v ∷ vs) = insert_sorted v (sort_versions vs)

-- `l[:-1]`
unfoldable pub drop_last {ℓ} : {A : Type ℓ} → List A → List A
drop_last [] = []
drop_last (x ∷ []) = []
drop_last (x ∷ y ∷ l) = x ∷ drop_last (y ∷ l)

-- `bisect.bisect_right`: in an ascending list, the place after the last item that is not above `x`.
unfoldable pub bisect_right : List ℕ → ℕ → ℕ
bisect_right [] x = 0
bisect_right (a ∷ l) x = if leb a x then suc (bisect_right l x) else 0

-- `known_versions[idx][1]`
unfoldable pub version_at : List (ℕ × ℕ) → ℕ → Option ℕ
version_at [] i = none
version_at (v ∷ vs) zero = some v.1
version_at (v ∷ vs) (suc i) = version_at vs i

module _ (Hash R : Type 0) where
  pub record RuntimeCache : Type 0 where
    pub blocks : LruCache ℕ Hash
    pub blocks_reverse : LruCache Hash ℕ
    pub block_hashes : LruCache Hash ℕ
    pub versions : LruCache ℕ R
    pub known_versions : List (ℕ × ℕ)
    pub known_version_blocks : List ℕ
    pub last_used : Option R

module _ {Hash R : Type 0} where
  unfoldable pub add_known_versions : RuntimeCache Hash R → List (ℕ × ℕ) → RuntimeCache Hash R
  unfolding sort_versions drop_last
  add_known_versions c known = record c {
    known_versions = sort_versions known;
    known_version_blocks = map (λ v. v.0) (drop_last (sort_versions known));
  }

  -- `if known_versions:` skips an empty list.
  unfoldable pub init : ℕ → ℕ → List (ℕ × ℕ) → RuntimeCache Hash R
  unfolding add_known_versions Lru.init
  init method_size runtime_size known =
      let fresh : RuntimeCache Hash R = record {
        blocks = Lru.init method_size;
        blocks_reverse = Lru.init method_size;
        block_hashes = Lru.init method_size;
        versions = Lru.init runtime_size;
        known_versions = [];
        known_version_blocks = [];
        last_used = none;
      } in
      elim known [ [] ↦ fresh | v ∷ vs ↦ add_known_versions fresh (v ∷ vs) ]

  -- The spec version that the known versions give for a block: `idx >= 0` is `0 < idx + 1`.
  unfoldable pub known_version : RuntimeCache Hash R → ℕ → Option ℕ
  unfolding bisect_right version_at
  known_version c block = elim (bisect_right c.known_version_blocks block) [
    | zero ↦ none
    | suc idx ↦ version_at c.known_versions idx
  ]

  -- `if runtime is not None: self.last_used = runtime`
  unfoldable pub mark_used : RuntimeCache Hash R → Option R → RuntimeCache Hash R × Option R
  mark_used c none = (c, none)
  mark_used c (some r) = (record c { last_used = some r }, some r)

-- `LRUCache.get` at a key that may be `None`, which no cache holds.
unfoldable pub get_at {ℓ} :
    {K V : Type ℓ} (dec : Discrete K) → LruCache K V → Option K → LruCache K V × Option V
unfolding Lru.get
get_at dec c none = (c, none)
get_at dec c (some k) = Lru.get dec c k

module _ {Hash R : Type 0} (dec : Discrete Hash) where
  abbrev pub set_hash : RuntimeCache Hash R → ℕ → Hash → RuntimeCache Hash R
  set_hash c block block_hash = record c {
    blocks = Lru.set ℕ_discrete c.blocks block block_hash;
    blocks_reverse = Lru.set dec c.blocks_reverse block_hash block;
  }

  abbrev pub set_version : RuntimeCache Hash R → Hash → Option ℕ → RuntimeCache Hash R
  set_version c block_hash none = c
  set_version c block_hash (some v) = record c {
    block_hashes = Lru.set dec c.block_hashes block_hash v;
  }

  add_runtime : RuntimeCache Hash R → Option R → Option ℕ → RuntimeCache Hash R
  unfolding Lru.set
  add_runtime c none version = c
  add_runtime c (some runtime) none = record c { last_used = some runtime }
  add_runtime c (some runtime) (some v) = record c {
    last_used = some runtime;
    versions = Lru.set ℕ_discrete c.versions v runtime;
  }

  add_hash : RuntimeCache Hash R → Option ℕ → Option Hash → RuntimeCache Hash R
  unfolding Lru.set
  add_hash c (some block) (some block_hash) = set_hash c block block_hash
  add_hash c _ none = c
  add_hash c none _ = c

  add_version : RuntimeCache Hash R → Option Hash → Option ℕ → RuntimeCache Hash R
  unfolding Lru.set
  add_version c (some block_hash) version = set_version c block_hash version
  add_version c none version = c

  unfoldable pub add_item :
      RuntimeCache Hash R → Option R → Option ℕ → Option Hash → Option ℕ → RuntimeCache Hash R
  unfolding add_runtime add_hash add_version
  add_item c runtime block block_hash runtime_version =
      add_version (add_hash (add_runtime c runtime runtime_version) block block_hash) block_hash
        runtime_version

  -- `block_` of `retrieve`; the reverse lookup counts as a use.
  unfoldable pub known_block :
      RuntimeCache Hash R → Option ℕ → Option Hash → RuntimeCache Hash R × Option ℕ
  unfolding Lru.get
  known_block c (some block) block_hash = (c, some block)
  known_block c none (some block_hash) =
      let (cache, block) = Lru.get dec c.blocks_reverse block_hash in
      (record c { blocks_reverse = cache }, block)
  known_block c none none = (c, none)

  -- The first `if` of `retrieve`, on `_known_version_blocks`.
  unfoldable pub assume_known :
      List ℕ → RuntimeCache Hash R → Option ℕ → Option Hash → RuntimeCache Hash R × Option ℕ
  unfolding known_block known_version
  assume_known [] c block block_hash = (c, none)
  assume_known (_ ∷ _) c block block_hash =
      let (c', block') = known_block c block block_hash in
      (c', elim block' [ none ↦ none | some b ↦ known_version c' b ])

  -- The version that `retrieve` goes on with: the one supplied, or else the known one.
  unfoldable pub assume_version :
      RuntimeCache Hash R → Option ℕ → Option Hash → Option ℕ → RuntimeCache Hash R × Option ℕ
  unfolding assume_known
  assume_version c block block_hash (some v) = (c, some v)
  assume_version c block block_hash none = assume_known c.known_version_blocks c block block_hash

  -- `versions.get(block_hashes.get(block_hash))`, and `last_used` set to it, a miss included
  unfoldable pub retrieve_hash : RuntimeCache Hash R → Option Hash → RuntimeCache Hash R × Option R
  unfolding get_at
  retrieve_hash c block_hash =
      let (hashes, version) = get_at dec c.block_hashes block_hash in
      let (versions', runtime) = get_at ℕ_discrete c.versions version in
      (record c { block_hashes = hashes; versions = versions'; last_used = runtime }, runtime)

  -- `versions.get(block_hashes.get(blocks.get(block)))`
  unfoldable pub retrieve_block : RuntimeCache Hash R → ℕ → RuntimeCache Hash R × Option R
  unfolding Lru.get retrieve_hash
  retrieve_block c block =
      let (blocks', block_hash) = Lru.get ℕ_discrete c.blocks block in
      retrieve_hash (record c { blocks = blocks' }) block_hash

  unfoldable pub retrieve_version : RuntimeCache Hash R → ℕ → RuntimeCache Hash R × Option R
  unfolding Lru.get mark_used
  retrieve_version c version =
      let (versions', runtime) = Lru.get ℕ_discrete c.versions version in
      mark_used (record c { versions = versions' }) runtime

  -- The rest of `retrieve`, with the version that is supplied or known.
  unfoldable pub retrieve_by :
      RuntimeCache Hash R → Option ℕ → Option Hash → Option ℕ → RuntimeCache Hash R × Option R
  unfolding Lru.set retrieve_hash retrieve_block retrieve_version
  retrieve_by c (some block) none version = retrieve_block c block
  retrieve_by c (some block) (some block_hash) version =
      retrieve_block (set_version (set_hash c block block_hash) block_hash version) block
  retrieve_by c none (some block_hash) version =
      retrieve_hash (set_version c block_hash version) (some block_hash)
  retrieve_by c none none (some v) = retrieve_version c v
  retrieve_by c none none none = (c, none)

  unfoldable pub retrieve :
      RuntimeCache Hash R → Option ℕ → Option Hash → Option ℕ → RuntimeCache Hash R × Option R
  unfolding assume_version retrieve_by
  retrieve c block block_hash runtime_version =
      let (c', version) = assume_version c block block_hash runtime_version in
      retrieve_by c' block block_hash version
