-- ===== src/Runtimes/Invariant.antt =====
-- RuntimeCache keeps its four caches valid.
use async_substrate_interfac.Prelude.{ℕ, Option, none, some, List, [], ◌∷◌, ℕ_discrete}
use async_substrate_interfac.Cache.Lru
use async_substrate_interfac.Cache.Lru.{LruCache}
use async_substrate_interfac.Cache.Lru.Invariant.{set-IsValid, get-IsValid}
use async_substrate_interfac.Runtimes.{
  RuntimeCache, get_at, set_hash, set_version, add_runtime, add_hash, add_version, add_item,
  known_block, assume_known, assume_version, mark_used, retrieve_hash, retrieve_block,
  retrieve_version, retrieve_by, retrieve,
}

pub get_at-IsValid {ℓ} :
    {K V : Type ℓ} (eq : Discrete K) (c : LruCache K V) (k : Option K)
    → Lru.Invariant.IsValid eq c
    → Lru.Invariant.IsValid eq (get_at eq c k).0
unfolding get_at
get_at-IsValid eq c none h = h
get_at-IsValid eq c (some k) h = get-IsValid eq c k h

module _ {Hash R : Type 0} (dec : Discrete Hash) where
  pub record IsValid (c : RuntimeCache Hash R) : Type 0 where
    pub blocks : Lru.Invariant.IsValid ℕ_discrete c.blocks
    pub blocks_reverse : Lru.Invariant.IsValid dec c.blocks_reverse
    pub block_hashes : Lru.Invariant.IsValid dec c.block_hashes
    pub versions : Lru.Invariant.IsValid ℕ_discrete c.versions

  set_hash-IsValid :
      (c : RuntimeCache Hash R) (b : ℕ) (h : Hash) → IsValid c → IsValid (set_hash dec c b h)
  set_hash-IsValid c b h v = record {
    blocks = set-IsValid ℕ_discrete c.blocks b h v.blocks;
    blocks_reverse = set-IsValid dec c.blocks_reverse h b v.blocks_reverse;
    block_hashes = v.block_hashes;
    versions = v.versions;
  }

  set_version-IsValid :
      (c : RuntimeCache Hash R) (h : Hash) (version : Option ℕ)
      → IsValid c
      → IsValid (set_version dec c h version)
  set_version-IsValid c h none v = v
  set_version-IsValid c h (some n) v = record {
    blocks = v.blocks;
    blocks_reverse = v.blocks_reverse;
    block_hashes = set-IsValid dec c.block_hashes h n v.block_hashes;
    versions = v.versions;
  }

  add_runtime-IsValid :
      (c : RuntimeCache Hash R) (r : Option R) (version : Option ℕ)
      → IsValid c
      → IsValid (add_runtime dec c r version)
  unfolding add_runtime
  add_runtime-IsValid c none version v = v
  add_runtime-IsValid c (some r) none v = record {
    blocks = v.blocks;
    blocks_reverse = v.blocks_reverse;
    block_hashes = v.block_hashes;
    versions = v.versions;
  }
  add_runtime-IsValid c (some r) (some n) v = record {
    blocks = v.blocks;
    blocks_reverse = v.blocks_reverse;
    block_hashes = v.block_hashes;
    versions = set-IsValid ℕ_discrete c.versions n r v.versions;
  }

  add_hash-IsValid :
      (c : RuntimeCache Hash R) (b : Option ℕ) (h : Option Hash)
      → IsValid c
      → IsValid (add_hash dec c b h)
  unfolding add_hash
  add_hash-IsValid c (some b) (some h) v = set_hash-IsValid c b h v
  add_hash-IsValid c (some b) none v = v
  add_hash-IsValid c none none v = v
  add_hash-IsValid c none (some h) v = v

  add_version-IsValid :
      (c : RuntimeCache Hash R) (h : Option Hash) (version : Option ℕ)
      → IsValid c
      → IsValid (add_version dec c h version)
  unfolding add_version
  add_version-IsValid c none version v = v
  add_version-IsValid c (some h) version v = set_version-IsValid c h version v

  -- `add_item` keeps the caches valid, whichever of its arguments are given.
  pub add_item-IsValid :
      (c : RuntimeCache Hash R) (r : Option R) (b : Option ℕ) (h : Option Hash) (version : Option ℕ)
      → IsValid c
      → IsValid (add_item dec c r b h version)
  unfolding add_item
  add_item-IsValid c r b h version v =
      add_version-IsValid _ h version (add_hash-IsValid _ b h (add_runtime-IsValid c r version v))

  retrieve_hash-IsValid :
      (c : RuntimeCache Hash R) (h : Option Hash) → IsValid c → IsValid (retrieve_hash dec c h).0
  unfolding retrieve_hash
  retrieve_hash-IsValid c h v = record {
    blocks = v.blocks;
    blocks_reverse = v.blocks_reverse;
    block_hashes = get_at-IsValid dec c.block_hashes h v.block_hashes;
    versions = get_at-IsValid ℕ_discrete c.versions _ v.versions;
  }

  retrieve_block-IsValid :
      (c : RuntimeCache Hash R) (b : ℕ) → IsValid c → IsValid (retrieve_block dec c b).0
  unfolding retrieve_block
  retrieve_block-IsValid c b v =
      retrieve_hash-IsValid (record c { blocks = (Lru.get ℕ_discrete c.blocks b).0 }) _
        (record {
          blocks = get-IsValid ℕ_discrete c.blocks b v.blocks;
          blocks_reverse = v.blocks_reverse;
          block_hashes = v.block_hashes;
          versions = v.versions;
        })

  mark_used-IsValid :
      (c : RuntimeCache Hash R) (r : Option R) → IsValid c → IsValid (mark_used c r).0
  unfolding mark_used
  mark_used-IsValid c none v = v
  mark_used-IsValid c (some r) v = record {
    blocks = v.blocks;
    blocks_reverse = v.blocks_reverse;
    block_hashes = v.block_hashes;
    versions = v.versions;
  }

  retrieve_version-IsValid :
      (c : RuntimeCache Hash R) (n : ℕ) → IsValid c → IsValid (retrieve_version dec c n).0
  unfolding retrieve_version
  retrieve_version-IsValid c n v =
      mark_used-IsValid (record c { versions = (Lru.get ℕ_discrete c.versions n).0 }) _
        (record {
          blocks = v.blocks;
          blocks_reverse = v.blocks_reverse;
          block_hashes = v.block_hashes;
          versions = get-IsValid ℕ_discrete c.versions n v.versions;
        })

  known_block-IsValid :
      (c : RuntimeCache Hash R) (b : Option ℕ) (h : Option Hash)
      → IsValid c
      → IsValid (known_block dec c b h).0
  unfolding known_block
  known_block-IsValid c (some b) h v = v
  known_block-IsValid c none none v = v
  known_block-IsValid c none (some h) v = record {
    blocks = v.blocks;
    blocks_reverse = get-IsValid dec c.blocks_reverse h v.blocks_reverse;
    block_hashes = v.block_hashes;
    versions = v.versions;
  }

  assume_known-IsValid :
      (starts : List ℕ) (c : RuntimeCache Hash R) (b : Option ℕ) (h : Option Hash)
      → IsValid c
      → IsValid (assume_known dec starts c b h).0
  unfolding assume_known
  assume_known-IsValid [] c b h v = v
  assume_known-IsValid (_ ∷ _) c b h v = known_block-IsValid c b h v

  assume_version-IsValid :
      (c : RuntimeCache Hash R) (b : Option ℕ) (h : Option Hash) (version : Option ℕ)
      → IsValid c
      → IsValid (assume_version dec c b h version).0
  unfolding assume_version
  assume_version-IsValid c b h (some n) v = v
  assume_version-IsValid c b h none v = assume_known-IsValid c.known_version_blocks c b h v

  retrieve_by-IsValid :
      (c : RuntimeCache Hash R) (b : Option ℕ) (h : Option Hash) (version : Option ℕ)
      → IsValid c
      → IsValid (retrieve_by dec c b h version).0
  unfolding retrieve_by
  retrieve_by-IsValid c (some b) none version v = retrieve_block-IsValid c b v
  retrieve_by-IsValid c (some b) (some h) version v =
      retrieve_block-IsValid _ b (set_version-IsValid _ h version (set_hash-IsValid c b h v))
  retrieve_by-IsValid c none (some h) version v =
      retrieve_hash-IsValid _ (some h) (set_version-IsValid c h version v)
  retrieve_by-IsValid c none none (some n) v = retrieve_version-IsValid c n v
  retrieve_by-IsValid c none none none v = v

  -- `retrieve` keeps the caches valid, whichever of its arguments are given.
  retrieve-IsValid :
      (c : RuntimeCache Hash R) (b : Option ℕ) (h : Option Hash) (version : Option ℕ)
      → IsValid c
      → IsValid (retrieve dec c b h version).0
  unfolding retrieve
  retrieve-IsValid c b h version v =
      retrieve_by-IsValid _ b h _ (assume_version-IsValid c b h version v)
