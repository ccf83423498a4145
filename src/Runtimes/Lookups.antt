-- ===== src/Runtimes/Lookups.antt =====
-- What `retrieve` of RuntimeCache answers, and what it finds after `add_item`.
use async_substrate_interfac.Prelude.{
  ℕ, ◌<◌, ◌≡◌, refl, ap, ◌∙◌, Option, none, some, List, [], ◌∷◌, ℕ_discrete,
}
use async_substrate_interfac.Prelude.Dict.{lookup}
use async_substrate_interfac.Cache.Lru
use async_substrate_interfac.Cache.Lru.{LruCache}
use async_substrate_interfac.Cache.Lru.Invariant.{get-lookup, max_size-set}
use async_substrate_interfac.Cache.Lru.Reads.{lookup-set_self}
use async_substrate_interfac.Runtimes.{
  RuntimeCache, get_at, set_version, add_item, assume_known, assume_version, mark_used,
  retrieve_hash, retrieve_block, retrieve_version, retrieve,
}
use async_substrate_interfac.Runtimes.Invariant.{IsValid, add_item-IsValid}

-- What a cache holds under a key that may be missing; nothing changes.
abbrev pub lookup_at {ℓ} : {K V : Type ℓ} (dec : Discrete K) → Option K → List (K × V) → Option V
lookup_at dec none l = none
lookup_at dec (some k) l = lookup dec k l

get_at-lookup_at {ℓ} :
    {K V : Type ℓ} (dec : Discrete K) (c : LruCache K V) (k : Option K)
    → (get_at dec c k).1 ≡ lookup_at dec k c.cache
unfolding get_at
get_at-lookup_at dec c none = refl
get_at-lookup_at dec c (some k) = get-lookup dec c k

module _ {Hash R : Type 0} (dec : Discrete Hash) where
  -- The runtime under a version, under a hash's version, and under a block's hash's version.
  abbrev pub by_version : RuntimeCache Hash R → Option ℕ → Option R
  by_version c version = lookup_at ℕ_discrete version c.versions.cache

  abbrev pub by_hash : RuntimeCache Hash R → Option Hash → Option R
  by_hash c block_hash = by_version c (lookup_at dec block_hash c.block_hashes.cache)

  abbrev pub by_block : RuntimeCache Hash R → ℕ → Option R
  by_block c block = by_hash c (lookup ℕ_discrete block c.blocks.cache)

  retrieve_hash-by_hash :
      (c : RuntimeCache Hash R) (h : Option Hash)
      → ((retrieve_hash dec c h).1 ≡ by_hash c h)
        × ((retrieve_hash dec c h).0.last_used ≡ by_hash c h)
  unfolding retrieve_hash
  retrieve_hash-by_hash c h =
      let e : (get_at ℕ_discrete c.versions (get_at dec c.block_hashes h).1).1 ≡ by_hash c h =
        get_at-lookup_at ℕ_discrete c.versions (get_at dec c.block_hashes h).1
        ∙ ap (by_version c) (get_at-lookup_at dec c.block_hashes h) in
      (e, e)

  retrieve_block-by_block :
      (c : RuntimeCache Hash R) (b : ℕ)
      → ((retrieve_block dec c b).1 ≡ by_block c b)
        × ((retrieve_block dec c b).0.last_used ≡ by_block c b)
  unfolding retrieve_block
  retrieve_block-by_block c b =
      let (e, e') =
        retrieve_hash-by_hash (record c { blocks = (Lru.get ℕ_discrete c.blocks b).0 })
          (Lru.get ℕ_discrete c.blocks b).1 in
      let f = ap (by_hash c) (get-lookup ℕ_discrete c.blocks b) in (e ∙ f, e' ∙ f)

  assume_version-block :
      (c : RuntimeCache Hash R) (b : ℕ) (version : Option ℕ)
      → (assume_version dec c (some b) none version).0 ≡ c
  unfolding assume_version
  assume_version-block c b (some v) = refl
  assume_version-block c b none = go c.known_version_blocks
    where
      go : (starts : List ℕ) → (assume_known dec starts c (some b) none).0 ≡ c
      go [] = refl
      go (_ ∷ _) = refl

  -- With a block and no hash, the answer is the runtime of the version of the hash of the block.
  -- A supplied or a known version does not count, and `last_used` becomes the answer, a miss
  -- included.
  pub retrieve-by_block :
      (c : RuntimeCache Hash R) (b : ℕ) (version : Option ℕ)
      → ((retrieve dec c (some b) none version).1 ≡ by_block c b)
        × ((retrieve dec c (some b) none version).0.last_used ≡ by_block c b)
  unfolding retrieve
  retrieve-by_block c b version =
      rw (assume_version-block c b version) (retrieve_block-by_block c b)

  mark_used-answer : (c : RuntimeCache Hash R) (r : Option R) → (mark_used c r).1 ≡ r
  unfolding mark_used
  mark_used-answer c none = refl
  mark_used-answer c (some r) = refl

  -- With a version alone, the answer is the runtime of that version.
  pub retrieve-by_version :
      (c : RuntimeCache Hash R) (v : ℕ)
      → (retrieve dec c none none (some v)).1 ≡ by_version c (some v)
  unfolding retrieve retrieve_version
  retrieve-by_version c v =
      mark_used-answer (record c { versions = (Lru.get ℕ_discrete c.versions v).0 })
        (Lru.get ℕ_discrete c.versions v).1
      ∙ get-lookup ℕ_discrete c.versions v

  by_hash_found :
      (c : RuntimeCache Hash R) (h : Hash) (v : ℕ) (r : R)
      → lookup dec h c.block_hashes.cache ≡ some v
      → lookup ℕ_discrete v c.versions.cache ≡ some r
      → by_hash c (some h) ≡ some r
  by_hash_found c h v r e f = rw e f

  module _ (c : RuntimeCache Hash R) (r : R) (b : ℕ) (h : Hash) (v : ℕ) where
    -- The cache after `add_item` with all four arguments.
    abbrev pub added : RuntimeCache Hash R
    added = add_item dec c (some r) (some b) (some h) (some v)

    hash_added :
        IsValid dec c → 0 < c.block_hashes.max_size → lookup dec h added.block_hashes.cache ≡ some v
    unfolding add_item
    hash_added valid room = lookup-set_self dec c.block_hashes h v valid.block_hashes room

    version_added :
        IsValid dec c → 0 < c.versions.max_size → lookup ℕ_discrete v added.versions.cache ≡ some r
    unfolding add_item
    version_added valid room = lookup-set_self ℕ_discrete c.versions v r valid.versions room

    block_added :
        IsValid dec c → 0 < c.blocks.max_size → lookup ℕ_discrete b added.blocks.cache ≡ some h
    unfolding add_item
    block_added valid room = lookup-set_self ℕ_discrete c.blocks b h valid.blocks room

    -- Once `add_item` has stored a runtime with its block, hash and version in valid caches with
    -- room for an entry, it is the last used, and `retrieve` finds it by the block, by the version
    -- and by the hash with the version.
    pub retrieve-add_item :
        (q : Option ℕ)
        → IsValid dec c
        → 0 < c.blocks.max_size
        → 0 < c.block_hashes.max_size
        → 0 < c.versions.max_size
        → ((retrieve dec added (some b) none q).1 ≡ some r)
          × ((retrieve dec added none none (some v)).1 ≡ some r)
          × ((retrieve dec added none (some h) (some v)).1 ≡ some r)
          × (added.last_used ≡ some r)
    retrieve-add_item q valid pb ph pv = (
      (retrieve-by_block added b q).0
          ∙ ap (by_hash added) (block_added valid pb)
          ∙ by_hash_found added h v r (hash_added valid ph) (version_added valid pv),
      retrieve-by_version added v ∙ version_added valid pv,
      unfold retrieve in
          (retrieve_hash-by_hash (set_version dec added h (some v)) (some h)).0
          ∙ by_hash_found (set_version dec added h (some v)) h v r
              (lookup-set_self dec added.block_hashes h v
                (add_item-IsValid dec c (some r) (some b) (some h) (some v) valid).block_hashes
                (unfold add_item in rw max_size-set ph))
              (version_added valid pv),
      unfold add_item in refl,
    )

    -- The same by the hash alone, where no versions are known in advance.
    pub retrieve_hash-add_item :
        c.known_version_blocks ≡ []
        → IsValid dec c
        → 0 < c.block_hashes.max_size
        → 0 < c.versions.max_size
        → (retrieve dec added none (some h) none).1 ≡ some r
    unfolding retrieve assume_version
    retrieve_hash-add_item known valid ph pv =
        let same : added.known_version_blocks ≡ [] = unfold add_item in known in
        let nothing : assume_known dec added.known_version_blocks added none (some h)
            ≡ (added, none) =
          ap (λ s. assume_known dec s added none (some h)) same ∙ unfold assume_known in refl in
        rw nothing (
          (retrieve_hash-by_hash added (some h)).0
          ∙ by_hash_found added h v r (hash_added valid ph) (version_added valid pv))
