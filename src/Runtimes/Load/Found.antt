-- ===== src/Runtimes/Load/Found.antt =====
-- What the RuntimeCache answers to `init_runtime` (async_substrate_interface/async_substrate.py) where
-- its entries are right for one chain.
use async_substrate_interfac.Prelude.{
  ℕ, ◌≡◌, refl, ◌∙◌, String, Option, none, some, [], All, ℕ_discrete, inr_inj, ap,
}
use async_substrate_interfac.Prelude.Strings.{String-discrete}
use async_substrate_interfac.Cache.Lru
use async_substrate_interfac.Cache.Lru.{LruCache}
use async_substrate_interfac.Cache.Lru.Entries.{get-All, get-found}
use async_substrate_interfac.Runtimes.{
  RuntimeCache, retrieve, retrieve_hash, retrieve_version, mark_used, assume_version, assume_known,
  retrieve_by, get_at,
}
use async_substrate_interfac.Runtimes.Load.{Client, Node, put_cache, retrieve_from}
use async_substrate_interfac.Runtimes.Load.Sound.{
  Chain, IsHash, IsRuntime, IsSound, Sound, Ends, same-IsSound, Right, OfVersion, SpecOf,
}

module _ (N : Node) (C : Chain N) where
  open N use {World, Error, R}

  mark-Ends :
      (v : ℕ) (c : RuntimeCache String R) (l : LruCache ℕ R) (o : Option R)
      → IsSound N C c l
      → OfVersion N C v o
      → IsSound N C (mark_used c o).0 l × OfVersion N C v (mark_used c o).1
  unfolding mark_used
  mark-Ends v c l none p q = (p, q)
  mark-Ends v c l (some r) p q = (same-IsSound N C c _ l p refl refl refl, q)

  pub found_version-Ends :
      (v : ℕ) (s : Client World R)
      → Sound N C s
      → Ends N C (OfVersion N C v) (retrieve_from N none none (some v) s)
  unfolding retrieve_from put_cache retrieve retrieve_version mark_used
  found_version-Ends v s p =
      let c = s.runtime_cache in
      let (sound, of) =
        mark-Ends v (record c { versions = (Lru.get ℕ_discrete c.versions v).0 }) s.runtimes
          (Lru.get ℕ_discrete c.versions v).1
          (record {
            unknown = p.unknown;
            hashes = p.hashes;
            versions = get-All ℕ_discrete (IsRuntime N C) c.versions v p.versions;
            runtimes = p.runtimes;
          })
          (λ r e. get-found ℕ_discrete (IsRuntime N C) c.versions v r p.versions e) in
      (sound, λ o e r e'. of r (inr_inj e ∙ e'))

  get_at-Ends :
      (h : String) (l : LruCache ℕ R) (o : Option ℕ)
      → All (IsRuntime N C) l.cache
      → SpecOf N C h o
      → All (IsRuntime N C) (get_at ℕ_discrete l o).0.cache
        × ((r : R) → (get_at ℕ_discrete l o).1 ≡ some r → Right N C h r)
  unfolding get_at
  get_at-Ends h l none p is = (p, λ r e. absurd (cc e))
  get_at-Ends h l (some v) p is = (
    get-All ℕ_discrete (IsRuntime N C) l v p,
    λ r e. get-found ℕ_discrete (IsRuntime N C) l v r p e ∙ is v refl,
  )

  hash-Ends :
      (h : String) (c : RuntimeCache String R) (l : LruCache ℕ R)
      → IsSound N C c l
      → IsSound N C (retrieve_hash String-discrete c (some h)).0 l
        × ((r : R) → (retrieve_hash String-discrete c (some h)).1 ≡ some r → Right N C h r)
  unfolding retrieve_hash get_at
  hash-Ends h c l p =
      let (versions', right) =
        get_at-Ends h c.versions (Lru.get String-discrete c.block_hashes h).1 p.versions
          (λ v e. get-found String-discrete (IsHash N C) c.block_hashes h v p.hashes e) in
      (
        record {
          unknown = p.unknown;
          hashes = get-All String-discrete (IsHash N C) c.block_hashes h p.hashes;
          versions = versions';
          runtimes = p.runtimes;
        },
        right,
      )

  retrieve_unknown :
      (h : String) (c : RuntimeCache String R)
      → c.known_version_blocks ≡ []
      → retrieve String-discrete c none (some h) none ≡ retrieve_hash String-discrete c (some h)
  unfolding retrieve assume_version assume_known retrieve_by
  retrieve_unknown h c e =
      ap
        (λ k.
          let (c', version) = assume_known String-discrete k c none (some h) in
          retrieve_by String-discrete c' none (some h) version)
        e

  retrieve-Ends :
      (h : String) (c : RuntimeCache String R) (l : LruCache ℕ R)
      → IsSound N C c l
      → IsSound N C (retrieve String-discrete c none (some h) none).0 l
        × ((r : R) → (retrieve String-discrete c none (some h) none).1 ≡ some r → Right N C h r)
  retrieve-Ends h c l p = rw (retrieve_unknown h c p.unknown) (hash-Ends h c l p)

  pub found_hash-Ends :
      (h : String) (s : Client World R)
      → Sound N C s
      → Ends N C (λ o. (r : R) → o ≡ some r → Right N C h r) (retrieve_from N none (some h) none s)
  unfolding retrieve_from put_cache
  found_hash-Ends h s p =
      let (sound, right) = retrieve-Ends h s.runtime_cache s.runtimes p in
      (sound, λ o e r e'. right r (inr_inj e ∙ e'))
