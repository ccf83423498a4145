-- ===== src/Runtimes/Load/Again.antt =====
-- A runtime that has been loaded for a hash is at hand for it
-- (async_substrate_interface/async_substrate.py).
use async_substrate_interfac.Prelude.{
  ℕ, ◌<◌, ◌≡◌, refl, ap, ◌∙◌, sym, String, Bool, true, false, ◌&&◌, Option, none, some, [], inl,
  inr, ◌⊎◌, if◌then◌else◌, inr_inj,
}
use async_substrate_interfac.Prelude.Strings.{String-discrete}
use async_substrate_interfac.Prelude.Action.{Action, pure, go_on, go_on-returned, ◌>>=◌, ◌>>◌}
use async_substrate_interfac.Cache.Lru
use async_substrate_interfac.Runtimes.{RuntimeCache, add_item, retrieve}
use async_substrate_interfac.Runtimes.Invariant.{IsValid}
use async_substrate_interfac.Runtimes.Lookups.{retrieve_hash-add_item}
use async_substrate_interfac.Runtimes.Load.{
  Client, Node, Run, put_world, ask, put_cache, retrieve_from, store, look_hash, get_block_number,
  runtime_or_raise, load_for_version, set_last, at_hash, at_block, startup_first, await_startup,
  both_given, init_runtime, same_hash,
}
use async_substrate_interfac.Runtimes.Load.Keeps.{get_block_number-Keeps}
use text.Mathlib.Text.{◌==◌ as str_eq}

module _ (N : Node) where
  open N use {World, Error, R}

  -- The caches are valid, no versions are known in advance, and there is room for hashes and
  -- runtimes.
  pub record IsReady (c : RuntimeCache String R) : Type 0 where
    pub valid : IsValid String-discrete c
    pub unknown : c.known_version_blocks ≡ []
    pub hashes : 0 < c.block_hashes.max_size
    pub runtimes : 0 < c.versions.max_size

  IsReady-ask :
      {A : Type 0} (m : Action World Error A) (s s' : Client World R) (a : A)
      → ask N m s ≡ (s', inr a)
      → IsReady s.runtime_cache
      → IsReady s'.runtime_cache
  unfolding ask put_world
  IsReady-ask m s s' a e h = rw (sym (ap (λ x. x.0.runtime_cache) e)) h

  -- The hashes' versions, the runtimes and the known versions are as they were.
  abbrev SameRest : RuntimeCache String R → RuntimeCache String R → Type 0
  SameRest c c' =
      (c'.known_version_blocks ≡ c.known_version_blocks)
      × (c'.block_hashes ≡ c.block_hashes)
      × (c'.versions ≡ c.versions)

  number_asked :
      (h : String) (s : Client World R) (r : World × (Error ⊎ ℕ))
      → SameRest s.runtime_cache
          (go_on
            (λ n. store N none (some n) (some h) none >> pure n)
            (put_world N s r)).0.runtime_cache
  unfolding go_on put_world store add_item
  number_asked h s (w, inl e) = (refl, refl, refl)
  number_asked h s (w, inr n) = (refl, refl, refl)

  number_known :
      (h : String) (s : Client World R) (o : Option ℕ)
      → SameRest s.runtime_cache
          ((elim o as (λ _. Run N ℕ) [
            | some n ↦ pure n
            | none ↦
                ask N (N.cached_get_block_number h)
                >>= (λ n. store N none (some n) (some h) none >> pure n)
          ])
            s).0.runtime_cache
  unfolding ask
  number_known h s none = number_asked h s (N.cached_get_block_number h s.world)
  number_known h s (some n) = (refl, refl, refl)

  number_same :
      (h : String) (s : Client World R)
      → SameRest s.runtime_cache (get_block_number N h s).0.runtime_cache
  unfolding get_block_number look_hash go_on
  number_same h s =
      number_known h (look_hash N h s).0
        (Lru.get String-discrete s.runtime_cache.blocks_reverse h).1

  IsReady-number :
      (h : String) (s s' : Client World R) (n : ℕ)
      → get_block_number N h s ≡ (s', inr n)
      → IsReady s.runtime_cache
      → IsReady s'.runtime_cache
  IsReady-number h s s' n e p =
      let same : (get_block_number N h s).0 ≡ s' = ap (λ x. x.0) e in
      let rest = number_same h s in
      rw (sym same) (record {
        valid = get_block_number-Keeps N h s p.valid;
        unknown = rest.0 ∙ p.unknown;
        hashes = rw rest.1 p.hashes;
        runtimes = rw rest.2 p.runtimes;
      })

  raised_or :
      (h : String) (o : Option R) (s s' : Client World R) (r : R)
      → runtime_or_raise N h o s ≡ (s', inr r)
      → s ≡ s'
  unfolding runtime_or_raise
  raised_or h none s s' r e = absurd (cc (ap (λ x. x.1) e))
  raised_or h (some x) s s' r e = ap (λ x. x.0) e

  -- The cache after a runtime has been loaded.
  loaded :
      (version : ℕ) (h : String) (s s' : Client World R) (r : R)
      → IsReady s.runtime_cache
      → load_for_version N version h s ≡ (s', inr r)
      → (c : RuntimeCache String R) × (n : ℕ) × IsReady c
        × (s'.runtime_cache ≡ add_item String-discrete c (some r) (some n) (some h) (some version))
  unfolding load_for_version
  loaded version h s s' r p e =
      let (parent, s1, e1, h1) = go_on-returned _ _ s' r e in
      let (n, s2, e2, h2) = go_on-returned _ _ s' r h1 in
      let (found, s3, e3, h3) = go_on-returned _ _ s' r h2 in
      let (r', s4, e4, h4) = go_on-returned _ _ s' r h3 in
      let (u, s5, e5, h5) = go_on-returned _ _ s' r h4 in
      let p1 = IsReady-ask (N.get_parent_block_hash h) s s1 parent e1 p in
      let p2 = IsReady-number h s1 s2 n e2 p1 in
      let p3 = IsReady-ask (N.load_runtime version parent) s2 s3 found e3 p2 in
      let same : r' ≡ r = inr_inj (ap (λ x. x.1) h5) in
      (
        s4.runtime_cache,
        n,
        rw (sym (raised_or parent found s3 s4 r' e4)) p3,
        sym (ap (λ x. x.0.runtime_cache) h5)
            ∙ sym (unfold store in ap (λ x. x.0.runtime_cache) e5)
            ∙ ap
                (λ x.
                  add_item String-discrete s4.runtime_cache (some x) (some n) (some h)
                    (some version))
                same,
      )

  pub no_startup :
      (init : Bool) (h : Option String) (s : Client World R)
      → s.startup ≡ false
      → startup_first N init h s ≡ (s, inr tt)
  unfolding startup_first
  no_startup true h s off = refl
  no_startup false h s off =
      ap (λ b. if b && same_hash N h s.startup_block_hash then await_startup N s else (s, inr tt))
        off

  -- Where the cache answers for a hash, `init_runtime` answers this.
  at_hash_found :
      (h : String) (s : Client World R) (r : R)
      → str_eq h "" ≡ false
      → (retrieve String-discrete s.runtime_cache none (some h) none).1 ≡ some r
      → (s'' : Client World R) × (at_hash N (some h) s ≡ (s'', inr r)) × (s''.world ≡ s.world)
  unfolding at_hash set_last go_on retrieve_from put_cache
  at_hash_found h s r some_hash found =
      let c = (retrieve String-discrete s.runtime_cache none (some h) none).0 in
      (record s { last_block_hash = some h; runtime_cache = c }, rw (some_hash, found) refl, refl)

  -- Once a runtime has been loaded for the hash of a block, into valid caches with room and with no
  -- versions known in advance, init_runtime with this hash answers it from the cache, without
  -- asking the node for anything, where no startup task is left.
  pub load_for_version-init_runtime :
      (version : ℕ) (h : String) (init : Bool) (s s' : Client World R) (r : R)
      → IsReady s.runtime_cache
      → str_eq h "" ≡ false
      → s'.startup ≡ false
      → load_for_version N version h s ≡ (s', inr r)
      → (s'' : Client World R) × (init_runtime N (some h) none init s' ≡ (s'', inr r))
        × (s''.world ≡ s'.world)
  unfolding init_runtime both_given at_block go_on
  load_for_version-init_runtime version h init s s' r p some_hash off e =
      let (c, n, ready, made) = loaded version h s s' r p e in
      let found : (retrieve String-discrete s'.runtime_cache none (some h) none).1 ≡ some r =
        rw made (
          retrieve_hash-add_item String-discrete c r n h version ready.unknown ready.valid
            ready.hashes ready.runtimes) in
      let (s'', answer, same) = at_hash_found h s' r some_hash found in
      (s'', rw (no_startup init (some h) s' off) answer, same)
