-- ===== src/Runtimes/Load/Sound.antt =====
-- A client whose caches are right for one chain, and what runs of
-- async_substrate_interface/async_substrate.py leave it so.
use async_substrate_interfac.Prelude.{
  ℕ, ◌≡◌, refl, ◌∙◌, sym, String, Option, none, some, [], inl, inr, ◌⊎◌, All, inr_inj,
}
use async_substrate_interfac.Prelude.Action.{Action, go_on, ◌>>=◌}
use async_substrate_interfac.Cache.Lru.{LruCache}
use async_substrate_interfac.Runtimes.{RuntimeCache, add_item}
use async_substrate_interfac.Runtimes.Load.{
  Client, Node, Run, put_world, ask, store, look_hash, get_block_number,
}

module _ (N : Node) where
  open N use {World, Error, R}

  -- The node answers by one chain: a block has one parent, a block one spec version, and the
  -- runtime that is loaded from a block is of the spec version of that block.
  pub record Chain : Type 0 where
    pub parent : String → String
    pub spec : String → ℕ
    pub version_of : R → ℕ
    pub parents :
        (h : String) (w : World) (p : String)
        → (N.get_parent_block_hash h w).1 ≡ inr p
        → p ≡ parent h
    pub infos :
        (h : String) (w : World) (v : ℕ)
        → (N.get_block_runtime_info h w).1 ≡ inr (some v)
        → v ≡ spec h
    pub loads :
        (v : ℕ) (h : String) (w : World) (r : R)
        → (N.load_runtime v h w).1 ≡ inr (some r)
        → version_of r ≡ spec h

  module _ (C : Chain) where
    -- The version that the cache of hashes has to have for the hash.
    abbrev pub IsHash : String × ℕ → Type 0
    IsHash e = e.1 ≡ C.spec (C.parent e.0)

    abbrev pub IsRuntime : ℕ × R → Type 0
    IsRuntime e = C.version_of e.1 ≡ e.0

    -- Every entry of the caches is right for its key, and no versions are known in advance.
    pub record IsSound (c : RuntimeCache String R) (l : LruCache ℕ R) : Type 0 where
      pub unknown : c.known_version_blocks ≡ []
      pub hashes : All IsHash c.block_hashes.cache
      pub versions : All IsRuntime c.versions.cache
      pub runtimes : All IsRuntime l.cache

    abbrev pub Sound : Client World R → Type 0
    Sound s = IsSound s.runtime_cache s.runtimes

    -- However it ends the client is sound, and what it returns has the property.
    abbrev pub Ends : {A : Type 0} → (A → Type 0) → Client World R × (Error ⊎ A) → Type 0
    Ends {A} P x = Sound x.0 × ((a : A) → x.1 ≡ inr a → P a)

    pub returned-Ends :
        {A : Type 0} (P : A → Type 0) (s : Client World R) (a : A)
        → Sound s
        → P a
        → Ends P (s, inr a)
    returned-Ends P s a h p = (h, λ a' e. rw (sym (inr_inj e)) p)

    pub raised-Ends :
        {A : Type 0} (P : A → Type 0) (s : Client World R) (e : Error) → Sound s → Ends P (s, inl e)
    raised-Ends P s e h = (h, λ a e'. absurd (cc e'))

    go_on-Ends :
        {A B : Type 0} (P : A → Type 0) (Q : B → Type 0) (f : A → Run N B)
        (r : Client World R × (Error ⊎ A))
        → Ends P r
        → ((a : A) (s : Client World R) → Sound s → P a → Ends Q (f a s))
        → Ends Q (go_on f r)
    unfolding go_on
    go_on-Ends P Q f (s, inl e) h next = raised-Ends Q s e h.0
    go_on-Ends P Q f (s, inr a) h next = next a s h.0 (h.1 a refl)

    pub bind-Ends :
        {A B : Type 0} (P : A → Type 0) (Q : B → Type 0) (m : Run N A) (f : A → Run N B)
        (s : Client World R)
        → Ends P (m s)
        → ((a : A) (s' : Client World R) → Sound s' → P a → Ends Q (f a s'))
        → Ends Q ((m >>= f) s)
    bind-Ends P Q m f s first next = go_on-Ends P Q f (m s) first next

    pub either-Ends :
        {A B : Type 0} (P : A → Type 0) (Q : B → Type 0) (o : Option A) (m : Run N B)
        (f : A → Run N B) (s : Client World R)
        → ((a : A) → o ≡ some a → P a)
        → Ends Q (m s)
        → ((a : A) → P a → Ends Q (f a s))
        → Ends Q ((elim o as (λ _. Run N B) [ none ↦ m | some a ↦ f a ]) s)
    either-Ends P Q none m f s p at_none at_some = at_none
    either-Ends P Q (some a) m f s p at_none at_some = at_some a (p a refl)

    put_world-Ends :
        {A : Type 0} (P : A → Type 0) (s : Client World R) (r : World × (Error ⊎ A))
        → Sound s
        → ((a : A) → r.1 ≡ inr a → P a)
        → Ends P (put_world N s r)
    unfolding put_world
    put_world-Ends P s (w, a) h p = (h, p)

    pub ask-Ends :
        {A : Type 0} (P : A → Type 0) (m : Action World Error A) (s : Client World R)
        → Sound s
        → ((a : A) → (m s.world).1 ≡ inr a → P a)
        → Ends P (ask N m s)
    unfolding ask
    ask-Ends P m s h p = put_world-Ends P s (m s.world) h p

    abbrev pub Nothing : {A : Type 0} → A → Type 0
    Nothing a = Unit

    -- Sound is about two caches and the known versions of a RuntimeCache.
    pub same-IsSound :
        (c c' : RuntimeCache String R) (l : LruCache ℕ R)
        → IsSound c l
        → c'.known_version_blocks ≡ c.known_version_blocks
        → c'.block_hashes ≡ c.block_hashes
        → c'.versions ≡ c.versions
        → IsSound c' l
    same-IsSound c c' l h a b d = record {
      unknown = a ∙ h.unknown;
      hashes = rw b h.hashes;
      versions = rw d h.versions;
      runtimes = h.runtimes;
    }

    note_number-Ends :
        (n : ℕ) (h : String) (s : Client World R)
        → Sound s
        → Ends Nothing (store N none (some n) (some h) none s)
    unfolding store add_item
    note_number-Ends n h s p =
        (same-IsSound s.runtime_cache _ s.runtimes p refl refl refl, λ a e. tt)

    look_hash-Ends : (h : String) (s : Client World R) → Sound s → Ends Nothing (look_hash N h s)
    unfolding look_hash
    look_hash-Ends h s p = (same-IsSound s.runtime_cache _ s.runtimes p refl refl refl, λ a e. tt)

    pub number-Ends :
        (h : String) (s : Client World R) → Sound s → Ends Nothing (get_block_number N h s)
    unfolding get_block_number
    number-Ends h s p =
        bind-Ends Nothing Nothing (look_hash N h) _ s (look_hash-Ends h s p) (λ known s1 p1 u.
          either-Ends Nothing Nothing known _ _ s1 (λ a e. tt)
            (bind-Ends Nothing Nothing (ask N (N.cached_get_block_number h)) _ s1
              (ask-Ends Nothing (N.cached_get_block_number h) s1 p1 (λ a e. tt))
              (λ n s2 p2 u'.
                bind-Ends Nothing Nothing (store N none (some n) (some h) none) _ s2
                  (note_number-Ends n h s2 p2) (λ u2 s3 p3 u3. (p3, λ a e. tt))))
            (λ n u'. (p1, λ a e. tt)))

    -- A runtime of the version that the chain has for the block.
    abbrev pub Right : String → R → Type 0
    Right h r = C.version_of r ≡ C.spec (C.parent h)

    -- A runtime that is of a version, where there is one.
    abbrev pub OfVersion : ℕ → Option R → Type 0
    OfVersion v o = (r : R) → o ≡ some r → C.version_of r ≡ v

    abbrev pub SpecOf : String → Option ℕ → Type 0
    SpecOf h o = (v : ℕ) → o ≡ some v → v ≡ C.spec (C.parent h)
