-- ===== src/Runtimes/Load/Versions.antt =====
-- Which runtime `init_runtime` (async_substrate_interface/async_substrate.py) answers for a hash.
use async_substrate_interfac.Prelude.{
  ℕ, ◌≡◌, refl, ◌∙◌, sym, String, Bool, false, Option, none, some, inr, ℕ_discrete, inr_inj, ap,
}
use async_substrate_interfac.Prelude.Strings.{String-discrete}
use async_substrate_interfac.Prelude.Action.{go_on}
use async_substrate_interfac.Cache.Lru.Entries.{set-All, get-All, get-found}
use async_substrate_interfac.Runtimes.{add_item}
use async_substrate_interfac.Runtimes.Load.{
  Client, Node, ask, retrieve_from, store, get_block_number, runtime_or_raise, load_for_version,
  look_runtime, keep_runtime, get_runtime_for_version, get_block_runtime_version_for, of_version,
  by_version, set_last, at_hash, at_block, both_given, init_runtime,
}
use async_substrate_interfac.Runtimes.Load.Again.{no_startup}
use async_substrate_interfac.Runtimes.Load.Sound.{
  Chain, IsHash, IsRuntime, Sound, Ends, returned-Ends, raised-Ends, bind-Ends, either-Ends,
  ask-Ends, Nothing, number-Ends, Right, OfVersion, SpecOf,
}
use async_substrate_interfac.Runtimes.Load.Found.{found_version-Ends, found_hash-Ends}
use text.Mathlib.Text.{◌==◌ as str_eq}

module _ (N : Node) (C : Chain N) where
  open N use {World, Error, R}

  store-Ends :
      (r : R) (n v : ℕ) (h : String) (s : Client World R)
      → Sound N C s
      → Right N C h r
      → v ≡ C.spec (C.parent h)
      → Ends N C (Nothing N C) (store N (some r) (some n) (some h) (some v) s)
  unfolding store add_item
  store-Ends r n v h s p right e = (
    record {
      unknown = p.unknown;
      hashes = set-All String-discrete (IsHash N C) s.runtime_cache.block_hashes h v e p.hashes;
      versions =
          set-All ℕ_discrete (IsRuntime N C) s.runtime_cache.versions v r (right ∙ sym e)
            p.versions;
      runtimes = p.runtimes;
    },
    λ a e'. tt,
  )

  raise-Ends :
      (h : String) (o : Option R) (P : R → Type 0) (s : Client World R)
      → Sound N C s
      → ((r : R) → o ≡ some r → P r)
      → Ends N C P (runtime_or_raise N h o s)
  unfolding runtime_or_raise
  raise-Ends h none P s p q = raised-Ends N C P s _ p
  raise-Ends h (some r) P s p q = returned-Ends N C P s r p (q r refl)

  load-Ends :
      (v : ℕ) (h : String) (s : Client World R)
      → Sound N C s
      → v ≡ C.spec (C.parent h)
      → Ends N C (Right N C h) (load_for_version N v h s)
  unfolding load_for_version
  load-Ends v h s p e =
      bind-Ends N C (λ b. b ≡ C.parent h) (Right N C h) (ask N (N.get_parent_block_hash h)) _ s
        (ask-Ends N C (λ b. b ≡ C.parent h) (N.get_parent_block_hash h) s p (C.parents h s.world))
        (λ b s1 p1 is_parent.
          bind-Ends N C (Nothing N C) (Right N C h) (get_block_number N h) _ s1
            (number-Ends N C h s1 p1)
            (λ n s2 p2 u.
              bind-Ends N C (λ o. (r : R) → o ≡ some r → Right N C h r) (Right N C h)
                (ask N (N.load_runtime v b)) _ s2
                (ask-Ends N C (λ o. (r : R) → o ≡ some r → Right N C h r) (N.load_runtime v b) s2 p2
                  (λ o e' r e''.
                    C.loads v b s2.world r (e' ∙ ap (λ x. inr x) e'') ∙ ap C.spec is_parent))
                (λ o s3 p3 right.
                  bind-Ends N C (Right N C h) (Right N C h) (runtime_or_raise N b o) _ s3
                    (raise-Ends b o (Right N C h) s3 p3 right)
                    (λ r s4 p4 right'.
                      bind-Ends N C (Nothing N C) (Right N C h)
                        (store N (some r) (some n) (some h) (some v)) _ s4
                        (store-Ends r n v h s4 p4 right' e)
                        (λ u5 s5 p5 u6. returned-Ends N C (Right N C h) s5 r p5 right')))))

  look-Ends :
      (v : ℕ) (s : Client World R) → Sound N C s → Ends N C (OfVersion N C v) (look_runtime N v s)
  unfolding look_runtime
  look-Ends v s p = (
    record {
      unknown = p.unknown;
      hashes = p.hashes;
      versions = p.versions;
      runtimes = get-All ℕ_discrete (IsRuntime N C) s.runtimes v p.runtimes;
    },
    λ o e r e'. get-found ℕ_discrete (IsRuntime N C) s.runtimes v r p.runtimes (inr_inj e ∙ e'),
  )

  keep-Ends :
      (v : ℕ) (h : String) (r : R) (s : Client World R)
      → Sound N C s
      → Right N C h r
      → v ≡ C.spec (C.parent h)
      → Ends N C (Right N C h) (keep_runtime N v r s)
  unfolding keep_runtime
  keep-Ends v h r s p right e = (
    record {
      unknown = p.unknown;
      hashes = p.hashes;
      versions = p.versions;
      runtimes = set-All ℕ_discrete (IsRuntime N C) s.runtimes v r (right ∙ sym e) p.runtimes;
    },
    λ r' e'. rw (sym (inr_inj e')) right,
  )

  get_runtime-Ends :
      (v : ℕ) (h : String) (s : Client World R)
      → Sound N C s
      → v ≡ C.spec (C.parent h)
      → Ends N C (Right N C h) (get_runtime_for_version N v h s)
  unfolding get_runtime_for_version
  get_runtime-Ends v h s p e =
      bind-Ends N C (OfVersion N C v) (Right N C h) (look_runtime N v) _ s (look-Ends v s p)
        (λ known s1 p1 of.
          either-Ends N C (λ r. C.version_of r ≡ v) (Right N C h) known _ _ s1 of
            (bind-Ends N C (Right N C h) (Right N C h) (load_for_version N v h) _ s1
              (load-Ends v h s1 p1 e) (λ r s2 p2 right. keep-Ends v h r s2 p2 right e))
            (λ r is. returned-Ends N C (Right N C h) s1 r p1 (is ∙ e)))

  of_version-Ends :
      (h : String) (o : Option ℕ) (s : Client World R)
      → Sound N C s
      → ((v : ℕ) → o ≡ some v → v ≡ C.spec (C.parent h))
      → Ends N C (Right N C h) (of_version N h o s)
  unfolding of_version
  of_version-Ends h none s p is = raised-Ends N C (Right N C h) s _ p
  of_version-Ends h (some v) s p is =
      bind-Ends N C (OfVersion N C v) (Right N C h) (retrieve_from N none none (some v)) _ s
        (found_version-Ends N C v s p)
        (λ found s1 p1 of.
          either-Ends N C (λ r. C.version_of r ≡ v) (Right N C h) found _ _ s1 of
            (get_runtime-Ends v h s1 p1 (is v refl))
            (λ r e. returned-Ends N C (Right N C h) s1 r p1 (e ∙ is v refl)))

  by_version-Ends :
      (h : String) (s : Client World R) → Sound N C s → Ends N C (Right N C h) (by_version N h s)
  unfolding by_version get_block_runtime_version_for
  by_version-Ends h s p =
      bind-Ends N C (SpecOf N C h) (Right N C h) (get_block_runtime_version_for N h) _ s
        (bind-Ends N C (λ b. b ≡ C.parent h) (SpecOf N C h) (ask N (N.get_parent_block_hash h)) _ s
          (ask-Ends N C (λ b. b ≡ C.parent h) (N.get_parent_block_hash h) s p (C.parents h s.world))
          (λ b s1 p1 is.
            ask-Ends N C (SpecOf N C h) (N.get_block_runtime_info b) s1 p1
              (λ o e v e'. C.infos b s1.world v (e ∙ ap (λ x. inr x) e') ∙ ap C.spec is)))
        (λ o s2 p2 is. of_version-Ends h o s2 p2 is)

  at_hash-Ends :
      (h : String) (s : Client World R)
      → str_eq h "" ≡ false
      → Sound N C s
      → Ends N C (Right N C h) (at_hash N (some h) s)
  unfolding at_hash set_last
  at_hash-Ends h s some_hash p = rw some_hash (
      bind-Ends N C (Nothing N C) (Right N C h) (set_last N h) _ s (p, λ a e. tt)
        (λ u s1 p1 u'.
          bind-Ends N C (λ o. (r : R) → o ≡ some r → Right N C h r) (Right N C h)
            (retrieve_from N none (some h) none) _ s1 (found_hash-Ends N C h s1 p1)
            (λ found s2 p2 right.
              either-Ends N C (Right N C h) (Right N C h) found _ _ s2 right
                (by_version-Ends h s2 p2)
                (λ r right'. returned-Ends N C (Right N C h) s2 r p2 right'))))

  -- Where the node answers by one chain, every entry of the caches from a hash to a version and from
  -- a version to a runtime is right for it, no versions are known in advance and no startup task is
  -- left, init_runtime with a hash that is not empty leaves every entry of them right however it
  -- ends, and where it returns a runtime, from a cache or loaded, this is of the spec version of the
  -- parent of the block with the hash.
  pub init_runtime-IsSound :
      (h : String) (init : Bool) (s : Client World R)
      → str_eq h "" ≡ false
      → s.startup ≡ false
      → Sound N C s
      → Sound N C (init_runtime N (some h) none init s).0
        × ((r : R)
            → (init_runtime N (some h) none init s).1 ≡ inr r
            → C.version_of r ≡ C.spec (C.parent h))
  unfolding init_runtime both_given at_block go_on
  init_runtime-IsSound h init s some_hash off p =
      rw (no_startup N init (some h) s off) (at_hash-Ends h s some_hash p)
