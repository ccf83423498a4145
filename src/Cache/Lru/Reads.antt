-- ===== src/Cache/Lru/Reads.antt =====
-- What `get` of LRUCache finds after `set`.
use async_substrate_interfac.Prelude.{
  ℕ, zero, suc, ◌-◌, ◌<◌, ◌≡◌, ◌≢◌, refl, ap, ◌∙◌, some, none, List, [], ◌∷◌, arith, inl, inr,
  Option-cases, if_pos, if_neg, length, drop, length-append,
}
use async_substrate_interfac.Prelude.Dict.{
  lookup, remove, lookup-remove, lookup-append, length-remove-le,
}
use async_substrate_interfac.Cache.Lru.{LruCache, set, get}
use async_substrate_interfac.Cache.Lru.Invariant.{
  IsValid, window, touch, lookup-touch, set-window, get-touch,
}
use async_substrate_interfac.Cache.Lru.Recency.{window-append_one, window-all}

module _ {ℓ} {K V : Type ℓ} (dec : Discrete K) where
  drop_absent :
      (n : ℕ) (k : K) (l : List (K × V)) → lookup dec k l ≡ none → lookup dec k (drop n l) ≡ none
  unfolding lookup
  drop_absent zero k l h = h
  drop_absent (suc n) k [] h = refl
  drop_absent (suc n) k (e ∷ l) h = drop_absent n k l (ground arith)

  -- Right after `set`, with room for one entry, the stored value is found.
  pub lookup-set_self :
      (c : LruCache K V) (k : K) (v : V)
      → IsValid dec c
      → 0 < c.max_size
      → lookup dec k (set dec c k v).cache ≡ some v
  lookup-set_self c k v h pos =
      let n = c.max_size - 1 in
      let e : c.max_size ≡ suc n = omega arith in
      let gone : lookup dec k (window n (remove dec k c.cache)) ≡ none =
        drop_absent (length (remove dec k c.cache) - n) k (remove dec k c.cache)
          (lookup-remove dec k c.cache k ∙ if_pos (dec k k) refl none (lookup dec k c.cache)) in
      ap (lookup dec k) (
        set-window dec c k v h
        ∙ ap (λ m. window m (touch dec k v c.cache)) e
        ∙ window-append_one n (remove dec k c.cache) (k, v))
      ∙ lookup-append dec (window n (remove dec k c.cache)) ((k, v) ∷ []) k
      ∙ unfold lookup in rw gone (if_pos (dec k k) refl (some v) none)

  -- While the cache has room, `set` leaves what is found under every other key.
  pub lookup-set_ne :
      (c : LruCache K V) (k q : K) (v : V)
      → IsValid dec c
      → length c.cache < c.max_size
      → q ≢ k
      → lookup dec q (set dec c k v).cache ≡ lookup dec q c.cache
  lookup-set_ne c k q v h room ne =
      ap (lookup dec q) (
        set-window dec c k v h
        ∙ window-all c.max_size (touch dec k v c.cache) (
            omega (
              arith,
              length-append (remove dec k c.cache) ((k, v) ∷ []),
              length-remove-le dec k c.cache,
            )))
      ∙ lookup-touch dec k v c.cache q
      ∙ if_neg (dec q k) ne (some v) (lookup dec q c.cache)

  -- `get` leaves what is found under every key.
  pub lookup-get :
      (c : LruCache K V) (k q : K) → lookup dec q (get dec c k).0.cache ≡ lookup dec q c.cache
  lookup-get c k q = elim (Option-cases (lookup dec k c.cache)) [
    | inl absent ↦ rw (get-touch dec c k, absent)
    | inr (v, present) ↦
        rw (get-touch dec c k, present) (ground (arith, lookup-touch dec k v c.cache q))
  ]
