-- ===== src/Cache/Lru/Entries.antt =====
-- What holds of all entries of an LRUCache of async_substrate_interface/utils/cache.py.
use async_substrate_interfac.Prelude.{
  ℕ, ◌≡◌, some, List, [], ◌∷◌, is_some, All, Option-cases, inl, inr, Bool-cases, ltb, length,
}
use async_substrate_interfac.Prelude.Dict.{lookup, put, remove}
use async_substrate_interfac.Prelude.Every.{All-put, All-remove, All-lookup, All-append}
use async_substrate_interfac.Cache.Lru.{LruCache, pop_excess, move_to_end, set, get}

module _ {K V : Type 0} (dec : Discrete K) (P : K × V → Type 0) where
  move_to_end-All : (k : K) (l : List (K × V)) → All P l → All P (move_to_end dec k l)
  unfolding move_to_end
  move_to_end-All k l h = elim (Option-cases (lookup dec k l)) [
    | inl missing ↦ rw (move_to_end, missing) h
    | inr (v, there) ↦
        rw (move_to_end, there)
          (All-append P (remove dec k l) ((k, v) ∷ []) (All-remove dec P k l h)
            (All-lookup dec P k v l h there, tt))
  ]

  pop_excess-All : (n : ℕ) (l : List (K × V)) → All P l → All P (pop_excess n l)
  unfolding pop_excess
  pop_excess-All n [] h = elim (Bool-cases (ltb n 0)) [
    | inl full ↦ rw full tt
    | inr room ↦ rw room tt
  ]
  pop_excess-All n (e ∷ l) h = elim (Bool-cases (ltb n (length (e ∷ l)))) [
    | inl full ↦ rw full h.1
    | inr room ↦ rw room h
  ]

  pub set-All :
      (c : LruCache K V) (k : K) (v : V) → P (k, v) → All P c.cache → All P (set dec c k v).cache
  unfolding set
  set-All c k v new h = elim (Bool-cases (is_some (lookup dec k c.cache))) [
    | inl there ↦ rw there (
        pop_excess-All c.max_size (put dec k v (move_to_end dec k c.cache))
          (All-put dec P k v (move_to_end dec k c.cache) new (move_to_end-All k c.cache h)))
    | inr missing ↦
        rw missing
          (pop_excess-All c.max_size (put dec k v c.cache) (All-put dec P k v c.cache new h))
  ]

  pub get-All : (c : LruCache K V) (k : K) → All P c.cache → All P (get dec c k).0.cache
  unfolding get
  get-All c k h = elim (Bool-cases (is_some (lookup dec k c.cache))) [
    | inl there ↦ rw there (move_to_end-All k c.cache h)
    | inr missing ↦ rw missing h
  ]

  pub get-found :
      (c : LruCache K V) (k : K) (v : V) → All P c.cache → (get dec c k).1 ≡ some v → P (k, v)
  unfolding get
  get-found c k v h e = elim (Bool-cases (is_some (lookup dec k c.cache))) [
    | inl there ↦
        All-lookup dec P k v (move_to_end dec k c.cache) (move_to_end-All k c.cache h)
          (rw there at e)
    | inr missing ↦ absurd (cc (rw missing at e))
  ]
