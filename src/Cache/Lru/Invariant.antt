-- ===== src/Cache/Lru/Invariant.antt =====
-- What `set` and `get` of LRUCache compute, and the invariant that they keep.
use async_substrate_interfac.Prelude.{
  ℕ, zero, suc, ◌+◌, ◌-◌, ◌≤◌, ◌≡◌, refl, inl, inr, none, some, List, [], ◌∷◌, ◌++◌, arith, true,
  false, ite, if_pos, ltb, Bool-cases, Option-cases, length, drop, length-append, length-drop,
}
use async_substrate_interfac.Prelude.Dict.{
  lookup, put, remove, IsDict, lookup-remove, lookup-append, put_absent, remove_absent,
  IsDict-remove, IsDict-append_one, length-remove,
}
use async_substrate_interfac.Cache.Lru.{LruCache, move_to_end, pop_excess, set, get}

pub record IsValid {ℓ} {K V : Type ℓ} (dec : Discrete K) (c : LruCache K V) : Type ℓ where
  pub distinct : IsDict dec c.cache
  pub bounded : length c.cache ≤ c.max_size

-- The last `n` items.
abbrev pub window {ℓ} : {A : Type ℓ} → ℕ → List A → List A
window n l = drop (length l - n) l

pub length-window-le {ℓ} : {A : Type ℓ} (n : ℕ) (l : List A) → length (window n l) ≤ n
length-window-le n l = omega (arith, length-drop (length l - n) l)

pop_excess-window {ℓ} :
    {A : Type ℓ} (n : ℕ) (l : List A) → length l ≤ n + 1 → pop_excess n l ≡ window n l
unfolding pop_excess
pop_excess-window n l h =
    let one : ltb n (length l) ≡ true → length l - n ≡ 1 = λ e. ground arith in
    let none_over : ltb n (length l) ≡ false → length l - n ≡ 0 = λ e. ground arith in
    elim (Bool-cases (ltb n (length l))) [ inl e ↦ rw (e, one e) | inr e ↦ rw (e, none_over e) ]

module _ {ℓ} {K V : Type ℓ} (dec : Discrete K) where
  -- The key's entry becomes the most recent one.
  abbrev pub touch : K → V → List (K × V) → List (K × V)
  touch k v l = remove dec k l ++ (k, v) ∷ []

  lookup-removed : (k : K) (l : List (K × V)) → lookup dec k (remove dec k l) ≡ none
  lookup-removed k l = ground (arith, lookup-remove dec k l k)

  put-append_last :
      (k : K) (v w : V) (l : List (K × V))
      → lookup dec k l ≡ none
      → put dec k v (l ++ (k, w) ∷ []) ≡ l ++ (k, v) ∷ []
  unfolding put lookup
  put-append_last k v w [] h = ground arith
  put-append_last k v w (e ∷ l) h = ground (arith, put-append_last k v w l)

  pub lookup-touch :
      (k : K) (v : V) (l : List (K × V)) (q : K)
      → lookup dec q (touch k v l) ≡ ite (dec q k) (some v) (lookup dec q l)
  unfolding lookup
  lookup-touch k v l q =
      ground (arith, lookup-append dec (remove dec k l) ((k, v) ∷ []) q, lookup-remove dec k l q)

  pub IsDict-touch : (k : K) (v : V) (l : List (K × V)) → IsDict dec l → IsDict dec (touch k v l)
  IsDict-touch k v l h =
      IsDict-append_one dec k v (remove dec k l) (IsDict-remove dec k l h)
        (ground (arith, lookup-remove dec k l k))

  IsDict-drop : (n : ℕ) (l : List (K × V)) → IsDict dec l → IsDict dec (drop n l)
  IsDict-drop zero l h = h
  IsDict-drop (suc n) [] h = tt
  IsDict-drop (suc n) (e ∷ l) h = IsDict-drop n l h.1

  move_to_end-touch :
      (k : K) (v : V) (l : List (K × V))
      → lookup dec k l ≡ some v
      → move_to_end dec k l ≡ touch k v l
  unfolding move_to_end
  move_to_end-touch k v l h = ground arith

  pub set-window :
      (c : LruCache K V) (k : K) (v : V)
      → IsValid dec c
      → (set dec c k v).cache ≡ window c.max_size (touch k v c.cache)
  unfolding set
  set-window c k v h = elim (Option-cases (lookup dec k c.cache)) [
    | inl absent ↦
        rw (absent, put_absent dec k v c.cache absent, remove_absent dec k c.cache absent)
          (pop_excess-window c.max_size _ (omega (arith, length-append c.cache ((k, v) ∷ []))))
    | inr (w, present) ↦
        rw
          (
            present,
            move_to_end-touch k w c.cache present,
            put-append_last k v w (remove dec k c.cache) (lookup-removed k c.cache),
          )
          (pop_excess-window c.max_size _ (
            omega (
              arith,
              length-append (remove dec k c.cache) ((k, v) ∷ []),
              length-remove dec k c.cache w h.distinct present,
              h.bounded,
            )))
  ]

  pub get-touch :
      (c : LruCache K V) (k : K)
      → (get dec c k).0
        ≡ elim (lookup dec k c.cache) [ none ↦ c | some v ↦ record c { cache = touch k v c.cache } ]
  unfolding get
  get-touch c k = ground arith

  -- `get` returns the stored value.
  pub get-lookup : (c : LruCache K V) (k : K) → (get dec c k).1 ≡ lookup dec k c.cache
  unfolding get
  get-lookup c k = elim (Option-cases (lookup dec k c.cache)) [
    | inl absent ↦ rw absent
    | inr (v, present) ↦
        rw (present, move_to_end-touch k v c.cache present, lookup-touch k v c.cache k)
          (if_pos (dec k k) refl _ _)
  ]

  pub max_size-set : (c : LruCache K V) (k : K) (v : V) → (set dec c k v).max_size ≡ c.max_size
  unfolding set
  max_size-set c k v = refl

  pub max_size-get : (c : LruCache K V) (k : K) → (get dec c k).0.max_size ≡ c.max_size
  unfolding get
  max_size-get c k = ground arith

  -- A valid cache stays valid under `set`: no key twice, never more than `max_size` entries.
  pub set-IsValid : (c : LruCache K V) (k : K) (v : V) → IsValid dec c → IsValid dec (set dec c k v)
  set-IsValid c k v h = record {
    distinct = rw (set-window c k v h) (IsDict-drop _ _ (IsDict-touch k v c.cache h.distinct));
    bounded =
        rw (set-window c k v h, max_size-set c k v)
          (length-window-le c.max_size (touch k v c.cache));
  }

  pub get-IsValid : (c : LruCache K V) (k : K) → IsValid dec c → IsValid dec (get dec c k).0
  get-IsValid c k h = elim (Option-cases (lookup dec k c.cache)) [
    | inl absent ↦ rw (get-touch c k, absent) h
    | inr (v, present) ↦
        rw (get-touch c k, present)
          (record {
            distinct = IsDict-touch k v c.cache h.distinct;
            bounded = omega (
              arith,
              length-append (remove dec k c.cache) ((k, v) ∷ []),
              length-remove dec k c.cache v h.distinct present,
              h.bounded,
            );
          })
  ]
