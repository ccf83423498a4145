-- ===== src/Cache/Lru/Recency.antt =====
-- LRUCache against an unbounded history ordered by use.
use async_substrate_interfac.Prelude.{
  ℕ, zero, suc, ◌+◌, ◌-◌, ◌≤◌, ◌≡◌, refl, ap, sym, ◌∙◌, inl, inr, Option, none, some, List, [], ◌∷◌,
  ◌++◌, arith, if_pos, if_neg, Option-cases, dec_le, length, drop, length-append, drop_of_length-le,
}
use async_substrate_interfac.Prelude.Dict.{lookup, remove, IsDict, remove_absent, length-remove}
use async_substrate_interfac.Cache.Lru.{LruCache, set, get}
use async_substrate_interfac.Cache.Lru.Invariant.{
  IsValid, window, touch, IsDict-touch, set-window, get-touch, get-lookup, set-IsValid, get-IsValid,
  max_size-set, max_size-get,
}

pub data Call {ℓ} (K V : Type ℓ) : Type ℓ where
  sets : K → V → Call K V
  gets : K → Call K V

window-cons {ℓ} :
    {A : Type ℓ} (n : ℕ) (x : A) (l : List A) → n ≤ length l → window n (x ∷ l) ≡ window n l
window-cons n x l h = let e : suc (length l) - n ≡ suc (length l - n) = omega arith in rw e

pub window-all {ℓ} : {A : Type ℓ} (n : ℕ) (l : List A) → length l ≤ n → window n l ≡ l
window-all n l h = let e : length l - n ≡ 0 = omega arith in rw e

pub drop-append {ℓ} :
    {A : Type ℓ} (n : ℕ) (xs ys : List A) → n ≤ length xs → drop n (xs ++ ys) ≡ drop n xs ++ ys
drop-append zero xs ys h = refl
drop-append (suc n) [] ys h = absurd (omega arith)
drop-append (suc n) (x ∷ xs) ys h = drop-append n xs ys (omega arith)

-- The newest item always stays in a window that is not empty.
pub window-append_one {ℓ} :
    {A : Type ℓ} (n : ℕ) (l : List A) (x : A) → window (suc n) (l ++ x ∷ []) ≡ window n l ++ x ∷ []
window-append_one n l x =
    let e : length (l ++ x ∷ []) - suc n ≡ length l - n = omega (arith, length-append l (x ∷ [])) in
    rw e (drop-append (length l - n) l (x ∷ []) (omega arith))

window-zero {ℓ} : {A : Type ℓ} (l : List A) → window 0 l ≡ []
window-zero l = drop_of_length-le (length l - 0) l (omega arith)

module _ {ℓ} {K V : Type ℓ} (dec : Discrete K) where
  -- One call on the cache; `set` returns `None`.
  unfoldable pub step : LruCache K V → Call K V → LruCache K V × Option V
  step c (sets k v) = (set dec c k v, none)
  step c (gets k) = get dec c k

  unfoldable pub run : LruCache K V → List (Call K V) → LruCache K V × List (Option V)
  unfolding step
  run c [] = (c, [])
  run c (call ∷ calls) =
      let (c', out) = step c call in let (c'', outs) = run c' calls in (c'', out ∷ outs)

  -- The history keeps every entry, least recently used first. A `get` sees the last `n` only, and
  -- its hit counts as a use.
  unfoldable pub ideal : ℕ → List (K × V) → Call K V → List (K × V) × Option V
  unfolding lookup remove
  ideal n h (sets k v) = (touch dec k v h, none)
  ideal n h (gets k) = elim (lookup dec k (window n h)) [
    | none ↦ (h, none)
    | some v ↦ (touch dec k v h, some v)
  ]

  unfoldable pub ideal_run : ℕ → List (K × V) → List (Call K V) → List (K × V) × List (Option V)
  unfolding ideal
  ideal_run n h [] = (h, [])
  ideal_run n h (call ∷ calls) =
      let (h', out) = ideal n h call in let (h'', outs) = ideal_run n h' calls in (h'', out ∷ outs)

  pub record Tracks (n : ℕ) (c : LruCache K V) (h : List (K × V)) : Type ℓ where
    pub valid : IsValid dec c
    pub sized : c.max_size ≡ n
    pub distinct : IsDict dec h
    pub recent : c.cache ≡ window n h

  length-remove-ge :
      (k : K) (l : List (K × V)) → IsDict dec l → length l ≤ length (remove dec k l) + 1
  unfolding remove
  length-remove-ge k [] d = omega arith
  length-remove-ge k (e ∷ l) d = ground (arith, length-remove-ge k l d.1, remove_absent dec k l)

  -- Whether the key heads the list or not, the last `n` entries without it come from the tail.
  window-remove_head :
      (n : ℕ) (k : K) (e : K × V) (l : List (K × V))
      → IsDict dec (e ∷ l)
      → n + 1 ≤ length l
      → window n (remove dec k (e ∷ l)) ≡ window n (remove dec k l)
  unfolding remove
  window-remove_head n k e l d h = elim (dec k e.0) [
    | yes p ↦ rw (if_pos _ p)
    | no p ↦
        rw (if_neg _ p) (window-cons n e (remove dec k l) (omega (arith, length-remove-ge k l d.1)))
  ]

  window-remove-window :
      (n : ℕ) (k : K) (l : List (K × V))
      → IsDict dec l
      → window n (remove dec k (window (suc n) l)) ≡ window n (remove dec k l)
  window-remove-window n k [] d = let e : 0 - suc n ≡ 0 = omega arith in rw e
  window-remove-window n k (e ∷ l) d = elim (dec_le (suc (length l)) (suc n)) [
    | yes fits ↦ rw (window-all (suc n) (e ∷ l) fits)
    | no over ↦
        rw (window-cons (suc n) e l (omega arith))
          (window-remove-window n k l d.1 ∙ sym (window-remove_head n k e l d (omega arith)))
  ]

  -- Only the last `n` entries matter for the last `n` entries after a use.
  window-touch :
      (n : ℕ) (k : K) (v : V) (l : List (K × V))
      → IsDict dec l
      → window n (touch dec k v (window n l)) ≡ window n (touch dec k v l)
  window-touch zero k v l d =
      window-zero (touch dec k v (window 0 l)) ∙ sym (window-zero (touch dec k v l))
  window-touch (suc n) k v l d =
      window-append_one n (remove dec k (window (suc n) l)) (k, v)
      ∙ ap (λ t. t ++ (k, v) ∷ []) (window-remove-window n k l d)
      ∙ sym (window-append_one n (remove dec k l) (k, v))

  set-Tracks :
      (n : ℕ) (c : LruCache K V) (h : List (K × V)) (k : K) (v : V)
      → Tracks n c h
      → Tracks n (set dec c k v) (touch dec k v h)
  set-Tracks n c h k v t = record {
    valid = set-IsValid dec c k v t.valid;
    sized = max_size-set dec c k v ∙ t.sized;
    distinct = IsDict-touch dec k v h t.distinct;
    recent =
        set-window dec c k v t.valid
        ∙ ap (λ m. window m (touch dec k v c.cache)) t.sized
        ∙ ap (λ l. window n (touch dec k v l)) t.recent
        ∙ window-touch n k v h t.distinct;
  }

  hit-Tracks :
      (n : ℕ) (c : LruCache K V) (h : List (K × V)) (k : K) (v : V)
      → Tracks n c h
      → lookup dec k c.cache ≡ some v
      → Tracks n (get dec c k).0 (touch dec k v h)
  hit-Tracks n c h k v t e = record {
    valid = get-IsValid dec c k t.valid;
    sized = max_size-get dec c k ∙ t.sized;
    distinct = IsDict-touch dec k v h t.distinct;
    recent =
        rw (get-touch dec c k, e)
          (fits ∙ ap (λ l. window n (touch dec k v l)) t.recent ∙ window-touch n k v h t.distinct);
  }
    where
      fits : touch dec k v c.cache ≡ window n (touch dec k v c.cache)
      fits = sym (
          window-all n (touch dec k v c.cache) (
            omega (
              arith,
              length-append (remove dec k c.cache) ((k, v) ∷ []),
              length-remove dec k c.cache v t.valid.distinct e,
              t.valid.bounded,
              t.sized,
            )))

  step-Tracks :
      (n : ℕ) (c : LruCache K V) (h : List (K × V)) (call : Call K V)
      → Tracks n c h
      → Tracks n (step c call).0 (ideal n h call).0 × ((step c call).1 ≡ (ideal n h call).1)
  unfolding step ideal
  step-Tracks n c h (sets k v) t = (set-Tracks n c h k v t, refl)
  step-Tracks n c h (gets k) t = elim (Option-cases (lookup dec k c.cache)) [
    | inl absent ↦
        let same : lookup dec k (window n h) ≡ none = rw (← t.recent) absent in
        rw (same, ideal, get-touch dec c k, get-lookup dec c k, absent) (t, refl)
    | inr (v, present) ↦
        let same : lookup dec k (window n h) ≡ some v = rw (← t.recent) present in
        rw (same, ideal, get-lookup dec c k, present) (hit-Tracks n c h k v t present, refl)
  ]

  -- From a cache that is the window of a history, whatever the calls, every `get` answers as the
  -- history does, and the cache ends as the `n` most recently used entries of it, in order.
  pub run-Tracks :
      (n : ℕ) (c : LruCache K V) (h : List (K × V)) (calls : List (Call K V))
      → Tracks n c h
      → Tracks n (run c calls).0 (ideal_run n h calls).0
        × ((run c calls).1 ≡ (ideal_run n h calls).1)
  unfolding run ideal_run
  run-Tracks n c h [] t = (t, refl)
  run-Tracks n c h (call ∷ calls) t =
      let (t', same) = step-Tracks n c h call t in
      let (t'', sames) = run-Tracks n (step c call).0 (ideal n h call).0 calls t' in
      (t'', cc (same, sames))
