-- ===== src/Prelude/Dict.antt =====
-- Python's dictionaries as association lists in insertion order, over keys with a decidable
-- equality: `lookup` is the library's, `put` is `d[k] = v`, `remove` is `d.pop(k, None)`.
use Prim.Native.Nat.{◌+◌, ◌≤◌}
use mathlib.Core.Path.{◌≡◌, refl}
use mathlib.Core.Logic.{ite}
use mathlib.Core.Option.{none, some}
use mathlib.Core.List.{List, [], ◌∷◌, ◌++◌, map}
use native.Mathlib.Omega.{arith}
use async_substrate_interfac.Prelude.Lists.{length}
unfoldable pub use mathlib.Core.List.{lookup}

module _ {ℓ} {K V : Type ℓ} where
  abbrev pub keys : List (K × V) → List K
  keys = map (λ e. e.0)

  abbrev pub values : List (K × V) → List V
  values = map (λ e. e.1)

module _ {ℓ} {K V : Type ℓ} (dec : Discrete K) where
  -- A present key keeps its place, a new one comes last.
  unfoldable pub put : K → V → List (K × V) → List (K × V)
  put k v [] = (k, v) ∷ []
  put k v (e ∷ l) = ite (dec k e.0) ((k, v) ∷ l) (e ∷ put k v l)

  unfoldable pub remove : K → List (K × V) → List (K × V)
  remove k [] = []
  remove k (e ∷ l) = ite (dec k e.0) (remove k l) (e ∷ remove k l)

  -- No key occurs twice.
  abbrev pub IsDict : List (K × V) → Type ℓ
  IsDict [] = Unit
  IsDict (e ∷ l) = (lookup dec e.0 l ≡ none) × IsDict l

  pub lookup-put :
      (k : K) (v : V) (l : List (K × V)) (q : K)
      → lookup dec q (put k v l) ≡ ite (dec q k) (some v) (lookup dec q l)
  unfolding lookup put
  lookup-put k v [] q = ground arith
  lookup-put k v (e ∷ l) q = ground (arith, lookup-put k v l q)

  pub lookup-remove :
      (k : K) (l : List (K × V)) (q : K)
      → lookup dec q (remove k l) ≡ ite (dec q k) none (lookup dec q l)
  unfolding lookup remove
  lookup-remove k [] q = ground arith
  lookup-remove k (e ∷ l) q = ground (arith, lookup-remove k l q)

  pub lookup-append :
      (xs ys : List (K × V)) (q : K)
      → lookup dec q (xs ++ ys)
        ≡ elim (lookup dec q xs) [ none ↦ lookup dec q ys | some v ↦ some v ]
  unfolding lookup
  lookup-append [] ys q = refl
  lookup-append (e ∷ xs) ys q = ground (arith, lookup-append xs ys q)

  pub put_absent :
      (k : K) (v : V) (l : List (K × V)) → lookup dec k l ≡ none → put k v l ≡ l ++ (k, v) ∷ []
  unfolding lookup put
  put_absent k v [] h = refl
  put_absent k v (e ∷ l) h = ground (arith, put_absent k v l)

  pub remove_absent : (k : K) (l : List (K × V)) → lookup dec k l ≡ none → remove k l ≡ l
  unfolding lookup remove
  remove_absent k [] h = refl
  remove_absent k (e ∷ l) h = ground (arith, remove_absent k l)

  pub IsDict-put : (k : K) (v : V) (l : List (K × V)) → IsDict l → IsDict (put k v l)
  unfolding lookup put
  IsDict-put k v [] h = (refl, tt)
  IsDict-put k v (e ∷ l) h = ground (arith, IsDict-put k v l h.1, lookup-put k v l e.0)

  pub IsDict-remove : (k : K) (l : List (K × V)) → IsDict l → IsDict (remove k l)
  unfolding lookup remove
  IsDict-remove k [] h = tt
  IsDict-remove k (e ∷ l) h = ground (arith, IsDict-remove k l h.1, lookup-remove k l e.0)

  pub IsDict-append_one :
      (k : K) (v : V) (l : List (K × V))
      → IsDict l
      → lookup dec k l ≡ none
      → IsDict (l ++ (k, v) ∷ [])
  unfolding lookup
  IsDict-append_one k v [] h a = (refl, tt)
  IsDict-append_one k v (e ∷ l) h a =
      ground (arith, IsDict-append_one k v l h.1, lookup-append l ((k, v) ∷ []) e.0)

  pub length-remove-le : (k : K) (l : List (K × V)) → length (remove k l) ≤ length l
  unfolding remove
  length-remove-le k [] = omega arith
  length-remove-le k (e ∷ l) = ground (arith, length-remove-le k l)

  pub length-remove :
      (k : K) (l : List (K × V)) (v : V)
      → IsDict l
      → lookup dec k l ≡ some v
      → length (remove k l) + 1 ≡ length l
  unfolding lookup remove
  length-remove k [] v h e = cc
  length-remove k (x ∷ l) v h e = ground (arith, length-remove k l v h.1, remove_absent k l)

  -- Two assignments to one key are the later one.
  pub put_twice : (k : K) (v w : V) (l : List (K × V)) → put k w (put k v l) ≡ put k w l
  unfolding put
  put_twice k v w [] = ground arith
  put_twice k v w (e ∷ l) = ground (arith, put_twice k v w l)
