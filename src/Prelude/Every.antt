-- ===== src/Prelude/Every.antt =====
-- Properties that every item of a list has.
use mathlib.Core.Path.{◌≡◌, sym}
use mathlib.Core.Logic.{if_pos, if_neg}
use mathlib.Core.Option.{some}
use mathlib.Core.List.{List, [], ◌∷◌, ◌++◌, map}
use native.Mathlib.Omega.{arith}
use Prim.Native.Nat.{ℕ, zero, suc}
use async_substrate_interfac.Prelude.Lists.{All, drop}
use async_substrate_interfac.Prelude.Dict.{lookup, put, remove}

-- A property of every entry of a dictionary.
module _ {K V : Type 0} (dec : Discrete K) (P : K × V → Type 0) where
  pub All-put : (k : K) (v : V) (l : List (K × V)) → P (k, v) → All P l → All P (put dec k v l)
  unfolding put
  All-put k v [] new h = (new, tt)
  All-put k v (e ∷ l) new h = ground (arith, All-put k v l new h.1)

  pub All-remove : (k : K) (l : List (K × V)) → All P l → All P (remove dec k l)
  unfolding remove
  All-remove k [] h = tt
  All-remove k (e ∷ l) h = ground (arith, All-remove k l h.1)

  pub All-lookup : (k : K) (v : V) (l : List (K × V)) → All P l → lookup dec k l ≡ some v → P (k, v)
  unfolding lookup
  All-lookup k v [] h e = absurd (cc e)
  All-lookup k v (x ∷ l) h e = elim (dec k x.0) [
    | yes p ↦
        let same : x.1 ≡ v = cc (rw (lookup, if_pos (dec k x.0) p) at e) in rw (p, sym same) h.0
    | no n ↦ All-lookup k v l h.1 (rw (lookup, if_neg (dec k x.0) n) at e)
  ]

module _ {A : Type 0} (P : A → Type 0) where
  pub All-append : (xs ys : List A) → All P xs → All P ys → All P (xs ++ ys)
  All-append [] ys h k = k
  All-append (x ∷ xs) ys h k = (h.0, All-append xs ys h.1 k)

  pub All-drop : (n : ℕ) (xs : List A) → All P xs → All P (drop n xs)
  All-drop zero xs h = h
  All-drop (suc n) [] h = tt
  All-drop (suc n) (x ∷ xs) h = All-drop n xs h.1

pub All-map :
    {A B : Type 0} (P : B → Type 0) (f : A → B) (l : List A)
    → All (λ a. P (f a)) l
    → All P (map f l)
All-map P f [] h = tt
All-map P f (x ∷ l) h = (h.0, All-map P f l h.1)
