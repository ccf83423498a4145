-- ===== src/Prelude/Distinct.antt =====
-- Lists without repetition, and the pigeonhole principle on them.
use Prim.Native.Nat.{◌+◌, ◌≤◌}
use mathlib.Core.Path.{◌≡◌, refl, ◌∙◌}
use mathlib.Core.Logic.{◌≢◌, inl, inr, ite, if_pos, if_neg}
use mathlib.Core.Bool.{Bool, true, false}
use mathlib.Core.List.{List, [], ◌∷◌, ◌++◌}
use native.Mathlib.Omega.{arith}
use async_substrate_interfac.Prelude.Tests.{Bool-cases}
use async_substrate_interfac.Prelude.Lists.{length}

module _ {A : Type 0} (dec : Discrete A) where
  -- `x in l`
  unfoldable pub has : A → List A → Bool
  has x [] = false
  has x (y ∷ l) = ite (dec x y) true (has x l)

  unfoldable pub without : A → List A → List A
  without x [] = []
  without x (y ∷ l) = ite (dec x y) (without x l) (y ∷ without x l)

  abbrev pub Distinct : List A → Type 0
  Distinct [] = Unit
  Distinct (x ∷ l) = (has x l ≡ false) × Distinct l

  pub has-append :
      (x : A) (xs ys : List A)
      → has x (xs ++ ys) ≡ elim (has x xs) [ true ↦ true | false ↦ has x ys ]
  unfolding has
  has-append x [] ys = refl
  has-append x (y ∷ xs) ys = ground (arith, has-append x xs ys)

  pub has-without :
      (x : A) (l : List A) (y : A) → has y (without x l) ≡ ite (dec y x) false (has y l)
  unfolding has without
  has-without x [] y = ground arith
  has-without x (z ∷ l) y = ground (arith, has-without x l y)

  pub without_absent : (x : A) (l : List A) → has x l ≡ false → without x l ≡ l
  unfolding has without
  without_absent x [] h = refl
  without_absent x (y ∷ l) h = ground (arith, without_absent x l)

  length-without-le : (x : A) (l : List A) → length (without x l) ≤ length l
  unfolding without
  length-without-le x [] = omega arith
  length-without-le x (y ∷ l) = ground (arith, length-without-le x l)

  length-without : (x : A) (l : List A) → has x l ≡ true → length (without x l) + 1 ≤ length l
  unfolding has without
  length-without x [] h = cc
  length-without x (y ∷ l) h = ground (arith, length-without x l, length-without-le x l)

  pub Distinct-append_one :
      (xs : List A) (x : A) → Distinct xs → has x xs ≡ false → Distinct (xs ++ x ∷ [])
  unfolding has
  Distinct-append_one [] x d h = (refl, tt)
  Distinct-append_one (y ∷ xs) x d h =
      ground (arith, Distinct-append_one xs x d.1, has-append y xs (x ∷ []))

  pub head_has : (x : A) (l : List A) → has x (x ∷ l) ≡ true
  unfolding has
  head_has x l = if_pos (dec x x) refl true (has x l)

  pub tail_has : (x y : A) (l : List A) → has x l ≡ true → has x (y ∷ l) ≡ true
  unfolding has
  tail_has x y l h = ground arith

  pub has_in_tail : (x y : A) (l : List A) → x ≢ y → has x (y ∷ l) ≡ true → has x l ≡ true
  unfolding has
  has_in_tail x y l n h = ground arith

  pub has-append_left : (x : A) (xs ys : List A) → has x xs ≡ true → has x (xs ++ ys) ≡ true
  has-append_left x xs ys h = ground (arith, has-append x xs ys)

  -- An item that moves to the end is still there, and so are the others.
  pub has_moved : (q x : A) (l : List A) → has q l ≡ true → has q (without x l ++ x ∷ []) ≡ true
  unfolding has
  has_moved q x l h = ground (arith, has-append q (without x l) (x ∷ []), has-without x l q)

  pub Distinct-without : (x : A) (l : List A) → Distinct l → Distinct (without x l)
  unfolding without
  Distinct-without x [] d = tt
  Distinct-without x (y ∷ l) d = ground (arith, Distinct-without x l d.1, has-without x l y)

  -- A list without repetition is no longer than one that has all of its items.
  pub length-le_of_subset :
      (xs ys : List A)
      → Distinct xs
      → ((x : A) → has x xs ≡ true → has x ys ≡ true)
      → length xs ≤ length ys
  length-le_of_subset [] ys d sub = omega arith
  length-le_of_subset (x ∷ xs) ys d sub = omega (
    arith,
    length-le_of_subset xs (without x ys) d.1 keep,
    length-without x ys (sub x (head_has x xs)),
  )
    where
      keep : (y : A) → has y xs ≡ true → has y (without x ys) ≡ true
      keep y h = elim (dec y x) [
        | yes p ↦ absurd (cc (d.0, h, p))
        | no p ↦
            has-without x ys y ∙ if_neg (dec y x) p false (has y ys) ∙ sub y (tail_has y x xs h)
      ]

  -- If it is also no shorter, the two have the same items.
  pub subset_of_length :
      (xs ys : List A)
      → Distinct xs
      → ((x : A) → has x xs ≡ true → has x ys ≡ true)
      → length ys ≤ length xs
      → (y : A) → has y ys ≡ true
      → has y xs ≡ true
  subset_of_length xs ys d sub le y h = elim (Bool-cases (has y xs)) [
    | inl in_xs ↦ in_xs
    | inr out ↦ absurd (omega (arith, length-le_of_subset (y ∷ xs) ys (out, d) (wider out)))
  ]
    where
      wider : has y xs ≡ false → (x : A) → has x (y ∷ xs) ≡ true → has x ys ≡ true
      wider out x hx = elim (dec x y) [ yes p ↦ rw p h | no n ↦ sub x (has_in_tail x y xs n hx) ]
