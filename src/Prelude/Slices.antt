-- ===== src/Prelude/Slices.antt =====
-- The front and the rest of a list.
use Prim.Native.Nat.{ℕ, zero, suc, ◌+◌, ◌-◌, ◌≤◌, ◌<◌}
use mathlib.Core.Path.{◌≡◌, refl, ap}
use mathlib.Core.List.{List, [], ◌∷◌, ◌++◌, map}
use native.Mathlib.Omega.{arith}
use async_substrate_interfac.Prelude.Lists.{length, take, drop}

pub take-drop : {A : Type 0} (n : ℕ) (l : List A) → take n l ++ drop n l ≡ l
take-drop zero l = refl
take-drop (suc n) [] = refl
take-drop (suc n) (x ∷ l) = ap (x ∷◌) (take-drop n l)

pub length-take-drop :
    {A : Type 0} (n : ℕ) (l : List A) → length (take n l) + length (drop n l) ≡ length l
length-take-drop zero l = omega arith
length-take-drop (suc n) [] = omega arith
length-take-drop (suc n) (x ∷ l) = omega (arith, length-take-drop n l)

-- A page that is not full is the last.
pub drop_short : {A : Type 0} (n : ℕ) (l : List A) → length (take n l) < n → drop n l ≡ []
drop_short zero l h = absurd (omega arith)
drop_short (suc n) [] h = refl
drop_short (suc n) (x ∷ l) h = drop_short n l (omega arith)

pub map-append : {A B : Type 0} (f : A → B) (l m : List A) → map f (l ++ m) ≡ map f l ++ map f m
map-append f [] m = refl
map-append f (x ∷ l) m = ap (f x ∷◌) (map-append f l m)

pub take-nil : {A : Type 0} (n : ℕ) → take {A = A} n [] ≡ []
take-nil zero = refl
take-nil (suc n) = refl

pub one : (n : ℕ) → suc n - 1 ≡ n
one n = omega arith

pub take_first :
    {A : Type 0} (n : ℕ) (x : A) (l : List A) → 1 ≤ n → take n (x ∷ l) ≡ x ∷ take (n - 1) l
take_first zero x l h = absurd (omega arith)
take_first (suc n) x l h = rw (one n) refl

pub drop_first : {A : Type 0} (n : ℕ) (x : A) (l : List A) → 1 ≤ n → drop n (x ∷ l) ≡ drop (n - 1) l
drop_first zero x l h = absurd (omega arith)
drop_first (suc n) x l h = rw (one n) refl
