-- ===== src/Prelude/Entries.antt =====
-- The keys and the values of a dictionary as lists.
use Prim.Native.Nat.{suc}
use mathlib.Core.Path.{◌≡◌, refl, sym, ap, ◌∙◌}
use mathlib.Core.Logic.{◌⊎◌, inl, inr, ite, if_pos, if_neg}
use mathlib.Core.Bool.{true}
use mathlib.Core.Option.{some}
use mathlib.Core.List.{List, [], ◌∷◌, ◌++◌, map}
use native.Mathlib.Omega.{arith}
use async_substrate_interfac.Prelude.Tests.{is_some}
use async_substrate_interfac.Prelude.Lists.{length}
use async_substrate_interfac.Prelude.Dict.{
  keys, values, lookup, put, remove, IsDict, remove_absent, lookup-put,
}
use async_substrate_interfac.Prelude.Distinct.{has, without, Distinct, without_absent}

pub length-map : {A B : Type 0} (f : A → B) (l : List A) → length (map f l) ≡ length l
length-map f [] = refl
length-map f (x ∷ l) = ap suc (length-map f l)

pub values-append_one :
    {K V : Type 0} (l : List (K × V)) (k : K) (v : V)
    → values (l ++ (k, v) ∷ []) ≡ values l ++ v ∷ []
values-append_one [] k v = refl
values-append_one (e ∷ l) k v = ap (◌∷◌ e.1) (values-append_one l k v)

module _ {K V : Type 0} (dk : Discrete K) where
  -- The keys are those that a lookup finds.
  pub has-keys : (q : K) (l : List (K × V)) → has dk q (keys l) ≡ is_some (lookup dk q l)
  unfolding has lookup
  has-keys q [] = refl
  has-keys q (e ∷ l) = elim (dk q e.0) [
    | yes p ↦ rw (if_pos (dk q e.0) p, if_pos (dk q e.0) p)
    | no n ↦ rw (if_neg (dk q e.0) n, if_neg (dk q e.0) n) (has-keys q l)
  ]

  has-put :
      (k q : K) (v : V) (l : List (K × V))
      → has dk q (keys (put dk k v l)) ≡ is_some (ite (dk q k) (some v) (lookup dk q l))
  has-put k q v l = has-keys q (put dk k v l) ∙ ap is_some (lookup-put dk k v l q)

  pub has-put_same : (q : K) (v : V) (l : List (K × V)) → has dk q (keys (put dk q v l)) ≡ true
  has-put_same q v l = has-put q q v l ∙ ap is_some (if_pos (dk q q) refl (some v) (lookup dk q l))

  pub has-put_keep :
      (k q : K) (v : V) (l : List (K × V))
      → has dk q (keys l) ≡ true
      → has dk q (keys (put dk k v l)) ≡ true
  has-put_keep k q v l h = elim (dk q k) [
    | yes p ↦ rw p (has-put_same k v l)
    | no n ↦
        has-put k q v l
        ∙ ap is_some (if_neg (dk q k) n (some v) (lookup dk q l))
        ∙ sym (has-keys q l)
        ∙ h
  ]

  pub has-put_cases :
      (k q : K) (v : V) (l : List (K × V))
      → has dk q (keys (put dk k v l)) ≡ true
      → (q ≡ k) ⊎ (has dk q (keys l) ≡ true)
  has-put_cases k q v l h = elim (dk q k) [
    | yes p ↦ inl p
    | no n ↦ inr (
        has-keys q l
        ∙ ap is_some (sym (if_neg (dk q k) n (some v) (lookup dk q l)))
        ∙ sym (has-put k q v l)
        ∙ h)
  ]

  pub keys-Distinct : (l : List (K × V)) → IsDict dk l → Distinct dk (keys l)
  keys-Distinct [] h = tt
  keys-Distinct (e ∷ l) h = (rw (has-keys e.0 l, h.0), keys-Distinct l h.1)

  module _ (dv : Discrete V) where
    pub has-values :
        (k : K) (l : List (K × V)) (v : V) → lookup dk k l ≡ some v → has dv v (values l) ≡ true
    unfolding has lookup
    has-values k [] v h = cc
    has-values k (e ∷ l) v h = ground (arith, has-values k l v)

    -- To remove a key is to remove its value, where no value occurs twice.
    pub values-remove :
        (k : K) (l : List (K × V)) (v : V)
        → IsDict dk l
        → Distinct dv (values l)
        → lookup dk k l ≡ some v
        → values (remove dk k l) ≡ without dv v (values l)
    unfolding lookup remove without
    values-remove k [] v h d e = cc
    values-remove k (x ∷ l) v h d e = ground (
      arith,
      values-remove k l v h.1 d.1,
      has-values k l v,
      remove_absent dk k l,
      without_absent dv x.1 (values l),
    )
