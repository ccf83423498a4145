-- ===== src/Registry/Rule.antt =====
-- The rule by which `load_registry_type_map` (async_substrate_interface/types.py) names a type, and
-- that it names no less where more is known.
use async_substrate_interfac.Prelude.{
  ℕ, ◌≡◌, refl, String, Option, none, some, List, [], ◌∷◌, ℕ_discrete, Option-cases, inl, inr,
}
use async_substrate_interfac.Prelude.Dict.{lookup}
use async_substrate_interfac.Json.{◌>>=◌}
use async_substrate_interfac.Registry.{
  Types, TypeEntry, TypeNames, TypeDef, composite, variant, sequence, array, compact, tuple,
  primitive, bitsequence, names_of, param_names, inner_name, path_name, shape_name, resolve_entry,
  simple_name, last,
}

abbrev pub Known : Type 0
Known = ℕ → Option String

-- What `f` names has the same name in `g`.
abbrev pub Within : Known → Known → Type 0
Within f g = (i : ℕ) (s : String) → f i ≡ some s → g i ≡ some s

-- A name made from others that are known is the same where more is known.
through :
    {A B : Type 0} (a b : Option A) (k l : A → Option B) (c : B)
    → ((x : A) → a ≡ some x → b ≡ some x)
    → ((x : A) → k x ≡ some c → l x ≡ some c)
    → a >>= k ≡ some c
    → b >>= l ≡ some c
through none b k l c step then h = absurd (cc h)
through (some x) b k l c step then h = rw (step x refl) (then x h)

module _ (f g : Known) (within : Within f g) where
  names_of-within :
      (l : List ℕ) (ss : List String) → names_of f l ≡ some ss → names_of g l ≡ some ss
  unfolding names_of
  names_of-within [] ss h = h
  names_of-within (i ∷ l) ss h =
      through (f i) (g i) _ _ ss (within i)
        (λ s. through (names_of f l) (names_of g l) _ _ ss (names_of-within l) (λ _ e. e)) h

  param_names-within :
      (l : List (Option ℕ)) (ss : List String)
      → param_names f l ≡ some ss
      → param_names g l ≡ some ss
  unfolding param_names
  param_names-within [] ss h = h
  param_names-within (none ∷ l) ss h = absurd (cc h)
  param_names-within (some i ∷ l) ss h =
      through (f i) (g i) _ _ ss (within i)
        (λ s. through (param_names f l) (param_names g l) _ _ ss (param_names-within l) (λ _ e. e))
        h

  inner_name-within : (i : ℕ) (s : String) → inner_name f i ≡ some s → inner_name g i ≡ some s
  unfolding inner_name
  inner_name-within i s = through (f i) (g i) _ _ s (within i) (λ _ e. e)

  path_name-within :
      (s : String) (l : List (Option ℕ)) (d : TypeDef) (n : String)
      → path_name f s l d ≡ some n
      → path_name g s l d ≡ some n
  unfolding path_name
  path_name-within s [] d n h = h
  path_name-within s (p ∷ l) d n h =
      through (param_names f (p ∷ l)) (param_names g (p ∷ l)) _ _ n (param_names-within (p ∷ l))
        (λ _ e. e) h

  shape_name-within : (d : TypeDef) (n : String) → shape_name f d ≡ some n → shape_name g d ≡ some n
  unfolding shape_name
  shape_name-within (sequence i) n h =
      through (inner_name f i) (inner_name g i) _ _ n (inner_name-within i) (λ _ e. e) h
  shape_name-within (array i len) n h =
      through (inner_name f i) (inner_name g i) _ _ n (inner_name-within i) (λ _ e. e) h
  shape_name-within (compact i) n h =
      through (inner_name f i) (inner_name g i) _ _ n (inner_name-within i) (λ _ e. e) h
  shape_name-within (tuple l) n h =
      through (names_of f l) (names_of g l) _ _ n (names_of-within l) (λ _ e. e) h
  shape_name-within composite n h = h
  shape_name-within variant n h = h
  shape_name-within (primitive _) n h = h
  shape_name-within bitsequence n h = h

  resolve_entry-within :
      (e : TypeEntry) (n : String) → resolve_entry f e ≡ some n → resolve_entry g e ≡ some n
  unfolding resolve_entry
  resolve_entry-within e n h = elim (Option-cases (last e.path)) [
    | inl empty ↦
        rw (empty, resolve_entry) (shape_name-within e.def n (rw (empty, resolve_entry) at h))
    | inr (s, p) ↦
        rw (p, resolve_entry) (path_name-within s e.params e.def n (rw (p, resolve_entry) at h))
  ]

-- The rule for the name of a type: the first pass's name, or the second pass's by the names of its
-- parts.
unfoldable pub name_by : Known → TypeEntry → Option String
name_by f e = elim (simple_name e) [ some s ↦ some s | none ↦ resolve_entry f e ]

pub name_by-Within :
    (f g : Known)
    → Within f g
    → (e : TypeEntry) (n : String) → name_by f e ≡ some n
    → name_by g e ≡ some n
unfolding name_by
name_by-Within f g within e n h = elim (Option-cases (simple_name e)) [
  | inl m ↦ rw (m, name_by) (resolve_entry-within f g within e n (rw (m, name_by) at h))
  | inr (s, m) ↦ rw (m, name_by) (rw (m, name_by) at h)
]

abbrev pub known_in : TypeNames → Known
known_in names i = lookup ℕ_discrete i names

-- `f` has a name for every type that the rule names by `f`.
abbrev pub IsClosed : Types → Known → Type 0
IsClosed types f =
    (i : ℕ) (e : TypeEntry) (n : String)
    → lookup ℕ_discrete i types ≡ some e
    → name_by f e ≡ some n
    → f i ≡ some n
