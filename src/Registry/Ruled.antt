-- ===== src/Registry/Ruled.antt =====
-- What holds of the names whenever `load_registry_type_map` (async_substrate_interface/types.py) has
-- named a type: they follow the rule, and are in every naming that is closed under it.
use async_substrate_interfac.Prelude.{
  ℕ, ◌≡◌, refl, ap, ◌∙◌, sym, String, Option, none, some, [], ◌∷◌, ℕ_discrete, arith, Option-cases,
  inl, inr, ◌⊎◌,
}
use async_substrate_interfac.Prelude.Dict.{lookup, put, lookup-put, IsDict}
use async_substrate_interfac.Json.{◌>>=◌}
use async_substrate_interfac.Registry.{
  Types, TypeEntry, TypeNames, TypeMap, resolve_type_definition, gather, resolve_entry, simple_name,
}
use async_substrate_interfac.Registry.Rule.{
  Known, Within, name_by, name_by-Within, known_in, IsClosed,
}

pub resolved_by :
    (types : Types) (names : TypeNames) (i : ℕ) (n : String)
    → resolve_type_definition types names i ≡ some n
    → (known_in names i ≡ some n)
      ⊎ ((known_in names i ≡ none)
          × ((e : TypeEntry) × (lookup ℕ_discrete i types ≡ some e)
              × (resolve_entry (known_in names) e ≡ some n)))
unfolding resolve_type_definition
resolved_by types names i n h = elim (Option-cases (known_in names i)) [
  | inr (s, e) ↦ inl (e ∙ (rw (e, resolve_type_definition) at h))
  | inl new ↦ elim (Option-cases (lookup ℕ_discrete i types)) [
    | inl no_type ↦ absurd (cc (rw (new, no_type, resolve_type_definition) at h))
    | inr (e, there) ↦ inr (new, (e, there, (rw (new, there, resolve_type_definition) at h)))
  ]
]

pub put-Within :
    (names : TypeNames) (i : ℕ) (n : String)
    → (known_in names i ≡ some n) ⊎ (known_in names i ≡ none)
    → Within (known_in names) (known_in (put ℕ_discrete i n names))
put-Within names i n (inl old) j s h = rw (lookup-put, h) (ground (arith, old, h))
put-Within names i n (inr new) j s h = rw (lookup-put, h) (ground (arith, new, h))

known-put :
    (names : TypeNames) (i : ℕ) (n : String) (j : ℕ) (s : String)
    → known_in (put ℕ_discrete i n names) j ≡ some s
    → ((j ≡ i) × (n ≡ s)) ⊎ (known_in names j ≡ some s)
known-put names i n j s h = elim (ℕ_discrete j i) [
  | yes same ↦ inl (same, ground (arith, lookup-put ℕ_discrete i n names j, h))
  | no other ↦ inr (ground (arith, lookup-put ℕ_discrete i n names j, h))
]

pub record IsRuled (types : Types) (names : TypeNames) : Type 0 where
  pub simple :
      (i : ℕ) (e : TypeEntry) (n : String)
      → lookup ℕ_discrete i types ≡ some e
      → simple_name e ≡ some n
      → known_in names i ≡ some n
  pub ruled :
      (i : ℕ) (n : String)
      → known_in names i ≡ some n
      → (e : TypeEntry) × (lookup ℕ_discrete i types ≡ some e)
        × (name_by (known_in names) e ≡ some n)
  pub least : (g : Known) → IsClosed types g → Within (known_in names) g

-- What `resolve_type_definition` answers is the rule's.
pub follows :
    (types : Types) (names : TypeNames) (i : ℕ) (n : String)
    → IsRuled types names
    → resolve_type_definition types names i ≡ some n
    → ((known_in names i ≡ some n) ⊎ (known_in names i ≡ none))
      × ((e : TypeEntry) × (lookup ℕ_discrete i types ≡ some e)
          × (name_by (known_in names) e ≡ some n))
unfolding name_by
follows types names i n p h = elim (resolved_by types names i n h) [
  | inl old ↦ (inl old, p.ruled i n old)
  | inr (new, (e, there, made)) ↦ elim (Option-cases (simple_name e)) [
    | inl m ↦ (inr new, (e, there, rw (m, name_by) made))
    | inr (s, m) ↦ absurd (cc (new, p.simple i e s there m))
  ]
]

pub IsRuled-put :
    (types : Types) (names : TypeNames) (i : ℕ) (n : String)
    → resolve_type_definition types names i ≡ some n
    → IsRuled types names
    → IsRuled types (put ℕ_discrete i n names)
IsRuled-put types names i n h p =
    let (state, (e, there, at_e)) = follows types names i n p h in
    let grows = put-Within names i n state in
    record {
      simple = λ j x s q r. grows j s (p.simple j x s q r);
      ruled = λ j s q. elim (known-put names i n j s q) [
        | inl (same, name) ↦ (
          e,
          ap (λ x. lookup ℕ_discrete x types) same ∙ there,
          name_by-Within (known_in names) _ grows e s (at_e ∙ ap some name),
        )
        | inr old ↦
            let (x, q', r) = p.ruled j s old in
            (x, q', name_by-Within (known_in names) _ grows x s r)
      ];
      least = λ g closed j s q. elim (known-put names i n j s q) [
        | inl (same, name) ↦
            closed j e s (ap (λ x. lookup ℕ_discrete x types) same ∙ there)
              (name_by-Within (known_in names) g (p.least g closed) e s (at_e ∙ ap some name))
        | inr old ↦ p.least g closed j s old
      ];
    }

-- The first pass names the simple types.
gather_lem :
    (l : Types) (names : TypeNames) (ids : TypeMap) (j : ℕ)
    → IsDict ℕ_discrete l
    → known_in (gather l (names, ids)).0 j
      ≡ elim (lookup ℕ_discrete j l >>= simple_name) [ none ↦ known_in names j | some s ↦ some s ]
unfolding gather lookup
gather_lem [] names ids j d = refl
gather_lem ((i, e) ∷ l) names ids j d = elim (Option-cases (simple_name e)) [
  | inl m ↦ rw (m, gather) (gather_lem l names ids j d.1 ∙ ground (arith, m, d.0))
  | inr (s, m) ↦
      rw (m, gather)
        (gather_lem l _ _ j d.1 ∙ ground (arith, m, d.0, lookup-put ℕ_discrete i s names j))
]

from_entry :
    (o : Option TypeEntry) (n : String)
    → elim (o >>= simple_name) [ none ↦ none | some s ↦ some s ] ≡ some n
    → (e : TypeEntry) × (o ≡ some e) × (simple_name e ≡ some n)
from_entry none n h = absurd (cc h)
from_entry (some e) n h = elim (Option-cases (simple_name e)) [
  | inl m ↦ absurd (cc (rw m at h))
  | inr (s, m) ↦ (e, refl, m ∙ (rw m at h))
]

simple_known :
    (types : Types) (j : ℕ) (n : String)
    → IsDict ℕ_discrete types
    → known_in (gather types ([], [])).0 j ≡ some n
    → (e : TypeEntry) × (lookup ℕ_discrete j types ≡ some e) × (simple_name e ≡ some n)
unfolding lookup
simple_known types j n d h =
    from_entry (lookup ℕ_discrete j types) n (sym (gather_lem types [] [] j d) ∙ h)

pub IsRuled-gather :
    (types : Types) → IsDict ℕ_discrete types → IsRuled types (gather types ([], [])).0
unfolding name_by
IsRuled-gather types d = record {
  simple = λ i e n there m. gather_lem types [] [] i d ∙ rw (there, m) refl;
  ruled =
      λ i n h. let (e, there, m) = simple_known types i n d h in (e, there, rw (m, name_by) refl);
  least = λ g closed i n h.
      let (e, there, m) = simple_known types i n d h in closed i e n there (rw (m, name_by) refl);
}
