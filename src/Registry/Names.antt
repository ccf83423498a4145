-- ===== src/Registry/Names.antt =====
-- The two maps that `load_registry_type_map` (async_substrate_interface/types.py) makes agree.
use async_substrate_interfac.Prelude.{
  ℕ, suc, ◌≡◌, refl, String, none, some, List, [], ◌∷◌, length, All, ℕ_discrete, arith,
  Option-cases, inl, inr, ◌⊎◌,
}
use async_substrate_interfac.Prelude.Dict.{lookup, put, lookup-put, IsDict}
use async_substrate_interfac.Prelude.Strings.{String-discrete}
use async_substrate_interfac.Registry.{
  Types, TypeNames, TypeMap, Progress, gathered, load_registry_type_map, gather, simple_name,
  next_round, resolve_type_definition,
}
use async_substrate_interfac.Registry.Rounds.{round_rule, loop_rule}
use async_substrate_interfac.Registry.Ruled.{resolved_by}

-- A name in `ids` leads to a type of that name, and every name is in `ids`.
pub record Agrees (names : TypeNames) (ids : TypeMap) : Type 0 where
  pub back :
      (n : String) (i : ℕ)
      → lookup String-discrete n ids ≡ some i
      → lookup ℕ_discrete i names ≡ some n
  pub onto :
      (i : ℕ) (n : String)
      → lookup ℕ_discrete i names ≡ some n
      → (j : ℕ) × (lookup String-discrete n ids ≡ some j)

Agrees-put :
    (names : TypeNames) (ids : TypeMap) (i : ℕ) (n : String)
    → (lookup ℕ_discrete i names ≡ some n) ⊎ (lookup ℕ_discrete i names ≡ none)
    → Agrees names ids
    → Agrees (put ℕ_discrete i n names) (put String-discrete n i ids)
Agrees-put names ids i n state p = record {
  back = λ m j h. elim (String-discrete m n) [
    | yes same ↦
        ground (arith, h, lookup-put String-discrete n i ids m, lookup-put ℕ_discrete i n names j)
    | no other ↦
        let old : lookup String-discrete m ids ≡ some j =
          ground (arith, h, lookup-put String-discrete n i ids m) in
        elim state [
          | inl e ↦ ground (arith, p.back m j old, e, other, lookup-put ℕ_discrete i n names j)
          | inr e ↦ ground (arith, p.back m j old, e, lookup-put ℕ_discrete i n names j)
        ]
  ];
  onto = λ j m h. elim (String-discrete m n) [
    | yes same ↦ (i, ground (arith, lookup-put String-discrete n i ids m))
    | no other ↦
        let old : lookup ℕ_discrete j names ≡ some m =
          ground (arith, h, lookup-put ℕ_discrete i n names j) in
        let (k, there) = p.onto j m old in
        (k, ground (arith, there, lookup-put String-discrete n i ids m))
  ];
}

-- No entry has a name yet.
abbrev Unseen : TypeNames → Types → Type 0
Unseen names l = All (λ e. lookup ℕ_discrete e.0 names ≡ none) l

Unseen-put :
    (names : TypeNames) (l : Types) (i : ℕ) (n : String)
    → lookup ℕ_discrete i l ≡ none
    → Unseen names l
    → Unseen (put ℕ_discrete i n names) l
unfolding lookup
Unseen-put names [] i n new u = tt
Unseen-put names ((j, e) ∷ l) i n new u =
    ground (arith, Unseen-put names l i n, lookup-put ℕ_discrete i n names j, u)

Agrees-gather :
    (l : Types) (names : TypeNames) (ids : TypeMap)
    → IsDict ℕ_discrete l
    → Unseen names l
    → Agrees names ids
    → Agrees (gather l (names, ids)).0 (gather l (names, ids)).1
unfolding gather
Agrees-gather [] names ids d u p = p
Agrees-gather ((i, e) ∷ l) names ids d u p = elim (Option-cases (simple_name e)) [
  | inl m ↦ rw (m, gather) (Agrees-gather l names ids d.1 u.1 p)
  | inr (n, m) ↦
      rw (m, gather)
        (Agrees-gather l _ _ d.1 (Unseen-put names l i n d.0 u.1)
          (Agrees-put names ids i n (inr u.0) p))
]

Unseen-nil : (l : Types) → Unseen [] l
unfolding lookup
Unseen-nil [] = tt
Unseen-nil (e ∷ l) = (refl, Unseen-nil l)

state_of :
    (types : Types) (names : TypeNames) (i : ℕ) (n : String)
    → resolve_type_definition types names i ≡ some n
    → (lookup ℕ_discrete i names ≡ some n) ⊎ (lookup ℕ_discrete i names ≡ none)
state_of types names i n h = elim (resolved_by types names i n h) [
  | inl old ↦ inl old
  | inr (new, _) ↦ inr new
]

-- A name in `registry_type_map` leads to a type that has this name in `type_id_to_name`, and every
-- name that a type has is in `registry_type_map`.
pub load_registry_type_map-Agrees :
    (order : List ℕ → List ℕ) (types : Types) (t : Progress)
    → IsDict ℕ_discrete types
    → load_registry_type_map order types ≡ some t
    → Agrees t.type_id_to_name t.registry_type_map
unfolding load_registry_type_map gathered next_round lookup
load_registry_type_map-Agrees order types t d h =
    (loop_rule order types (λ s. Agrees s.type_id_to_name s.registry_type_map)
      (λ s p.
        round_rule types Agrees
          (λ names ids i n e q. Agrees-put names ids i n (state_of types names i n e) q)
          (order s.pending_ids) s.type_id_to_name s.registry_type_map p)
      (suc (suc (length types))) (gathered order types) t
      (Agrees-gather types [] [] d (Unseen-nil types)
        (record { back = λ n i e. absurd (cc e); onto = λ i n e. absurd (cc e) }))
      h).0
