-- ===== src/Registry/Least.antt =====
-- The names that `load_registry_type_map` (async_substrate_interface/types.py) gives are the least
-- that its rules for names ask for.
use mathlib.Core.List.{Memᴰ}
use mathlib.Core.List.Memᴰ.{head, tail}
use async_substrate_interfac.Prelude.{
  ℕ, suc, ◌≡◌, refl, ap, ◌∙◌, sym, false, none, some, List, [], ◌∷◌, length, All, ℕ_discrete, arith,
  Bool-cases, Option-cases, inl, inr, is_some, ◌⊎◌,
}
use async_substrate_interfac.Prelude.Dict.{lookup, put, lookup-put, IsDict}
use async_substrate_interfac.Prelude.Strings.{String-discrete}
use async_substrate_interfac.Json.{◌>>=◌}
use async_substrate_interfac.Registry.{
  Types, TypeEntry, TypeNames, TypeMap, Progress, round, resolve_type_definition, next_round,
  unnamed, gathered, load_registry_type_map, gather, simple_name,
}
use async_substrate_interfac.Registry.Rounds.{round_rule, loop_rule, round_still}
use async_substrate_interfac.Registry.Rule.{Known, Within, name_by, known_in, IsClosed}
use async_substrate_interfac.Registry.Ruled.{
  IsRuled, IsRuled-put, IsRuled-gather, put-Within, follows,
}

-- An id that has no name is pending.
abbrev Covers : Types → TypeNames → List ℕ → Type 0
Covers types names l =
    (i : ℕ) (e : TypeEntry)
    → lookup ℕ_discrete i types ≡ some e
    → known_in names i ≡ none
    → Memᴰ i l

unnamed_lem : (types : Types) (names : TypeNames) → Covers types names (unnamed types names)
unfolding unnamed lookup
unnamed_lem [] names i e h new = absurd (cc h)
unnamed_lem ((j, x) ∷ types) names i e h new = elim (ℕ_discrete i j) [
  | yes same ↦ rw (ap (λ x. known_in names x) (sym same) ∙ new) (head same)
  | no other ↦
      let rest = unnamed_lem types names i e (ground (arith, h, other)) new in
      elim (Bool-cases (is_some (lookup ℕ_discrete j names))) [
        | inl named ↦ rw named rest
        | inr pending ↦ rw pending (tail rest)
      ]
]

-- A round keeps the names that there are.
round_keeps :
    (types : Types) (l : List ℕ) (names : TypeNames) (ids : TypeMap)
    → IsRuled types names
    → Within (known_in names) (known_in (round types l names ids).type_id_to_name)
round_keeps types l names ids p =
    (round_rule types (λ m _. IsRuled types m × Within (known_in names) (known_in m))
      (λ m ids' i n e q. (
        IsRuled-put types m i n e q.0,
        λ j s h. put-Within m i n (follows types m i n q.0 e).0 j s (q.1 j s h),
      ))
      l names ids (p, λ j s h. h)).1

-- A round leaves pending what it has not named.
round_leaves :
    (types : Types) (l : List ℕ) (names : TypeNames) (ids : TypeMap) (i : ℕ)
    → IsRuled types names
    → Memᴰ i l
    → known_in (round types l names ids).type_id_to_name i ≡ none
    → Memᴰ i (round types l names ids).pending_ids
unfolding round
round_leaves types [] names ids i p there new = elim there [ ]
round_leaves types (j ∷ l) names ids i p (head same) new =
    elim (Option-cases (resolve_type_definition types names j)) [
      | inl e ↦ rw (e, round) (head same)
      | inr (n, e) ↦
          let named : known_in (put ℕ_discrete j n names) i ≡ some n =
            ground (arith, lookup-put ℕ_discrete j n names i, same) in
          let kept =
            round_keeps types l _ (put String-discrete n j ids) (IsRuled-put types names j n e p) in
          absurd (cc (kept i n named, rw (e, round) at new))
    ]
round_leaves types (j ∷ l) names ids i p (tail there) new =
    elim (Option-cases (resolve_type_definition types names j)) [
      | inl e ↦
          rw (e, round) (tail (round_leaves types l names ids i p there (rw (e, round) at new)))
      | inr (n, e) ↦
          rw (e, round)
            (round_leaves types l _ _ i (IsRuled-put types names j n e p) there
              (rw (e, round) at new))
    ]

record IsStage (types : Types) (s : Progress) : Type 0 where
  pub named : IsRuled types s.type_id_to_name
  pub covers : Covers types s.type_id_to_name s.pending_ids
  pub over :
      s.resolved_type ≡ false
      → All (λ i. resolve_type_definition types s.type_id_to_name i ≡ none) s.pending_ids

IsStage-next_round :
    (order : List ℕ → List ℕ) (types : Types)
    → ((l : List ℕ) (i : ℕ) → Memᴰ i l → Memᴰ i (order l))
    → (s : Progress) → IsStage types s
    → IsStage types (next_round order types s)
unfolding next_round
IsStage-next_round order types all s p =
    let l = order s.pending_ids in
    let names = s.type_id_to_name in
    let ids = s.registry_type_map in
    let named =
      round_rule types (λ m _. IsRuled types m) (λ m _ i n e q. IsRuled-put types m i n e q) l names
        ids p.named in
    record {
      named = named;
      covers = λ i e there new. elim (Option-cases (known_in names i)) [
        | inl m ↦
            round_leaves types l names ids i p.named (all s.pending_ids i (p.covers i e there m))
              new
        | inr (n, m) ↦ absurd (cc (new, round_keeps types l names ids p.named i n m))
      ];
      over = λ still.
          let (same, none_resolved) = round_still types l names ids still in rw same none_resolved;
    }

load_registry_type_map-IsStage :
    (order : List ℕ → List ℕ) (types : Types) (t : Progress)
    → IsDict ℕ_discrete types
    → ((l : List ℕ) (i : ℕ) → Memᴰ i l → Memᴰ i (order l))
    → load_registry_type_map order types ≡ some t
    → IsStage types t × ((t.resolved_type ≡ false) ⊎ (t.pending_ids ≡ []))
unfolding load_registry_type_map gathered
load_registry_type_map-IsStage order types t d all h =
    loop_rule order types (IsStage types) (IsStage-next_round order types all)
      (suc (suc (length types))) (gathered order types) t
      (record {
        named = IsRuled-gather types d;
        covers = unnamed_lem types (gather types ([], [])).0;
        over = λ e. absurd (cc e);
      })
      h

All-Memᴰ : {A : Type 0} (P : A → Type 0) (l : List A) (a : A) → All P l → Memᴰ a l → P a
All-Memᴰ P [] a h there = elim there [ ]
All-Memᴰ P (x ∷ l) a h (head same) = rw same h.0
All-Memᴰ P (x ∷ l) a h (tail there) = All-Memᴰ P l a h.1 there

not_named :
    (types : Types) (t : Progress) (i : ℕ) (e : TypeEntry)
    → IsStage types t
    → ((t.resolved_type ≡ false) ⊎ (t.pending_ids ≡ []))
    → lookup ℕ_discrete i types ≡ some e
    → known_in t.type_id_to_name i ≡ none
    → name_by (known_in t.type_id_to_name) e ≡ none
unfolding name_by resolve_type_definition
not_named types t i e p over there m =
    let pending = p.covers i e there m in
    let unresolved : resolve_type_definition types t.type_id_to_name i ≡ none = elim over [
      | inl still ↦ All-Memᴰ _ t.pending_ids i (p.over still) pending
      | inr empty ↦ elim (rw empty at pending) [ ]
    ] in
    elim (Option-cases (simple_name e)) [
      | inl s ↦ rw (s, name_by) (rw (m, there, resolve_type_definition) at unresolved)
      | inr (n, s) ↦ absurd (cc (m, p.named.simple i e n there s))
    ]

-- Each type of the registry has the name that the rule makes from the names of the other types, and
-- none where the rule makes none; there is no name for another id.
pub load_registry_type_map-fixpoint :
    (order : List ℕ → List ℕ) (types : Types) (t : Progress)
    → IsDict ℕ_discrete types
    → ((l : List ℕ) (i : ℕ) → Memᴰ i l → Memᴰ i (order l))
    → load_registry_type_map order types ≡ some t
    → (i : ℕ)
    → known_in t.type_id_to_name i
      ≡ lookup ℕ_discrete i types >>= name_by (known_in t.type_id_to_name)
load_registry_type_map-fixpoint order types t d all h i =
    let (p, over) = load_registry_type_map-IsStage order types t d all h in
    let names = t.type_id_to_name in
    elim (Option-cases (known_in names i)) [
      | inr (n, m) ↦ let (e, there, r) = p.named.ruled i n m in m ∙ sym (rw there r)
      | inl m ↦ elim (Option-cases (lookup ℕ_discrete i types)) [
        | inl no_type ↦ m ∙ sym (rw no_type refl)
        | inr (e, there) ↦ m ∙ sym (rw there (not_named types t i e p over there m))
      ]
    ]

-- A name that is given is the name in every naming that is closed under the rule: there are no
-- names but those the rule makes.
pub load_registry_type_map-least :
    (order : List ℕ → List ℕ) (types : Types) (t : Progress)
    → IsDict ℕ_discrete types
    → ((l : List ℕ) (i : ℕ) → Memᴰ i l → Memᴰ i (order l))
    → load_registry_type_map order types ≡ some t
    → (g : Known) → IsClosed types g
    → Within (known_in t.type_id_to_name) g
load_registry_type_map-least order types t d all h g closed =
    (load_registry_type_map-IsStage order types t d all h).0.named.least g closed
