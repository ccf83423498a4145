-- ===== src/Registry/Rounds.antt =====
-- The rounds of the second pass of `load_registry_type_map`
-- (async_substrate_interface/types.py): what they keep, and that they end.
use async_substrate_interfac.Prelude.{
  ℕ, zero, suc, ◌≤◌, ◌<◌, ◌≡◌, refl, ap, ◌∙◌, sym, String, Bool, true, false, Option, none, some,
  List, [], ◌∷◌, length, All, ℕ_discrete, arith, Bool-cases, Option-cases, inl, inr, ◌⊎◌,
  if◌then◌else◌,
}
use async_substrate_interfac.Prelude.Dict.{put}
use async_substrate_interfac.Prelude.Strings.{String-discrete}
use async_substrate_interfac.Registry.{
  Types, TypeNames, TypeMap, Progress, round, resolve_type_definition, next_round, resolve_loop,
  unnamed, gathered, load_registry_type_map, gather,
}

-- The rounds keep what naming one type keeps.
module _ {ℓ} (types : Types) (P : TypeNames → TypeMap → Type ℓ) where
  abbrev Keeps : Type ℓ
  Keeps =
      (names : TypeNames) (ids : TypeMap) (i : ℕ) (name : String)
      → resolve_type_definition types names i ≡ some name
      → P names ids
      → P (put ℕ_discrete i name names) (put String-discrete name i ids)

  pub round_rule :
      Keeps
      → (l : List ℕ) (names : TypeNames) (ids : TypeMap) → P names ids
      → P (round types l names ids).type_id_to_name (round types l names ids).registry_type_map
  unfolding round
  round_rule keep [] names ids p = p
  round_rule keep (i ∷ l) names ids p =
      elim (Option-cases (resolve_type_definition types names i)) [
        | inl e ↦ rw (e, round) (round_rule keep l names ids p)
        | inr (name, e) ↦ rw (e, round) (round_rule keep l _ _ (keep names ids i name e p))
      ]

length-round :
    (types : Types) (l : List ℕ) (names : TypeNames) (ids : TypeMap)
    → let s = round types l names ids in
      (length s.pending_ids ≤ length l) × (s.resolved_type ≡ true → length s.pending_ids < length l)
unfolding round
length-round types [] names ids = ground arith
length-round types (i ∷ l) names ids = elim (Option-cases (resolve_type_definition types names i)) [
  | inl e ↦ rw (e, round) (ground (arith, length-round types l names ids))
  | inr (name, e) ↦
      rw (e, round)
        (ground (
          arith,
          length-round types l (put ℕ_discrete i name names) (put String-discrete name i ids),
        ))
]

-- A round that names nothing changes nothing, and found no name for any id.
pub round_still :
    (types : Types) (l : List ℕ) (names : TypeNames) (ids : TypeMap)
    → (round types l names ids).resolved_type ≡ false
    → ((round types l names ids).type_id_to_name ≡ names)
      × All
          (λ i. resolve_type_definition types names i ≡ none)
          (round types l names ids).pending_ids
unfolding round
round_still types [] names ids h = (refl, tt)
round_still types (i ∷ l) names ids h =
    elim (Option-cases (resolve_type_definition types names i)) [
      | inl e ↦
          let rest = round_still types l names ids (rw (e, round) at h) in
          rw (e, round) (rest.0, (e, rest.1))
      | inr (name, e) ↦ absurd (cc (rw (e, round) at h))
    ]

pub List-cases {ℓ} : {A : Type ℓ} (l : List A) → (l ≡ []) ⊎ ((a : A) × (r : List A) × (l ≡ a ∷ r))
List-cases [] = inl refl
List-cases (a ∷ r) = inr (a, r, refl)

module _ (order : List ℕ → List ℕ) (types : Types) where
  abbrev either_way : ℕ → Progress → Bool → List ℕ → Option Progress
  either_way fuel s b l =
      let next = resolve_loop order fuel types (next_round order types s) in
      if b then elim l [ [] ↦ some s | i ∷ l ↦ next ] else some s

  loop_by :
      (fuel : ℕ) (s : Progress) (b : Bool) (l : List ℕ)
      → s.resolved_type ≡ b
      → s.pending_ids ≡ l
      → resolve_loop order (suc fuel) types s ≡ either_way fuel s b l
  unfolding resolve_loop
  loop_by fuel s b l p q =
      ap (λ x. either_way fuel s x s.pending_ids) p ∙ ap (either_way fuel s b) q

  loop_ends :
      (fuel : ℕ) (s : Progress)
      → ((l : List ℕ) → length (order l) ≡ length l)
      → (s.resolved_type ≡ true → length s.pending_ids < fuel)
      → (t : Progress) × (resolve_loop order (suc fuel) types s ≡ some t)
  loop_ends zero s same h = elim (Bool-cases s.resolved_type) [
    | inr off ↦ (s, loop_by zero s false s.pending_ids off refl)
    | inl on ↦ absurd (omega (arith, h on))
  ]
  loop_ends (suc fuel) s same h = elim (Bool-cases s.resolved_type) [
    | inr off ↦ (s, loop_by (suc fuel) s false s.pending_ids off refl)
    | inl on ↦ elim (List-cases s.pending_ids) [
      | inl empty ↦ (s, loop_by (suc fuel) s true [] on empty)
      | inr (i, l, e) ↦
          let shorter =
            length-round types (order s.pending_ids) s.type_id_to_name s.registry_type_map in
          let (t, ends) =
            loop_ends fuel (next_round order types s) same
              (unfold next_round in ground (arith, shorter, h on, same s.pending_ids)) in
          (t, loop_by (suc fuel) s true (i ∷ l) on e ∙ ends)
    ]
  ]

  -- An invariant that a round keeps holds at the end, where every id that is still pending has no
  -- name by what is known.
  pub loop_rule {ℓ} :
      (P : Progress → Type ℓ)
      → ((s : Progress) → P s → P (next_round order types s))
      → (fuel : ℕ) (s t : Progress) → P s
      → resolve_loop order fuel types s ≡ some t
      → P t × ((t.resolved_type ≡ false) ⊎ (t.pending_ids ≡ []))
  unfolding resolve_loop
  loop_rule P keep zero s t p h = absurd (cc h)
  loop_rule P keep (suc fuel) s t p h = elim (Bool-cases s.resolved_type) [
    | inr off ↦
        let same : s ≡ t = cc (loop_by fuel s false s.pending_ids off refl, h) in
        rw (sym same) (p, inl off)
    | inl on ↦ elim (List-cases s.pending_ids) [
      | inl empty ↦
          let same : s ≡ t = cc (loop_by fuel s true [] on empty, h) in rw (sym same) (p, inr empty)
      | inr (i, l, e) ↦
          loop_rule P keep fuel (next_round order types s) t (keep s p)
            (sym (loop_by fuel s true (i ∷ l) on e) ∙ h)
    ]
  ]

length-unnamed : (types : Types) (names : TypeNames) → length (unnamed types names) ≤ length types
unfolding unnamed
length-unnamed [] names = omega arith
length-unnamed (e ∷ types) names = ground (arith, length-unnamed types names)

-- For a set that lists all its items, in whatever order, `load_registry_type_map` ends, however the
-- types refer to each other.
pub load_registry_type_map-total :
    (order : List ℕ → List ℕ) (types : Types)
    → ((l : List ℕ) → length (order l) ≡ length l)
    → (t : Progress) × (load_registry_type_map order types ≡ some t)
unfolding load_registry_type_map gathered
load_registry_type_map-total order types same =
    loop_ends order types (suc (length types)) (gathered order types) same
      (λ _. omega (arith, length-unnamed types (gather types ([], [])).0))
