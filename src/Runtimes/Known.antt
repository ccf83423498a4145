-- ===== src/Runtimes/Known.antt =====
-- The known versions of RuntimeCache: what `bisect_right` over the sorted changes picks.
use mathlib.Core.List.{Perm}
use mathlib.Core.List.Perm
use async_substrate_interfac.Prelude.{
  ℕ, zero, suc, ◌≤◌, ◌<◌, ◌≡◌, refl, ◌∙◌, inl, inr, Bool-cases, true, Option, none, some, List, [],
  ◌∷◌, arith, leb, if◌then◌else◌, map, length, All,
}
use async_substrate_interfac.Runtimes.{
  RuntimeCache, insert_sorted, sort_versions, drop_last, bisect_right, version_at,
  add_known_versions, known_version,
}

abbrev pub IsSorted : List (ℕ × ℕ) → Type 0
IsSorted [] = Unit
IsSorted (v ∷ vs) = All (λ w. v.0 ≤ w.0) vs × IsSorted vs

-- The last item of the list that starts at or before the block.
unfoldable pub latest : ℕ → List (ℕ × ℕ) → Option ℕ
latest b [] = none
latest b ((start, version) ∷ vs) = elim (latest b vs) [
  | none ↦ if leb start b then some version else none
  | some v ↦ some v
]

All-insert_sorted :
    (n : ℕ) (v : ℕ × ℕ) (vs : List (ℕ × ℕ))
    → n ≤ v.0
    → All (λ w. n ≤ w.0) vs
    → All (λ w. n ≤ w.0) (insert_sorted v vs)
unfolding insert_sorted
All-insert_sorted n v [] h a = (h, tt)
All-insert_sorted n v (w ∷ vs) h a = ground (arith, All-insert_sorted n v vs h a.1)

All-weaken : (m n : ℕ) (vs : List (ℕ × ℕ)) → m ≤ n → All (λ w. n ≤ w.0) vs → All (λ w. m ≤ w.0) vs
All-weaken m n [] h a = tt
All-weaken m n (w ∷ vs) h a = (omega arith, All-weaken m n vs h a.1)

insert_sorted-IsSorted :
    (v : ℕ × ℕ) (vs : List (ℕ × ℕ)) → IsSorted vs → IsSorted (insert_sorted v vs)
unfolding insert_sorted
insert_sorted-IsSorted v [] s = (tt, tt)
insert_sorted-IsSorted v (w ∷ vs) s =
    ground
      (arith, insert_sorted-IsSorted v vs s.1, All-weaken v.0 w.0 vs, All-insert_sorted w.0 v vs)

insert_sorted-Perm : (v : ℕ × ℕ) (vs : List (ℕ × ℕ)) → Perm (insert_sorted v vs) (v ∷ vs)
unfolding insert_sorted
insert_sorted-Perm v [] = Perm.refl _
insert_sorted-Perm v (w ∷ vs) = elim (Bool-cases (leb v.0 w.0)) [
  | inl le ↦ rw le (Perm.refl _)
  | inr gt ↦ rw gt (Perm.trans (Perm.cons w (insert_sorted-Perm v vs)) (Perm.swap v w vs))
]

-- Sorting by block keeps every change and puts the blocks in ascending order.
pub sort_versions-IsSorted :
    (vs : List (ℕ × ℕ)) → IsSorted (sort_versions vs) × Perm (sort_versions vs) vs
unfolding sort_versions
sort_versions-IsSorted [] = (tt, Perm.refl [])
sort_versions-IsSorted (v ∷ vs) =
    let (sorted, perm) = sort_versions-IsSorted vs in
    (
      insert_sorted-IsSorted v (sort_versions vs) sorted,
      Perm.trans (insert_sorted-Perm v (sort_versions vs)) (Perm.cons v perm),
    )

All-drop_last :
    (n : ℕ) (vs : List (ℕ × ℕ)) → All (λ w. n ≤ w.0) vs → All (λ w. n ≤ w.0) (drop_last vs)
unfolding drop_last
All-drop_last n [] a = tt
All-drop_last n (v ∷ []) a = tt
All-drop_last n (v ∷ w ∷ vs) a = (a.0, All-drop_last n (w ∷ vs) a.1)

drop_last-IsSorted : (vs : List (ℕ × ℕ)) → IsSorted vs → IsSorted (drop_last vs)
unfolding drop_last
drop_last-IsSorted [] s = tt
drop_last-IsSorted (v ∷ []) s = tt
drop_last-IsSorted (v ∷ w ∷ vs) s =
    (All-drop_last v.0 (w ∷ vs) s.0, drop_last-IsSorted (w ∷ vs) s.1)

version_at-drop_last :
    (vs : List (ℕ × ℕ)) (i : ℕ)
    → i < length (drop_last vs)
    → version_at vs i ≡ version_at (drop_last vs) i
unfolding drop_last version_at
version_at-drop_last [] i h = refl
version_at-drop_last (v ∷ []) i h = absurd (omega arith)
version_at-drop_last (v ∷ w ∷ vs) zero h = refl
version_at-drop_last (v ∷ w ∷ vs) (suc i) h = version_at-drop_last (w ∷ vs) i (omega arith)

version_at_in_range :
    (vs : List (ℕ × ℕ)) (i : ℕ) → i < length vs → (v : ℕ) × (version_at vs i ≡ some v)
unfolding version_at
version_at_in_range [] i h = absurd (omega arith)
version_at_in_range (v ∷ vs) zero h = (v.1, refl)
version_at_in_range (v ∷ vs) (suc i) h = version_at_in_range vs i (omega arith)

abbrev starts : List (ℕ × ℕ) → List ℕ
starts = map (λ v. v.0)

bisect_right-le : (vs : List (ℕ × ℕ)) (b : ℕ) → bisect_right (starts vs) b ≤ length vs
unfolding bisect_right
bisect_right-le [] b = omega arith
bisect_right-le (v ∷ vs) b = ground (arith, bisect_right-le vs b)

latest_above : (b n : ℕ) (vs : List (ℕ × ℕ)) → b < n → All (λ w. n ≤ w.0) vs → latest b vs ≡ none
unfolding latest
latest_above b n [] h a = refl
latest_above b n (v ∷ vs) h a = ground (arith, latest_above b n vs h a.1)

abbrev pick : List (ℕ × ℕ) → ℕ → Option ℕ
pick vs zero = none
pick vs (suc i) = version_at vs i

-- The first change has started, so the pick is among the rest or it is this change.
pick_started :
    (b : ℕ) (v : ℕ × ℕ) (vs : List (ℕ × ℕ)) (n : ℕ)
    → leb v.0 b ≡ true
    → n ≤ length vs
    → pick vs n ≡ latest b vs
    → version_at (v ∷ vs) n ≡ latest b (v ∷ vs)
unfolding latest version_at
pick_started b v vs zero le h e = ground arith
pick_started b v vs (suc m) le h e = ground (arith, version_at_in_range vs m h)

pick-latest :
    (vs : List (ℕ × ℕ)) (b : ℕ) → IsSorted vs → pick vs (bisect_right (starts vs) b) ≡ latest b vs
unfolding bisect_right latest version_at
pick-latest [] b s = refl
pick-latest (v ∷ vs) b s = elim (Bool-cases (leb v.0 b)) [
  | inl le ↦ rw le (
      pick_started b v vs (bisect_right (starts vs) b) le (bisect_right-le vs b)
        (pick-latest vs b s.1))
  | inr gt ↦ ground (arith, latest_above b v.0 vs)
]

-- The changes that count: sorted by block, and without the last.
abbrev pub settled : List (ℕ × ℕ) → List (ℕ × ℕ)
settled known = drop_last (sort_versions known)

-- The index reads the whole list, and the last change is out of its reach.
pick-settled :
    (known : List (ℕ × ℕ)) (n : ℕ)
    → n ≤ length (settled known)
    → elim n [ zero ↦ none | suc idx ↦ version_at (sort_versions known) idx ]
      ≡ pick (settled known) n
pick-settled known zero h = refl
pick-settled known (suc n) h = version_at-drop_last (sort_versions known) n h

module _ {Hash R : Type 0} where
  -- After `add_known_versions`, the version assumed for a block is that of the latest change at or
  -- before the block, where the last of the changes never counts.
  pub known_version-latest :
      (c : RuntimeCache Hash R) (known : List (ℕ × ℕ)) (block : ℕ)
      → known_version (add_known_versions c known) block ≡ latest block (settled known)
  unfolding known_version add_known_versions
  known_version-latest c known block =
      pick-settled known (bisect_right (starts (settled known)) block)
        (bisect_right-le (settled known) block)
      ∙ pick-latest (settled known) block
          (drop_last-IsSorted (sort_versions known) (sort_versions-IsSorted known).0)
