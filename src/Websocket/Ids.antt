-- ===== src/Websocket/Ids.antt =====
-- get_next_id of async_substrate_interface/utils/__init__.py, and the loop of `send` and
-- `unsubscribe` of class Websocket that draws ids until one is not in use. The letters come from a
-- random generator: they are a parameter, a function of the number of the draw. An id's text is
-- its two letters and the decimal digits of its number, so the pair stands for the text.
use async_substrate_interfac.Prelude.{
  ℕ, zero, suc, ◌+◌, ◌%◌, ◌<◌, ◌≤◌, ◌≡◌, ◌≢◌, refl, ap, ◌∙◌, inl, inr, true, false, Bool-cases,
  Option-cases, Option, none, some, List, [], ◌∷◌, arith, String, if◌then◌else◌, length, if_neg,
}
use async_substrate_interfac.Prelude.Distinct.{has, Distinct, has_in_tail, length-le_of_subset}

pub record RequestId : Type 0 where
  pub letters : String
  pub number : ℕ

module _ (letters : ℕ → String) where
  -- The id of draw `n`: `cycle(range(1, 999))` counts from 1 to 998 and starts again.
  unfoldable pub get_next_id : ℕ → RequestId
  get_next_id n = record { letters = letters n; number = n % 998 + 1 }

  module _ (dec : Discrete RequestId) where
    -- `while original_id in self._in_use_ids`, from draw `n`: the id and the next draw. `none`
    -- says that the fuel ran out.
    unfoldable pub unused_id : ℕ → List RequestId → ℕ → Option (RequestId × ℕ)
    unfolding get_next_id has
    unused_id zero in_use n = none
    unused_id (suc fuel) in_use n =
        let rest = unused_id fuel in_use (n + 1) in
        if has dec (get_next_id n) in_use then rest else some (get_next_id n, n + 1)

    -- The ids of `k` draws from draw `n`.
    draws : ℕ → ℕ → List RequestId
    draws zero n = []
    draws (suc k) n = get_next_id n ∷ draws k (n + 1)

    numbers_differ : (n j : ℕ) → j < 997 → n % 998 + 1 ≢ (n + 1 + j) % 998 + 1
    numbers_differ n j h = omega arith

    draw_not_later :
        (k n m j : ℕ) → m ≡ n + 1 + j → j + k ≤ 997 → has dec (get_next_id n) (draws k m) ≡ false
    unfolding has get_next_id draws
    draw_not_later zero n m j e h = refl
    draw_not_later (suc k) n m j e h =
        let differ : get_next_id n ≢ get_next_id m = λ p.
          numbers_differ n j (omega arith)
            (ap (λ (x : RequestId). x.number) p ∙ ap (λ t. t % 998 + 1) e) in
        if_neg (dec (get_next_id n) (get_next_id m)) differ true
          (has dec (get_next_id n) (draws k (m + 1)))
        ∙ draw_not_later k n (m + 1) (j + 1) (omega arith) (omega arith)

    draws-Distinct : (k n : ℕ) → k ≤ 998 → Distinct dec (draws k n)
    unfolding draws
    draws-Distinct zero n h = tt
    draws-Distinct (suc k) n h = (
      draw_not_later k n (n + 1) 0 (omega arith) (omega arith),
      draws-Distinct k (n + 1) (omega arith),
    )

    length-draws : (k n : ℕ) → length (draws k n) ≡ k
    unfolding draws
    length-draws zero n = refl
    length-draws (suc k) n = ap suc (length-draws k (n + 1))

    -- The loop fails only if every id it drew is in use.
    exhausted :
        (fuel n : ℕ) (in_use : List RequestId)
        → unused_id fuel in_use n ≡ none
        → (x : RequestId) → has dec x (draws fuel n) ≡ true
        → has dec x in_use ≡ true
    unfolding unused_id has draws
    exhausted zero n in_use h x k = absurd (cc k)
    exhausted (suc fuel) n in_use h x k = elim (Bool-cases (has dec (get_next_id n) in_use)) [
      | inl taken ↦ elim (dec x (get_next_id n)) [
        | yes p ↦ rw p taken
        | no q ↦
            exhausted fuel (n + 1) in_use (rw (taken, unused_id) at h) x
              (has_in_tail dec x (get_next_id n) (draws fuel (n + 1)) q k)
      ]
      | inr free ↦ absurd (cc (rw (free, unused_id) at h))
    ]

    pub drawn_unused :
        (fuel n n' : ℕ) (in_use : List RequestId) (id : RequestId)
        → unused_id fuel in_use n ≡ some (id, n')
        → has dec id in_use ≡ false
    unfolding unused_id
    drawn_unused zero n n' in_use id h = cc
    drawn_unused (suc fuel) n n' in_use id h =
        ground (arith, drawn_unused fuel (n + 1) n' in_use id)

    unused_id_found :
        (fuel n : ℕ) (in_use : List RequestId)
        → fuel ≤ 998
        → length in_use < fuel
        → (found : RequestId × ℕ) × (unused_id fuel in_use n ≡ some found)
    unused_id_found fuel n in_use h room = elim (Option-cases (unused_id fuel in_use n)) [
      | inr found ↦ found
      | inl stuck ↦ absurd (
          omega (
            arith,
            length-draws fuel n,
            length-le_of_subset dec (draws fuel n) in_use (draws-Distinct fuel n h)
                (exhausted fuel n in_use stuck),
          ))
    ]

    -- While fewer than 998 ids are in use, 998 draws are enough to find one that is not.
    pub unused_id-total :
        (in_use : List RequestId) (n : ℕ)
        → length in_use < 998
        → (id : RequestId) × (n' : ℕ) × (unused_id 998 in_use n ≡ some (id, n'))
          × (has dec id in_use ≡ false)
    unused_id-total in_use n room =
        let ((id, n'), found) = unused_id_found 998 n in_use (omega arith) room in
        (id, n', found, drawn_unused 998 n n' in_use id found)
