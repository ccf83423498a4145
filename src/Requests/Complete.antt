-- ===== src/Requests/Complete.antt =====
-- `is_complete` of RequestManager against `unresponded`.
use async_substrate_interfac.Prelude.{
  ℕ, ◌≡◌, ◌≢◌, ◌↔◌, refl, sym, ◌∙◌, Bool, true, false, ◌&&◌, List, [], ◌∷◌, arith, length, ◌==◌,
}
use async_substrate_interfac.Prelude.Dict.{keys, values, IsDict}
use async_substrate_interfac.Prelude.Distinct.{
  has, head_has, tail_has, length-le_of_subset, subset_of_length,
}
use async_substrate_interfac.Prelude.Entries.{length-map, has-keys, keys-Distinct}
use async_substrate_interfac.Requests.{
  Info, RequestManager, all_complete, is_open, is_complete, open_items, unresponded,
}
use async_substrate_interfac.Requests.Invariant.{IsValid}

==→eq : (a b : ℕ) → (a == b) ≡ true → a ≡ b
==→eq a b h = ground arith

pub eq→== : (a b : ℕ) → a ≡ b → (a == b) ≡ true
eq→== a b h = ground arith

&&_parts : (a b : Bool) → (a && b) ≡ true → (a ≡ true) × (b ≡ true)
&&_parts true b h = (refl, h)
&&_parts false b h = cc

module _ {Request Response : Type 0} (dr : Discrete Request) where
  -- A request that is not open has an entry.
  pub closed_has :
      (l : List (Request × Info Response)) (q : Request)
      → is_open dr l q ≡ false
      → has dr q (keys l) ≡ true
  unfolding is_open
  closed_has l q h = has-keys dr q l ∙ ground arith

  -- Every entry is complete exactly when no key is open.
  all_complete→closed :
      (l : List (Request × Info Response)) (q : Request)
      → all_complete l ≡ true
      → has dr q (keys l) ≡ true
      → is_open dr l q ≡ false
  unfolding all_complete is_open has
  all_complete→closed [] q h k = cc
  all_complete→closed ((r, info) ∷ l) q h k = ground (arith, all_complete→closed l q)

  head_closed :
      (r : Request) (info : Info Response) (l : List (Request × Info Response))
      → is_open dr ((r, info) ∷ l) r ≡ false
      → info.complete ≡ true
  unfolding is_open
  head_closed r info l h = ground arith

  is_open_tail :
      (r q : Request) (info : Info Response) (l : List (Request × Info Response))
      → q ≢ r
      → is_open dr ((r, info) ∷ l) q ≡ is_open dr l q
  unfolding is_open
  is_open_tail r q info l n = ground arith

  closed→all_complete :
      (l : List (Request × Info Response))
      → IsDict dr l
      → ((q : Request) → has dr q (keys l) ≡ true → is_open dr l q ≡ false)
      → all_complete l ≡ true
  unfolding all_complete
  closed→all_complete [] d h = refl
  closed→all_complete ((r, info) ∷ l) d h =
      let first : info.complete ≡ true = head_closed r info l (h r (head_has dr r (keys l))) in
      rw first (
        closed→all_complete l d.1 λ q k. elim (dr q r) [
          | yes p ↦ absurd (cc (has-keys dr r l, d.0, k, p))
          | no n ↦ sym (is_open_tail r q info l n) ∙ h q (tail_has dr q r (keys l) k)
        ])

module _ {Item Request Response : Type 0} (dr : Discrete Request) where
  none_open→closed :
      (responses : List (Request × Info Response)) (l : List (Item × Request))
      → open_items dr responses l ≡ []
      → (q : Request) → has dr q (values l) ≡ true
      → is_open dr responses q ≡ false
  unfolding open_items has
  none_open→closed responses [] h q k = cc
  none_open→closed responses ((i, r) ∷ l) h q k = ground (arith, none_open→closed responses l _ q)

  closed→none_open :
      (responses : List (Request × Info Response)) (l : List (Item × Request))
      → ((q : Request) → has dr q (values l) ≡ true → is_open dr responses q ≡ false)
      → open_items dr responses l ≡ []
  unfolding open_items
  closed→none_open responses [] h = refl
  closed→none_open responses ((i, r) ∷ l) h =
      rw (h r (head_has dr r (values l)))
        (closed→none_open responses l (λ q k. h q (tail_has dr q r (values l) k)))

module _ {Item Request Response : Type 0} (di : Discrete Item) (dr : Discrete Request) where
  module _ (m : RequestManager Item Request Response) where
    complete→none_open :
        IsValid di dr m
        → length m.response_map ≡ m.payloads_count
        → is_complete m ≡ true
        → unresponded dr m ≡ []
    unfolding is_complete unresponded
    complete→none_open v sent h =
        let (all, counted) =
          &&_parts (all_complete m.responses) (length m.responses == m.payloads_count) h in
        closed→none_open dr m.responses m.response_map λ q k.
          all_complete→closed dr m.responses q all (
            subset_of_length dr (keys m.responses) (values m.response_map)
              (keys-Distinct dr m.responses v.answers) v.expected
              (omega (
                arith,
                ==→eq _ _ counted,
                length-map (λ (e : Request × Info Response). e.0) m.responses,
                length-map (λ (e : Item × Request). e.1) m.response_map,
              ))
              q k)

    none_open→complete :
        IsValid di dr m
        → length m.response_map ≡ m.payloads_count
        → unresponded dr m ≡ []
        → is_complete m ≡ true
    unfolding is_complete unresponded
    none_open→complete v sent h =
        let closed : (q : Request)
            → has dr q (values m.response_map) ≡ true
            → is_open dr m.responses q ≡ false =
          none_open→closed dr m.responses m.response_map h in
        let all : all_complete m.responses ≡ true =
          closed→all_complete dr m.responses v.answers (λ q k. closed q (v.expected q k)) in
        rw all (
          eq→== _ _ (
            omega (
              arith,
              length-le_of_subset dr (keys m.responses) (values m.response_map)
                  (keys-Distinct dr m.responses v.answers) v.expected,
              length-le_of_subset dr (values m.response_map) (keys m.responses) v.requests
                  (λ q k. closed_has dr m.responses q (closed q k)),
              length-map (λ (e : Request × Info Response). e.0) m.responses,
              length-map (λ (e : Item × Request). e.1) m.response_map,
            )))

  -- Once every payload of a valid manager has been sent, the manager is complete exactly when no
  -- item is unresponded.
  pub is_complete_iff :
      (m : RequestManager Item Request Response)
      → IsValid di dr m
      → length m.response_map ≡ m.payloads_count
      → (is_complete m ≡ true) ↔ (unresponded dr m ≡ [])
  is_complete_iff m v sent = (complete→none_open m v sent, none_open→complete m v sent)
