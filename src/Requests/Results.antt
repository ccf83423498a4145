-- ===== src/Requests/Results.antt =====
-- The results that RequestManager keeps for one request.
use async_substrate_interfac.Prelude.{
  ℕ, zero, suc, ◌+◌, ◌-◌, ◌≤◌, ◌≡◌, refl, sym, ap, ◌∙◌, inl, inr, true, false, Bool-cases, Option,
  none, some, List, [], ◌∷◌, ◌++◌, arith, ltb, if_pos, length, drop, length-append, length-drop,
}
use mathlib.Core.List.{append-nil, append_assoc}
use async_substrate_interfac.Prelude.Dict.{lookup, put, lookup-put}
use async_substrate_interfac.Cache.Lru.Invariant.{window}
use async_substrate_interfac.Cache.Lru.Recency.{window-all, drop-append}
use async_substrate_interfac.Requests.{
  Info, RequestManager, no_info, append_bounded, add_response, info_of,
}

drop-suc {ℓ} : {A : Type ℓ} (n : ℕ) (l : List A) → drop 1 (drop n l) ≡ drop (suc n) l
drop-suc zero l = refl
drop-suc (suc n) [] = refl
drop-suc (suc n) (x ∷ l) = drop-suc n l

ltb_room {ℓ} :
    {A : Type ℓ} (n : ℕ) (l : List A) → ltb (length (window n l)) n ≡ true → length l + 1 ≤ n
ltb_room n l h = ground (arith, length-drop (length l - n) l)

ltb_full {ℓ} :
    {A : Type ℓ} (n : ℕ) (l : List A)
    → ltb (length (window n l)) n ≡ false
    → length l ≡ n + (length l - n)
ltb_full n l h = ground (arith, length-drop (length l - n) l)

-- One more item after the last `n` items of a list.
append_bounded-window {ℓ} :
    {A : Type ℓ} (n : ℕ) (l : List A) (x : A)
    → append_bounded n (window n l) x ≡ window n (l ++ x ∷ [])
unfolding append_bounded
append_bounded-window n l x = elim (Bool-cases (ltb (length (window n l)) n)) [
  | inl room ↦
      let short : length l + 1 ≤ n = ltb_room n l room in
      rw room (
        ap (λ w. w ++ x ∷ []) (window-all n l (omega arith))
        ∙ sym (window-all n (l ++ x ∷ []) (omega (arith, length-append l (x ∷ [])))))
  | inr full ↦
      let long : length l ≡ n + (length l - n) = ltb_full n l full in
      let one : length (window n l) + 1 - n ≡ 1 = omega (arith, length-drop (length l - n) l) in
      let more : length (l ++ x ∷ []) - n ≡ suc (length l - n) =
        omega (arith, length-append l (x ∷ [])) in
      rw (full, one, more)
        (ap (drop 1) (sym (drop-append (length l - n) l (x ∷ []) (omega arith)))
          ∙ drop-suc (length l - n) (l ++ x ∷ []))
]

module _ {Item Request Response : Type 0} (di : Discrete Item) (dr : Discrete Request) where
  -- Responses that arrive for one item, none of them the last.
  unfoldable pub add_responses :
      RequestManager Item Request Response
      → Item
      → List Response
      → Option (RequestManager Item Request Response)
  unfolding add_response
  add_responses m item [] = some m
  add_responses m item (response ∷ rest) = elim (add_response di dr m item response false) [
    | none ↦ none
    | some m' ↦ add_responses m' item rest
  ]

  abbrev answered :
      RequestManager Item Request Response
      → Request
      → Response
      → RequestManager Item Request Response
  answered m request response = record m {
    responses =
        put dr request
          (record {
            complete = false;
            results = append_bounded 100 (info_of dr m.responses request).results response;
          })
          m.responses;
  }

  add_response-answered :
      (m : RequestManager Item Request Response) (item : Item) (request : Request)
      (response : Response)
      → lookup di item m.response_map ≡ some request
      → add_response di dr m item response false ≡ some (answered m request response)
  unfolding add_response
  add_response-answered m item request response known = rw (known, add_response)

  answered-results :
      (m : RequestManager Item Request Response) (request : Request) (response : Response)
      → (info_of dr (answered m request response).responses request).results
        ≡ append_bounded 100 (info_of dr m.responses request).results response
  unfolding info_of
  answered-results m request response =
      ap
        (λ (o : Option (Info Response)).
          (elim o as (λ _. Info Response) [ none ↦ no_info | some i ↦ i ]).results)
        (lookup-put dr request _ m.responses request ∙ if_pos (dr request request) refl (some _) _)

  -- However many responses arrive for a known item, none is refused, and its request keeps the
  -- last hundred of them in the order of their arrival.
  pub add_responses-window :
      (m : RequestManager Item Request Response) (item : Item) (request : Request)
      (before rest : List Response)
      → lookup di item m.response_map ≡ some request
      → (info_of dr m.responses request).results ≡ window 100 before
      → (m' : RequestManager Item Request Response) × (add_responses m item rest ≡ some m')
        × ((info_of dr m'.responses request).results ≡ window 100 (before ++ rest))
  unfolding add_responses
  add_responses-window m item request before [] known e = (m, refl, rw append-nil e)
  add_responses-window m item request before (response ∷ rest) known e =
      let (m', ran, kept) =
        add_responses-window (answered m request response) item request (before ++ response ∷ [])
          rest known
          (answered-results m request response
            ∙ ap (λ l. append_bounded 100 l response) e
            ∙ append_bounded-window 100 before response) in
      (
        m',
        rw (add_response-answered m item request response known, add_responses) ran,
        kept ∙ ap (window 100) (append_assoc before (response ∷ []) rest),
      )
