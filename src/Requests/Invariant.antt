-- ===== src/Requests/Invariant.antt =====
-- RequestManager keeps items and requests one to one, and holds responses only for its requests.
use async_substrate_interfac.Prelude.{
  ℕ, ◌≡◌, sym, ap, ◌∙◌, inl, inr, Bool, true, false, none, some, List, [], ◌∷◌, ◌++◌, arith, if_neg,
  is_some, Option-cases,
}
use async_substrate_interfac.Prelude.Dict.{
  keys, values, lookup, put, remove, IsDict, lookup-put, put_absent, IsDict-put, IsDict-remove,
  IsDict-append_one,
}
use async_substrate_interfac.Prelude.Distinct.{
  has, without, Distinct, has-append_left, has_moved, has-without, Distinct-append_one,
  Distinct-without,
}
use async_substrate_interfac.Prelude.Entries.{
  values-append_one, has-keys, has-values, values-remove,
}
use async_substrate_interfac.Requests.{
  Info, RequestManager, append_bounded, init, add_request, overwrite_request, add_response, info_of,
}

module _ {Item Request Response : Type 0} (di : Discrete Item) (dr : Discrete Request) where
  pub record IsValid (m : RequestManager Item Request Response) : Type 0 where
    pub items : IsDict di m.response_map
    pub requests : Distinct dr (values m.response_map)
    pub answers : IsDict dr m.responses
    pub expected :
        (q : Request) → has dr q (keys m.responses) ≡ true → has dr q (values m.response_map) ≡ true

  pub init-IsValid : (n : ℕ) → IsValid (init n)
  unfolding init has
  init-IsValid n = record { items = tt; requests = tt; answers = tt; expected = λ q h. h }

  -- A new item for a new request keeps the manager valid.
  pub add_request-IsValid :
      (m : RequestManager Item Request Response) (item : Item) (request : Request)
      → IsValid m
      → lookup di item m.response_map ≡ none
      → has dr request (values m.response_map) ≡ false
      → IsValid (add_request di m item request)
  unfolding add_request
  add_request-IsValid m item request v new_item new_request =
      rw (put_absent di item request m.response_map new_item) (record {
        items = IsDict-append_one di item request m.response_map v.items new_item;
        requests =
            rw (values-append_one m.response_map item request)
              (Distinct-append_one dr (values m.response_map) request v.requests new_request);
        answers = v.answers;
        expected = λ q h.
            rw (values-append_one m.response_map item request)
              (has-append_left dr q (values m.response_map) (request ∷ []) (v.expected q h));
      })

  overwrite_request_cases :
      (m m' : RequestManager Item Request Response) (item id id' : Item)
      → overwrite_request di m item id ≡ some (m', id')
      → (request : Request) × (lookup di item m.response_map ≡ some request)
        × (m' ≡ record m { response_map = put di id request (remove di item m.response_map) })
  unfolding overwrite_request
  overwrite_request_cases m m' item id id' e = elim (Option-cases (lookup di item m.response_map)) [
    | inl absent ↦ absurd (cc (rw (absent, overwrite_request) at e))
    | inr (request, present) ↦ (request, present, ground arith)
  ]

  -- To move a request from its item to a subscription id that is new keeps the manager valid.
  pub overwrite_request-IsValid :
      (m m' : RequestManager Item Request Response) (item id id' : Item)
      → IsValid m
      → lookup di id (remove di item m.response_map) ≡ none
      → overwrite_request di m item id ≡ some (m', id')
      → IsValid m'
  overwrite_request-IsValid m m' item id id' v new e =
      let (request, present, eq) = overwrite_request_cases m m' item id id' e in
      let rest = remove di item m.response_map in
      let moved : values (put di id request rest)
          ≡ without dr request (values m.response_map) ++ request ∷ [] =
        ap values (put_absent di id request rest new)
        ∙ values-append_one rest id request
        ∙ ap (λ l. l ++ request ∷ [])
            (values-remove di dr item m.response_map request v.items v.requests present) in
      rw eq (record {
        items = IsDict-put di id request rest (IsDict-remove di item m.response_map v.items);
        requests = rw moved (
            Distinct-append_one dr (without dr request (values m.response_map)) request
              (Distinct-without dr request (values m.response_map) v.requests)
              (ground (arith, has-without dr request (values m.response_map) request)));
        answers = v.answers;
        expected =
            λ q h. rw moved (has_moved dr q request (values m.response_map) (v.expected q h));
      })

  pub add_response_cases :
      (m m' : RequestManager Item Request Response) (item : Item) (response : Response)
      (complete : Bool)
      → add_response di dr m item response complete ≡ some m'
      → (request : Request) × (lookup di item m.response_map ≡ some request)
        × (m' ≡ record m {
          responses =
              put dr request
                (record {
                  complete = complete;
                  results = append_bounded 100 (info_of dr m.responses request).results response;
                })
                m.responses;
        })
  unfolding add_response
  add_response_cases m m' item response complete e =
      elim (Option-cases (lookup di item m.response_map)) [
        | inl absent ↦ absurd (cc (rw (absent, add_response) at e))
        | inr (request, present) ↦ (request, present, ground arith)
      ]

  expected_put :
      (l : List (Request × Info Response)) (request : Request) (info : Info Response)
      (wanted : List Request)
      → ((q : Request) → has dr q (keys l) ≡ true → has dr q wanted ≡ true)
      → has dr request wanted ≡ true
      → (q : Request) → has dr q (keys (put dr request info l)) ≡ true
      → has dr q wanted ≡ true
  expected_put l request info wanted old new q h = elim (dr q request) [
    | yes p ↦ rw p new
    | no n ↦
        let same : lookup dr q (put dr request info l) ≡ lookup dr q l =
          lookup-put dr request info l q ∙ if_neg (dr q request) n (some info) (lookup dr q l) in
        old q (
          has-keys dr q l ∙ ap is_some (sym same) ∙ sym (has-keys dr q (put dr request info l)) ∙ h)
  ]

  -- A response keeps the manager valid.
  pub add_response-IsValid :
      (m m' : RequestManager Item Request Response) (item : Item) (response : Response)
      (complete : Bool)
      → IsValid m
      → add_response di dr m item response complete ≡ some m'
      → IsValid m'
  add_response-IsValid m m' item response complete v e =
      let (request, present, eq) = add_response_cases m m' item response complete e in
      rw eq (record {
        items = v.items;
        requests = v.requests;
        answers = IsDict-put dr request _ m.responses v.answers;
        expected =
            expected_put m.responses request _ (values m.response_map) v.expected
              (has-values di dr item m.response_map request present);
      })
