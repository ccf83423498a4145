-- ===== src/Rpc/Origins.antt =====
-- Where the answers that `_make_rpc_request` returns come from.
use mathlib.Core.List.{Memᴰ}
use async_substrate_interfac.Prelude.{
  ℕ, ◌≡◌, refl, sym, ◌∙◌, ◌⊎◌, inl, inr, Bool, true, false, some, List, [], ◌∷◌, ◌++◌, if_pos,
  is_some, not, ◌&&◌, ◌||◌, ltb, if◌then◌else◌, ◌+◌, ◌-◌, Option-cases, Bool-cases, sum_cases,
  inr_inj, All, length, drop,
}
use async_substrate_interfac.Prelude.Dict.{lookup, put, remove, lookup-put, IsDict, IsDict-put}
use async_substrate_interfac.Prelude.Every.{All-put, All-remove, All-lookup, All-append, All-drop}
use async_substrate_interfac.Json.{Json, Fields, end, field, field_of}
use async_substrate_interfac.Requests.{
  Info, append_bounded, overwrite_request, add_response, info_of,
}
use async_substrate_interfac.Websocket.State.{Retrieved, nothing, got, raised}
use async_substrate_interfac.Rpc.Induction.{OnStep}
use async_substrate_interfac.Link.{Link, Decoded, Payload, Options, process_response}
use async_substrate_interfac.Rpc.{
  Call, Step, overwrite, subscribe, add_answer, respond, receive, visit,
}

module _ {A : Type 0} (P : A → Type 0) where
  pub All-append_bounded :
      (n : ℕ) (l : List A) (x : A) → All P l → P x → All P (append_bounded n l x)
  unfolding append_bounded
  All-append_bounded n l x h p =
      elim (ltb (length l) n)
        as (λ b. All P (if b then l ++ x ∷ [] else drop (length l + 1 - n) (l ++ x ∷ []))) [
          | true ↦ All-append P l (x ∷ []) h (p, tt)
          | false ↦ All-drop P (length l + 1 - n) (l ++ x ∷ []) (All-append P l (x ∷ []) h (p, tt))
        ]

module _ (L : Link) (o : Options L) (payloads : List (Payload L)) where
  open L use {State, Ident, Value, id_discrete, send, retrieve, id_of}

  -- An item carries the request of the payload that it was sent for, and a subscription that of the
  -- item whose response names it.
  pub data Carries : Ident → Ident → Type 0 where
    sent :
        {p : Payload L} {w w' : State} {item : Ident}
        → Memᴰ p payloads
        → send w p.payload ≡ (w', inr item)
        → Carries item p.id
    subscribed :
        {item request sub : Ident} {r : Fields} {result : Json} {w w' : State}
        → Carries item request
        → retrieve w item ≡ (w', got r)
        → field_of "result" r ≡ some result
        → id_of result ≡ some sub
        → Carries sub request

  -- An answer to a request: a response to an item that carries it, processed for an item that does.
  abbrev pub Answers : Ident → Decoded Value → Type 0
  Answers request answer =
      (asked : Ident) × (item : Ident) × (r : Fields) × (w : State) × (w1 : State) × (w2 : State)
      × (complete : Bool) × Carries asked request
      × Carries item request
      × (retrieve w asked ≡ (w1, got r))
      × (process_response L o w1 r item ≡ (w2, inr (answer, complete)))

  -- The requests that have answers are carried, each has one entry, and the answers are theirs.
  abbrev pub Good : Call L → Type 0
  Good c =
      All (λ e. Carries e.0 e.1) c.manager.response_map
      × All (λ e. All (Answers e.0) e.1.results) c.manager.responses
      × All (λ e. (item : Ident) × Carries item e.0) c.manager.responses
      × IsDict id_discrete c.manager.responses
      × (c.manager.payloads_count ≡ length payloads)

  abbrev pub GoodStep : Step L → Type 0
  GoodStep = OnStep L o Good (λ _. Unit)

  info_of-All :
      (l : List (Ident × Info (Decoded Value))) (request : Ident)
      → All (λ e. All (Answers e.0) e.1.results) l
      → All (Answers request) (info_of id_discrete l request).results
  unfolding info_of
  info_of-All l request h = elim (Option-cases (lookup id_discrete request l)) [
    | inl absent ↦ rw (info_of, absent) tt
    | inr (info, found) ↦
        rw (info_of, found)
          (All-lookup id_discrete (λ e. All (Answers e.0) e.1.results) request info l h found)
  ]

  new_answer-Good :
      (c : Call L) (asked item : Ident) (r : Fields) (w : State)
      (answer : State × (L.Error ⊎ (Decoded Value × Bool)))
      → Good c
      → ((request : Ident)
          → lookup id_discrete item c.manager.response_map ≡ some request
          → Carries asked request)
      → retrieve w asked ≡ (c.link, got r)
      → process_response L o c.link r item ≡ answer
      → GoodStep (add_answer L c item answer)
  unfolding add_answer add_response
  new_answer-Good c asked item r w (w', inl e) good known ran processed = tt
  new_answer-Good c asked item r w (w', inr (answer, complete)) good known ran processed =
      elim (Option-cases (lookup id_discrete item c.manager.response_map)) [
        | inl absent ↦ rw (add_answer, add_response, absent) tt
        | inr (request, found) ↦
            let carried : Carries item request =
              All-lookup id_discrete (λ e. Carries e.0 e.1) item request c.manager.response_map
                good.0 found in
            let new : Answers request answer = (
              asked,
              item,
              r,
              w,
              c.link,
              w',
              complete,
              known request found,
              carried,
              ran,
              processed,
            ) in
            rw (add_answer, add_response, found)
              (
                good.0,
                All-put id_discrete (λ e. All (Answers e.0) e.1.results) request _
                    c.manager.responses
                    (All-append_bounded (Answers request) 100 _ answer
                      (info_of-All c.manager.responses request good.1) new)
                    good.1,
                All-put id_discrete (λ e. (item : Ident) × Carries item e.0) request _
                    c.manager.responses (item, carried) good.2,
                IsDict-put id_discrete request _ c.manager.responses good.3,
                good.4,
              )
      ]

  -- After a subscription: the item that was asked carries the request of the id that replaces it.
  abbrev Kept : Call L → Ident → Call L × Ident → Type 0
  Kept c asked (c', id) =
      Good c'
      × (c'.link ≡ c.link)
      × ((request : Ident)
          → lookup id_discrete id c'.manager.response_map ≡ some request
          → Carries asked request)

  found_subscription :
      (c : Call L) (item sub request : Ident) (r : Fields) (result : Json) (w : State)
      → Good c
      → retrieve w item ≡ (c.link, got r)
      → field_of "result" r ≡ some result
      → id_of result ≡ some sub
      → lookup id_discrete item c.manager.response_map ≡ some request
      → Kept c item (
        record c {
          manager = record c.manager {
            response_map =
                put id_discrete sub request (remove id_discrete item c.manager.response_map);
          };
          subscription_added = true;
        },
        sub,
      )
  found_subscription c item sub request r result w good ran named is_id found =
      let carried : Carries item request =
        All-lookup id_discrete (λ e. Carries e.0 e.1) item request c.manager.response_map good.0
          found in
      (
        (
          All-put id_discrete (λ e. Carries e.0 e.1) sub request _
              (subscribed carried ran named is_id)
              (All-remove id_discrete (λ e. Carries e.0 e.1) item c.manager.response_map good.0),
          good.1,
          good.2,
          good.3,
          good.4,
        ),
        refl,
        λ q there.
            let same : request ≡ q = cc (
              sym (
                  lookup-put id_discrete sub request
                    (remove id_discrete item c.manager.response_map) sub
                  ∙ if_pos (id_discrete sub sub) refl (some request) _),
              there,
            ) in
            rw (sym same) carried,
      )

  overwrite-Good :
      (c : Call L) (item : Ident) (r : Fields) (w : State) (after : Call L × Ident)
      → Good c
      → retrieve w item ≡ (c.link, got r)
      → overwrite L c item r ≡ inr after
      → Kept c item after
  unfolding overwrite overwrite_request
  overwrite-Good c item r w after good ran e = elim (Option-cases (field_of "result" r)) [
    | inl absent ↦ absurd (cc (rw (overwrite, absent) at e))
    | inr (result, named) ↦ elim (Option-cases (id_of result)) [
      | inl no_id ↦ absurd (cc (rw (overwrite, named, no_id) at e))
      | inr (sub, is_id) ↦ elim (Option-cases (lookup id_discrete item c.manager.response_map)) [
        | inl unknown ↦ absurd (cc (rw (overwrite, named, is_id, overwrite_request, unknown) at e))
        | inr (request, found) ↦
            rw (sym (inr_inj (rw (overwrite, named, is_id, overwrite_request, found) at e)))
              (found_subscription c item sub request r result w good ran named is_id found)
      ]
    ]
  ]

  subscribe-Good :
      (c : Call L) (item : Ident) (r : Fields) (w : State) (after : Call L × Ident)
      → Good c
      → retrieve w item ≡ (c.link, got r)
      → subscribe L o c item r ≡ inr after
      → Kept c item after
  unfolding subscribe
  subscribe-Good c item r w after good ran e =
      elim (Bool-cases (is_some o.result_handler && not c.subscription_added)) [
        | inl first ↦ overwrite-Good c item r w after good ran (rw (subscribe, first) at e)
        | inr other ↦ rw (sym (inr_inj (rw (subscribe, other) at e))) (
          good,
          refl,
          λ request found.
              All-lookup id_discrete (λ e. Carries e.0 e.1) item request c.manager.response_map
                good.0 found,
        )
      ]

  respond-Good :
      (c : Call L) (item : Ident) (r : Fields) (w : State)
      → Good c
      → retrieve w item ≡ (c.link, got r)
      → GoodStep (respond L o c item r)
  unfolding respond
  respond-Good c item r w good ran = elim (sum_cases (subscribe L o c item r)) [
    | inl (e, refused) ↦ rw (respond, refused) tt
    | inr ((c', id), done) ↦
        let (kept, link, known) = subscribe-Good c item r w (c', id) good ran done in
        rw (respond, done) (new_answer-Good c' item id r w _ kept known (rw link ran) refl)
  ]

  receive-Good :
      (c : Call L) (item : Ident) (answer : State × Retrieved Fields L.Error)
      → Good c
      → retrieve c.link item ≡ answer
      → GoodStep (receive L o c item answer)
  unfolding receive
  receive-Good c item (w, nothing) good ran = good
  receive-Good c item (w, raised e) good ran = tt
  receive-Good c item (w, got end) good ran = good
  receive-Good c item (w, got (field k v l)) good ran =
      respond-Good (record c { link = w }) item (field k v l) c.link good ran

  pub visit-Good : (c : Call L) (item : Ident) → Good c → GoodStep (visit L o c item)
  unfolding visit
  visit-Good c item good =
      elim (Bool-cases
        (not (is_some (lookup id_discrete item c.manager.responses)) || is_some o.result_handler)) [
          | inl asks ↦ rw (visit, asks) (receive-Good c item (retrieve c.link item) good refl)
          | inr waits ↦ rw (visit, waits) good
        ]
