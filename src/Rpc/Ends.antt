-- ===== src/Rpc/Ends.antt =====
-- When `_make_rpc_request` comes to its end: the loop over a link that answers in time.
use async_substrate_interfac.Prelude.{
  ℕ, ◌+◌, ◌≤◌, ◌≡◌, ◌≢◌, ◌⊎◌, String, refl, sym, ap, ◌∙◌, inl, inr, Bool, true, false, none, some,
  List, [], ◌∷◌, arith, Bool-cases, Option-cases, is_some, length, All,
}
use async_substrate_interfac.Prelude.Dict.{keys, values, lookup, put, IsDict, IsDict-put}
use async_substrate_interfac.Prelude.Distinct.{has}
use async_substrate_interfac.Prelude.Entries.{
  has-keys, has-values, has-put_same, has-put_keep, has-put_cases,
}
use async_substrate_interfac.Json.{Json, Fields, field}
use async_substrate_interfac.Requests.{
  Info, append_bounded, info_of, add_response, is_open, all_complete,
}
use async_substrate_interfac.Websocket.State.{nothing, got}
use async_substrate_interfac.Requests.Complete.{closed_has}
use async_substrate_interfac.Link.{Link, Decoded, Options, process_response}
use async_substrate_interfac.Rpc.{Call, going, subscribe, add_answer, respond, receive, visit, pass}

not_true : (b : Bool) → (b ≡ true → ⊥) → b ≡ false
not_true true h = absurd (h refl)
not_true false h = refl

-- What is assumed of a link over which what is sent is answered in time. `clock` counts the pauses,
-- `Due w item d` says that `item` is in flight in the state `w` and is answered by the time `d`, and
-- `room` is a number of requests that can be sent. Of an item that is not due, because it was never
-- sent or has been retrieved, nothing is assumed.
pub record Prompt (L : Link) (o : Options L) : Type 1 where
  pub clock : L.State → ℕ
  pub delay : ℕ
  pub Due : L.State → L.Ident → ℕ → Type 0
  pub room : L.State → ℕ
  pub paused : (w : L.State) → clock (L.pass_time w) ≡ clock w + 1
  pub still_due : (w : L.State) (item : L.Ident) (d : ℕ) → Due w item d → Due (L.pass_time w) item d
  -- With room, a send succeeds: the item is not one that is due, and is answered within `delay`.
  pub sends :
      (w : L.State) (b : L.Body)
      → 1 ≤ room w
      → (item : L.Ident) × ((L.send w b).1 ≡ inr item)
        × ((d : ℕ) → Due w item d → ⊥)
        × Due (L.send w b).0 item (clock w + delay)
        × (clock (L.send w b).0 ≡ clock w)
        × (room w ≤ room (L.send w b).0 + 1)
        × ((i : L.Ident) (d : ℕ) → Due w i d → Due (L.send w b).0 i d)
  -- What the retrieval of an item that is due may give: nothing, before its time, or a response that is
  -- not empty and is processed without an exception, while the other items stay due.
  pub timely :
      (w : L.State) (item : L.Ident) (d : ℕ)
      → Due w item d
      → ((L.retrieve w item).1 ≡ nothing)
          × (clock (L.retrieve w item).0 ≡ clock w)
          × (clock w + 1 ≤ d)
          × ((i : L.Ident) (d' : ℕ) → Due w i d' → Due (L.retrieve w item).0 i d')
        ⊎ (k : String) × (v : Json) × (l : Fields) × (w1 : L.State) × (answer : Decoded L.Value)
          × ((L.retrieve w item).1 ≡ got (field k v l))
          × (process_response L o (L.retrieve w item).0 (field k v l) item
              ≡ (w1, inr (answer, true)))
          × (clock w1 ≡ clock w)
          × ((i : L.Ident) (d' : ℕ) → i ≢ item → Due w i d' → Due w1 i d')

module _ (L : Link) (o : Options L) (P : Prompt L o) (no_handler : o.result_handler ≡ none) where
  open L use {State, Ident, Value, id_discrete}
  open P use {clock, Due}

  -- The items that are sent, with the requests that they carry, the time by which all are answered,
  -- and what holds all the while: an item whose request is not answered is due.
  module _ (last : ℕ) (items : List (Ident × Ident)) where
    abbrev pub AllDue : State → List (Ident × Info (Decoded Value)) → Type 0
    AllDue w responses =
        (item q : Ident)
        → lookup id_discrete item items ≡ some q
        → has id_discrete q (keys responses) ≡ false
        → Due w item last

    abbrev pub Underway : Call L → Type 0
    Underway c =
        (c.manager.response_map ≡ items)
        × (c.manager.payloads_count ≡ length items)
        × IsDict id_discrete c.manager.responses
        × (all_complete c.manager.responses ≡ true)
        × ((q : Ident)
            → has id_discrete q (keys c.manager.responses) ≡ true
            → has id_discrete q (values items) ≡ true)
        × AllDue c.link c.manager.responses

    -- No request that was answered is unanswered later, and no time passes.
    abbrev pub Later : Call L → Call L → Type 0
    Later c c' =
        Underway c'
        × (clock c'.link ≡ clock c.link)
        × ((q : Ident)
            → has id_discrete q (keys c.manager.responses) ≡ true
            → has id_discrete q (keys c'.manager.responses) ≡ true)

    all_complete-put :
        (q : Ident) (info : Info (Decoded Value)) (l : List (Ident × Info (Decoded Value)))
        → info.complete ≡ true
        → all_complete l ≡ true
        → all_complete (put id_discrete q info l) ≡ true
    unfolding all_complete put
    all_complete-put q info [] done h = rw done refl
    all_complete-put q info (e ∷ l) done h = ground (arith, all_complete-put q info l done)

    -- The request of an item is answered.
    abbrev pub Answered : Call L → Ident → Type 0
    Answered c q = has id_discrete q (keys c.manager.responses) ≡ true

    -- When an item is answered, the items whose requests are not stay due.
    still_AllDue :
        (w w1 : State) (item q : Ident) (info : Info (Decoded Value))
        (l : List (Ident × Info (Decoded Value)))
        → lookup id_discrete item items ≡ some q
        → ((i : Ident) (d : ℕ) → i ≢ item → Due w i d → Due w1 i d)
        → AllDue w l
        → AllDue w1 (put id_discrete q info l)
    still_AllDue w w1 item q info l found others due i r there open_still =
        others i last
          (λ same. cc (
            has-put_same id_discrete q info l,
            open_still,
            found,
            there,
            ap (λ x. lookup id_discrete x items) same,
          ))
          (due i r there (not_true _ (λ h. cc (has-put_keep id_discrete q r info l h, open_still))))

    respond-Later :
        (c : Call L) (item q : Ident) (w : State) (r : Fields) (answer : Decoded Value)
        (due : State)
        → Underway (record c { link = due })
        → lookup id_discrete item items ≡ some q
        → process_response L o c.link r item ≡ (w, inr (answer, true))
        → clock w ≡ clock due
        → ((i : Ident) (d : ℕ) → i ≢ item → Due due i d → Due w i d)
        → (c' : Call L) × (respond L o c item r ≡ going c')
          × Later (record c { link = due }) c'
          × Answered c' q
    unfolding respond subscribe add_answer add_response
    respond-Later c item q w r answer due u found processed same others =
        let there : lookup id_discrete item c.manager.response_map ≡ some q = rw u.0 found in
        let info : Info (Decoded Value) = record {
          complete = true;
          results = append_bounded 100 (info_of id_discrete c.manager.responses q).results answer;
        } in
        (
          record c {
            link = w;
            manager = record c.manager { responses = put id_discrete q info c.manager.responses };
          },
          rw (respond, subscribe, no_handler)
              (ap (add_answer L c item) processed ∙ rw (add_answer, add_response, there) refl),
          (
            (
              u.0,
              u.1,
              IsDict-put id_discrete q info c.manager.responses u.2,
              all_complete-put q info c.manager.responses refl u.3,
              λ x h. elim (has-put_cases id_discrete q x info c.manager.responses h) [
                | inl p ↦ rw p (has-values id_discrete id_discrete item items q found)
                | inr old ↦ u.4 x old
              ],
              still_AllDue due w item q info c.manager.responses found others u.5,
            ),
            same,
            λ x h. has-put_keep id_discrete q x info c.manager.responses h,
          ),
          has-put_same id_discrete q info c.manager.responses,
        )

    visit-Later :
        (c : Call L) (item q : Ident)
        → Underway c
        → lookup id_discrete item items ≡ some q
        → has id_discrete item (values items) ≡ false
        → has id_discrete q (keys c.manager.responses) ≡ false
        → (c' : Call L) × (visit L o c item ≡ going c')
          × Later c c'
          × (last ≤ clock c.link → Answered c' q)
    unfolding visit receive
    visit-Later c item q u found apart unanswered =
        let unknown : is_some (lookup id_discrete item c.manager.responses) ≡ false =
          sym (has-keys id_discrete item c.manager.responses)
          ∙ not_true _ (λ h. cc (u.4 item h, apart)) in
        let w' = (L.retrieve c.link item).0 in
        elim (P.timely c.link item last (u.5 item q found unanswered)) [
          | inl (none_yet, same, early, kept) ↦ (
            record c { link = w' },
            rw (visit, unknown) (ap (λ r. receive L o c item (w', r)) none_yet),
            (
              (u.0, u.1, u.2, u.3, u.4, λ i r there h. kept i last (u.5 i r there h)),
              same,
              λ x h. h,
            ),
            λ late. absurd (omega (arith, late, early)),
          )
          | inr (k, v, l, w1, answer, came, processed, same, others) ↦
              let (c', ran, later, done) =
                respond-Later (record c { link = w' }) item q w1 (field k v l) answer c.link u found
                  processed same others in
              (
                c',
                rw (visit, unknown) (ap (λ r. receive L o c item (w', r)) came ∙ ran),
                later,
                λ late. done,
              )
        ]

    -- A request that is open has no answer, when all answers are complete.
    complete_entry :
        (q : Ident) (info : Info (Decoded Value)) (l : List (Ident × Info (Decoded Value)))
        → all_complete l ≡ true
        → lookup id_discrete q l ≡ some info
        → info.complete ≡ true
    unfolding all_complete lookup
    complete_entry q info [] h e = absurd (cc e)
    complete_entry q info (x ∷ l) h e = ground (arith, complete_entry q info l)

    open_unanswered :
        (q : Ident) (l : List (Ident × Info (Decoded Value)))
        → all_complete l ≡ true
        → is_open id_discrete l q ≡ true
        → has id_discrete q (keys l) ≡ false
    unfolding is_open
    open_unanswered q l h is_left = elim (Option-cases (lookup id_discrete q l)) [
      | inl missing ↦ has-keys id_discrete q l ∙ ap is_some missing
      | inr (info, there) ↦
          absurd (cc (rw (is_open, there, complete_entry q info l h there) at is_left))
    ]

    -- Every entry of a list is among the items, and no item is a request.
    abbrev pub Among : List (Ident × Ident) → Type 0
    Among l =
        All
          (λ e.
            (lookup id_discrete e.0 items ≡ some e.1)
            × (has id_discrete e.0 (values items) ≡ false))
          l

    pub pass-Later :
        (l : List (Ident × Ident)) (c : Call L)
        → Underway c
        → Among l
        → (c' : Call L) × (pass L o c l ≡ going c')
          × Later c c'
          × (last ≤ clock c.link → All (λ e. Answered c' e.1) l)
    unfolding pass
    pass-Later [] c u among = (c, refl, (u, refl, λ q h. h), λ late. tt)
    pass-Later ((item, q) ∷ l) c u among =
        elim (Bool-cases (is_open id_discrete c.manager.responses q)) [
          | inl is_left ↦
              let (c1, ran1, (u1, same1, kept1), done1) =
                visit-Later c item q u among.0.0 among.0.1
                  (open_unanswered q c.manager.responses u.3 is_left) in
              let (c', ran, (u', same, kept), done) = pass-Later l c1 u1 among.1 in
              (
                c',
                rw (pass, is_left, ran1) ran,
                (u', same ∙ same1, λ x h. kept x (kept1 x h)),
                λ late. (kept q (done1 late), done (rw same1 late)),
              )
          | inr closed ↦
              let (c', ran, (u', same, kept), done) = pass-Later l c u among.1 in
              (
                c',
                rw (pass, closed) ran,
                (u', same, kept),
                λ late. (kept q (closed_has id_discrete c.manager.responses q closed), done late),
              )
        ]
