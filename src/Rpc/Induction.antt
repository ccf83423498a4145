-- ===== src/Rpc/Induction.antt =====
-- Induction over `_make_rpc_request`: what every step keeps holds at its end.
use mathlib.Core.List.{Memᴰ}
use mathlib.Core.List.Memᴰ.{head, tail}
use async_substrate_interfac.Prelude.{
  ℕ, zero, suc, ◌≡◌, refl, true, false, inl, inr, none, List, [], ◌∷◌, map, length, Bool-cases,
}
use async_substrate_interfac.Requests.{is_open, is_complete, get_results}
use async_substrate_interfac.Link.{Link, Decoded, Payload, Options}
use async_substrate_interfac.Rpc.{
  Call, Step, going, broken, visit, pass, Outcome, returned, failed, unfinished, poll, add_sent,
  send_all, unique, started, request_all, make_rpc_request,
}

-- `I` holds of a call that goes on, and `E` of the link when one has failed.
module _ (L : Link) (o : Options L) (I : Call L → Type 0) (E : L.State → Type 0) where
  open L use {State, Ident, Value, id_discrete}

  abbrev pub OnStep : Step L → Type 0
  OnStep (going c) = I c
  OnStep (broken w e) = E w

  after_visit :
      (s : Step L) (l : List (Ident × Ident))
      → OnStep s
      → ((c : Call L) → I c → OnStep (pass L o c l))
      → OnStep (elim s [ broken w e ↦ broken w e | going c ↦ pass L o c l ])
  after_visit (going c) l at rest = rest c at
  after_visit (broken w e) l at rest = at

  pub pass-OnStep :
      ((c : Call L) (item : Ident) → I c → OnStep (visit L o c item))
      → (l : List (Ident × Ident)) (c : Call L) → I c
      → OnStep (pass L o c l)
  unfolding pass
  pass-OnStep keeps [] c at = at
  pass-OnStep keeps ((item, request) ∷ l) c at =
      elim (Bool-cases (is_open id_discrete c.manager.responses request)) [
        | inl is_left ↦
            rw (pass, is_left)
              (after_visit (visit L o c item) l (keeps c item at) (pass-OnStep keeps l))
        | inr closed ↦ rw (pass, closed) (pass-OnStep keeps l c at)
      ]

  after_sent :
      (s : Step L) (l : List (Payload L))
      → OnStep s
      → ((c : Call L) → I c → OnStep (send_all L c l))
      → OnStep (elim s [ broken w e ↦ broken w e | going c' ↦ send_all L c' l ])
  after_sent (broken w e) l at rest = at
  after_sent (going c) l at rest = rest c at

  pub send_all-OnStep :
      (l : List (Payload L)) (c : Call L)
      → ((c : Call L) (p : Payload L)
          → Memᴰ p l
          → I c
          → OnStep (add_sent L c p.id (L.send c.link p.payload)))
      → I c
      → OnStep (send_all L c l)
  unfolding send_all
  send_all-OnStep [] c keeps at = at
  send_all-OnStep (p ∷ l) c keeps at =
      after_sent (add_sent L c p.id (L.send c.link p.payload)) l (keeps c p (head refl) at)
        (λ c' at'. send_all-OnStep l c' (λ c q m. keeps c q (tail m)) at')

  -- `R` holds of what is returned, and `F` of the link after an exception.
  module _ (R : State → List (Ident × List (Decoded Value)) → Type 0) (F : State → Type 0) where
    abbrev pub OnOutcome : Outcome L → Type 0
    OnOutcome (returned w results) = R w results
    OnOutcome (failed w e) = F w
    OnOutcome unfinished = Unit

    after_pass :
        (n : ℕ) (s : Step L)
        → OnStep s
        → ((c : Call L) → I c → I (record c { link = L.pass_time c.link }))
        → ((c : Call L)
            → I c
            → is_complete c.manager ≡ true
            → R (L.leave (L.mark_response_received c.link)) (get_results c.manager))
        → ((w : State) → E w → F (L.leave w))
        → ((c : Call L) → I c → OnOutcome (poll L n o c))
        → OnOutcome (elim s [
          | broken w e ↦ failed (L.leave w) e
          | going c' ↦ elim (is_complete c'.manager) [
            | true ↦ returned (L.leave (L.mark_response_received c'.link)) (get_results c'.manager)
            | false ↦ poll L n o (record c' { link = L.pass_time c'.link })
          ]
        ])
    after_pass n (broken w e) at sleeps ends fails rest = fails w at
    after_pass n (going c) at sleeps ends fails rest = elim (Bool-cases (is_complete c.manager)) [
      | inl done ↦ rw done (ends c at done)
      | inr more ↦ rw more (rest (record c { link = L.pass_time c.link }) (sleeps c at))
    ]

    pub poll-OnOutcome :
        (n : ℕ) (c : Call L)
        → ((c : Call L) (item : Ident) → I c → OnStep (visit L o c item))
        → ((c : Call L) → I c → I (record c { link = L.pass_time c.link }))
        → ((c : Call L)
            → I c
            → is_complete c.manager ≡ true
            → R (L.leave (L.mark_response_received c.link)) (get_results c.manager))
        → ((w : State) → E w → F (L.leave w))
        → I c
        → OnOutcome (poll L n o c)
    unfolding poll
    poll-OnOutcome zero c keeps sleeps ends fails at = tt
    poll-OnOutcome (suc n) c keeps sleeps ends fails at =
        after_pass n (pass L o c c.manager.response_map)
          (pass-OnStep keeps c.manager.response_map c at) sleeps ends fails
          (λ c' at'. poll-OnOutcome n c' keeps sleeps ends fails at')

    after_all :
        (n : ℕ) (s : Step L)
        → OnStep s
        → ((c : Call L) → I c → OnOutcome (poll L n o c))
        → ((w : State) → E w → F (L.leave w))
        → OnOutcome (elim s [ broken w e ↦ failed (L.leave w) e | going c ↦ poll L n o c ])
    after_all n (broken w e) at polls fails = fails w at
    after_all n (going c) at polls fails = polls c at

    -- A call with unique ids over a connection that is there.
    pub make_rpc_request-OnOutcome :
        (n : ℕ) (w : State) (payloads : List (Payload L))
        → unique L (map (λ (p : Payload L). p.id) payloads) ≡ true
        → (L.enter w).1 ≡ none
        → I (started L (L.enter w).0 (length payloads))
        → ((c : Call L) (p : Payload L)
            → Memᴰ p payloads
            → I c
            → OnStep (add_sent L c p.id (L.send c.link p.payload)))
        → ((c : Call L) (item : Ident) → I c → OnStep (visit L o c item))
        → ((c : Call L) → I c → I (record c { link = L.pass_time c.link }))
        → ((c : Call L)
            → I c
            → is_complete c.manager ≡ true
            → R (L.leave (L.mark_response_received c.link)) (get_results c.manager))
        → ((w : State) → E w → F (L.leave w))
        → OnOutcome (make_rpc_request L n o w payloads)
    unfolding make_rpc_request request_all
    make_rpc_request-OnOutcome n w payloads distinct fine start sends keeps sleeps ends fails =
        rw (make_rpc_request, distinct, request_all, fine)
          (after_all n (send_all L (started L (L.enter w).0 (length payloads)) payloads)
            (send_all-OnStep payloads (started L (L.enter w).0 (length payloads)) sends start)
            (λ c at. poll-OnOutcome n c keeps sleeps ends fails at) fails)
