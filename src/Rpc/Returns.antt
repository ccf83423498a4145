-- ===== src/Rpc/Returns.antt =====
-- The loop of `_make_rpc_request` over a link that answers in time returns.
use async_substrate_interfac.Prelude.{
  ℕ, zero, suc, ◌+◌, ◌≤◌, ◌≡◌, refl, inl, inr, true, none, List, [], ◌∷◌, arith, Bool-cases, All,
}
use async_substrate_interfac.Prelude.Dict.{keys, values}
use async_substrate_interfac.Prelude.Distinct.{has, Distinct, has_in_tail, length-le_of_subset}
use async_substrate_interfac.Prelude.Entries.{length-map, keys-Distinct}
use async_substrate_interfac.Requests.{Info, is_complete, get_results}
use async_substrate_interfac.Requests.Complete.{eq→==}
use async_substrate_interfac.Link.{Link, Decoded, Options}
use async_substrate_interfac.Rpc.{Call, returned, poll}
use async_substrate_interfac.Rpc.Ends.{Prompt, Underway, Answered, Among, pass-Later}

module _ (L : Link) (o : Options L) (P : Prompt L o) (no_handler : o.result_handler ≡ none) where
  open L use {State, Ident, Value, id_discrete}
  open P use {clock}

  -- The items that are sent, with the requests that they carry, and the time by which all are
  -- answered.
  module _ (last : ℕ) (items : List (Ident × Ident)) where
    in_values :
        (c : Call L) (l : List (Ident × Ident)) (q : Ident)
        → All (λ e. Answered L o P no_handler last items c e.1) l
        → has id_discrete q (values l) ≡ true
        → Answered L o P no_handler last items c q
    unfolding has
    in_values c [] q h there = absurd (cc there)
    in_values c (e ∷ l) q h there = elim (id_discrete q e.1) [
      | yes p ↦ rw p h.0
      | no n ↦ in_values c l q h.1 (has_in_tail id_discrete q e.1 (values l) n there)
    ]

    round_complete :
        (c : Call L)
        → Underway L o P no_handler last items c
        → Distinct id_discrete (values items)
        → All (λ e. Answered L o P no_handler last items c e.1) items
        → is_complete c.manager ≡ true
    unfolding is_complete
    round_complete c u distinct done =
        let less =
          length-le_of_subset id_discrete (values items) (keys c.manager.responses) distinct
            (λ q h. in_values c items q done h) in
        let more =
          length-le_of_subset id_discrete (keys c.manager.responses) (values items)
            (keys-Distinct id_discrete c.manager.responses u.2) u.4 in
        let first = length-map (λ (e : Ident × Ident). e.1) items in
        let second = length-map (λ (e : Ident × Info (Decoded Value)). e.0) c.manager.responses in
        rw u.3 (eq→== _ _ (omega (arith, u.1)))

    -- A loop with rounds enough for all to be answered returns.
    pub poll-returns :
        (n : ℕ) (c : Call L)
        → Underway L o P no_handler last items c
        → Among L o P no_handler last items items
        → Distinct id_discrete (values items)
        → last ≤ clock c.link + n
        → (w : State) × (results : List (Ident × List (Decoded Value))) × (poll L (suc n) o c
            ≡ returned w results)
    unfolding poll
    poll-returns zero c u among distinct enough =
        let (c', ran, (u', same, kept), done) =
          pass-Later L o P no_handler last items c.manager.response_map c u (rw u.0 among) in
        let answered : All (λ e. Answered L o P no_handler last items c' e.1) items =
          rw u.0 at (done (omega arith)) in
        (
          L.leave (L.mark_response_received c'.link),
          get_results c'.manager,
          rw (poll, ran, round_complete c' u' distinct answered) refl,
        )
    poll-returns (suc n) c u among distinct enough =
        let (c', ran, (u', same, kept), done) =
          pass-Later L o P no_handler last items c.manager.response_map c u (rw u.0 among) in
        elim (Bool-cases (is_complete c'.manager)) [
          | inl complete ↦ (
            L.leave (L.mark_response_received c'.link),
            get_results c'.manager,
            rw (poll, ran, complete) refl,
          )
          | inr more ↦
              let (w, results, ended) =
                poll-returns n (record c' { link = L.pass_time c'.link })
                  (
                    u'.0,
                    u'.1,
                    u'.2,
                    u'.3,
                    u'.4,
                    λ i r there h. P.still_due c'.link i last (u'.5 i r there h),
                  )
                  among distinct (omega (arith, P.paused c'.link, same)) in
              (w, results, rw (poll, ran, more) ended)
        ]
