-- ===== src/Rpc/Sends.antt =====
-- What is in the request manager when all payloads are sent, and the end of the whole call.
use mathlib.Core.List.{append-nil, append_assoc}
use async_substrate_interfac.Prelude.{
  ℕ, suc, ◌+◌, ◌≤◌, ◌≡◌, refl, sym, ap, ◌∙◌, ◌⊎◌, inl, inr, Bool, true, false, not, ◌&&◌, none,
  some, List, [], ◌∷◌, ◌++◌, arith, inr_inj, if_pos, if_neg, Option-cases, ◌≢◌, map, length, All,
}
use async_substrate_interfac.Prelude.Dict.{
  values, lookup, IsDict, IsDict-put, put_absent, put, lookup-put,
}
use async_substrate_interfac.Prelude.Every.{All-append}
use async_substrate_interfac.Prelude.Distinct.{has, Distinct}
use async_substrate_interfac.Prelude.Entries.{length-map, values-append_one}
use async_substrate_interfac.Requests.{init, add_request, all_complete}
use async_substrate_interfac.Link.{Link, Decoded, Payload, Options}
use async_substrate_interfac.Rpc.{
  Call, going, returned, poll, add_sent, send_all, unique, started, request_all, make_rpc_request,
}
use async_substrate_interfac.Rpc.Ends.{Prompt}
use async_substrate_interfac.Rpc.Returns.{poll-returns}

both : (a b : Bool) → (a && b) ≡ true → (a ≡ true) × (b ≡ true)
both a b h = ground arith

not-not : (a : Bool) → not a ≡ true → a ≡ false
not-not a h = ground arith

module _ (L : Link) (o : Options L) (P : Prompt L o) where
  open L use {State, Ident, id_discrete}
  open P use {clock, Due, room}

  -- An item that some send gives.
  abbrev Given : Ident → Type 0
  Given item = (w : State) × (b : L.Body) × ((L.send w b).1 ≡ inr item)

  -- The items that are sent are there once, and all are due by the time `d`.
  abbrev Listed : ℕ → State → List (Ident × Ident) → Type 0
  Listed d w l =
      IsDict id_discrete l
      × ((i q : Ident) → lookup id_discrete i l ≡ some q → Due w i d)
      × All (λ e. Given e.0) l

  -- An item that is not due is not among them.
  absent :
      (d : ℕ) (w : State) (item : Ident) (l : List (Ident × Ident))
      → ((i q : Ident) → lookup id_discrete i l ≡ some q → Due w i d)
      → ((d : ℕ) → Due w item d → ⊥)
      → lookup id_discrete item l ≡ none
  absent d w item l due new = elim (Option-cases (lookup id_discrete item l)) [
    | inl missing ↦ missing
    | inr (q, there) ↦ absurd (new d (due item q there))
  ]

  -- With one more item, all are due after the send.
  Due-put :
      (d : ℕ) (w w' : State) (item request : Ident) (l : List (Ident × Ident))
      → ((i q : Ident) → lookup id_discrete i l ≡ some q → Due w i d)
      → ((i : Ident) (d : ℕ) → Due w i d → Due w' i d)
      → Due w' item d
      → (i q : Ident) → lookup id_discrete i (put id_discrete item request l) ≡ some q
      → Due w' i d
  Due-put d w w' item request l due kept last i q there = elim (id_discrete i item) [
    | yes same ↦ rw same last
    | no other ↦ kept i d (
        due i q (
          sym (if_neg (id_discrete i item) other (some request) (lookup id_discrete i l))
          ∙ sym (lookup-put id_discrete item request l i)
          ∙ there))
  ]

  add_sent-going :
      (c : Call L) (p : Payload L) (reply : State × (L.Error ⊎ Ident)) (item : Ident)
      → reply.1 ≡ inr item
      → add_sent L c p.id reply
        ≡ going (record c { link = reply.0; manager = add_request id_discrete c.manager item p.id })
  unfolding add_sent
  add_sent-going c p (w, inl e) item sent = absurd (cc sent)
  add_sent-going c p (w, inr id) item sent = rw (inr_inj sent) refl

  send_all-Listed :
      (d : ℕ) (l : List (Payload L)) (c : Call L)
      → clock c.link + P.delay ≡ d
      → length l ≤ room c.link
      → Listed d c.link c.manager.response_map
      → (c' : Call L) × (send_all L c l ≡ going c')
        × Listed d c'.link c'.manager.response_map
        × (values c'.manager.response_map
            ≡ values c.manager.response_map ++ map (λ (p : Payload L). p.id) l)
        × (c'.manager.responses ≡ c.manager.responses)
        × (c'.manager.payloads_count ≡ c.manager.payloads_count)
        × (clock c'.link ≡ clock c.link)
  unfolding send_all add_request
  send_all-Listed d [] c now fits listed = (c, refl, listed, sym (append-nil _), refl, refl, refl)
  send_all-Listed d (p ∷ l) c now fits listed =
      let (item, sent, new, due, steady, left, kept) =
        P.sends c.link p.payload (omega (arith, fits)) in
      let map_before = c.manager.response_map in
      let missing = absent d c.link item map_before listed.1 new in
      let c1 : Call L = record c {
        link = (L.send c.link p.payload).0;
        manager = add_request id_discrete c.manager item p.id;
      } in
      let appended : c1.manager.response_map ≡ map_before ++ (item, p.id) ∷ [] =
        put_absent id_discrete item p.id map_before missing in
      let due_then : Due c1.link item d = rw now at due in
      let listed1 : Listed d c1.link c1.manager.response_map = (
        IsDict-put id_discrete item p.id map_before listed.0,
        Due-put d c.link c1.link item p.id map_before listed.1 kept due_then,
        rw appended (
            All-append (λ e. Given e.0) map_before ((item, p.id) ∷ []) listed.2
              ((c.link, p.payload, sent), tt)),
      ) in
      let (c', ran, listed', ids, same, count, clocks) =
        send_all-Listed d l c1 (omega (arith, now, steady)) (omega (arith, fits, left)) listed1 in
      (
        c',
        rw (send_all, add_sent-going c p (L.send c.link p.payload) item sent) ran,
        listed',
        ids
            ∙ ap (λ m. values m ++ map (λ (p : Payload L). p.id) l) appended
            ∙ ap (λ v. v ++ map (λ (p : Payload L). p.id) l)
                (values-append_one map_before item p.id)
            ∙ append_assoc (values map_before) (p.id ∷ []) (map (λ (p : Payload L). p.id) l),
        same,
        count,
        clocks ∙ steady,
      )

  found_there :
      (x : Ident × Ident) (l m : List (Ident × Ident))
      → lookup id_discrete x.0 l ≡ none
      → All (λ e. lookup id_discrete e.0 l ≡ some e.1) m
      → All (λ e. lookup id_discrete e.0 (x ∷ l) ≡ some e.1) m
  unfolding lookup
  found_there x l [] new h = tt
  found_there x l (e ∷ m) new h = elim (id_discrete e.0 x.0) [
    | yes p ↦ absurd (cc (new, h.0, ap (λ k. lookup id_discrete k l) p))
    | no n ↦ (rw (lookup, if_neg (id_discrete e.0 x.0) n) h.0, found_there x l m new h.1)
  ]

  entries :
      (l : List (Ident × Ident))
      → IsDict id_discrete l
      → All (λ e. lookup id_discrete e.0 l ≡ some e.1) l
  unfolding lookup
  entries [] d = tt
  entries (e ∷ l) d =
      (rw (lookup, if_pos (id_discrete e.0 e.0) refl) refl, found_there e l l d.0 (entries l d.1))

  -- No send gives an id that is the id of a payload.
  abbrev pub Apart : List (Payload L) → Type 0
  Apart payloads =
      All (λ (p : Payload L). (w : State) (b : L.Body) → (L.send w b).1 ≢ inr p.id) payloads

  no_payload :
      (payloads : List (Payload L)) (item : Ident)
      → Apart payloads
      → Given item
      → has id_discrete item (map (λ (p : Payload L). p.id) payloads) ≡ false
  unfolding has
  no_payload [] item apart given = refl
  no_payload (p ∷ l) item apart (w, b, sent) = elim (id_discrete item p.id) [
    | yes same ↦ absurd (apart.0 w b (sent ∙ ap inr same))
    | no n ↦ rw (has, if_neg (id_discrete item p.id) n) (no_payload l item apart.1 (w, b, sent))
  ]

  no_payloads :
      (payloads : List (Payload L)) (l : List (Ident × Ident))
      → Apart payloads
      → All (λ e. Given e.0) l
      → All (λ e. has id_discrete e.0 (map (λ (p : Payload L). p.id) payloads) ≡ false) l
  no_payloads payloads [] apart given = tt
  no_payloads payloads (e ∷ l) apart given =
      (no_payload payloads e.0 apart given.0, no_payloads payloads l apart given.1)

  together :
      (P Q : Ident × Ident → Type 0) (l : List (Ident × Ident))
      → All P l
      → All Q l
      → All (λ e. P e × Q e) l
  together P Q [] h k = tt
  together P Q (e ∷ l) h k = ((h.0, k.0), together P Q l h.1 k.1)

  unique-Distinct : (l : List Ident) → unique L l ≡ true → Distinct id_discrete l
  unfolding unique
  unique-Distinct [] h = tt
  unique-Distinct (x ∷ l) h =
      let (first, rest) = both (not (has id_discrete x l)) (unique L l) h in
      (not-not _ first, unique-Distinct l rest)

  sent_all :
      (payloads : List (Payload L)) (c : Call L) (d : ℕ)
      → o.result_handler ≡ none
      → unique L (map (λ (p : Payload L). p.id) payloads) ≡ true
      → Apart payloads
      → Listed d c.link c.manager.response_map
      → values c.manager.response_map ≡ map (λ (p : Payload L). p.id) payloads
      → c.manager.responses ≡ []
      → c.manager.payloads_count ≡ length payloads
      → d ≡ clock c.link + P.delay
      → (w' : State) × (results : List (Ident × List (Decoded L.Value))) × (poll L (suc P.delay) o c
          ≡ returned w' results)
  unfolding all_complete has
  sent_all payloads c d no_handler distinct apart listed ids none_yet count enough =
      let items = c.manager.response_map in
      let fresh : All (λ e. has id_discrete e.0 (values items) ≡ false) items =
        rw ids (no_payloads payloads items apart listed.2) in
      poll-returns L o P no_handler d items P.delay c
        (
          refl,
          count
              ∙ sym (length-map (λ (p : Payload L). p.id) payloads)
              ∙ sym (ap length ids)
              ∙ length-map (λ (e : Ident × Ident). e.1) items,
          rw none_yet tt,
          rw none_yet refl,
          λ q h. absurd (cc (rw none_yet at h)),
          λ i q there h. listed.1 i q there,
        )
        (together _ _ items (entries items listed.0) fresh)
        (rw ids (unique-Distinct (map (λ (p : Payload L). p.id) payloads) distinct))
        (omega (arith, enough))

  -- Over a link that is there, that has room for the payloads, and that answers what is sent within a
  -- delay, in pauses, and gives new items to what is sent, `_make_rpc_request` without a result
  -- handler returns, if the ids of the payloads are unique and no item has one: one round more than
  -- the pauses of the delay is enough.
  pub make_rpc_request-returns :
      (w : State) (payloads : List (Payload L))
      → o.result_handler ≡ none
      → (L.enter w).1 ≡ none
      → unique L (map (λ (p : Payload L). p.id) payloads) ≡ true
      → Apart payloads
      → length payloads ≤ room (L.mark_waiting_for_response (L.enter w).0)
      → (w' : State) × (results : List (Ident × List (Decoded L.Value))) × (make_rpc_request L
            (suc P.delay)
            o
            w
            payloads
          ≡ returned w' results)
  unfolding make_rpc_request request_all started init lookup
  make_rpc_request-returns w payloads no_handler fine distinct apart fits =
      let c0 = started L (L.enter w).0 (length payloads) in
      let d = clock c0.link + P.delay in
      let (c, ran, listed, ids, none_yet, count, steady) =
        send_all-Listed d payloads c0 refl fits (tt, (λ i q there. absurd (cc there)), tt) in
      rw (make_rpc_request, distinct, request_all, fine, ran)
        (sent_all payloads c d no_handler distinct apart listed ids none_yet count
          (omega (arith, steady)))
