-- ===== src/Websocket/Calls.antt =====
-- What the calls on a websocket do: `send`, a response with the `retrieve` that reads it, and a
-- reconnection while a message is in hand.
use async_substrate_interfac.Prelude.{
  suc, ◌+◌, ◌-◌, ◌<◌, ◌≡◌, ◌≢◌, refl, ap, ◌∙◌, true, false, Option, none, some, List, [], ◌∷◌, ◌++◌,
  arith, ite, if_pos, length,
}
use async_substrate_interfac.Prelude.Dict.{lookup, put, remove, lookup-put, lookup-remove}
use async_substrate_interfac.Prelude.Distinct.{has, without, has-without, head_has}
use async_substrate_interfac.Websocket.Ids.{RequestId, unused_id, drawn_unused, unused_id-total}
use async_substrate_interfac.Websocket.State.{
  id_discrete, Packet, Net, Future, pending, result, reply, got, Socket, add_in_use, enqueue, send,
  send_with, settle, recv, retrieve, retrieve_future, resubmit, reconnect, fail_pending, failed,
}
use async_substrate_interfac.Websocket.Delivery.{queued, queued-append, carried, IsSound, HasTexts}
use async_substrate_interfac.Websocket.Delivery.Reconnect.{resubmit-inflight}
use async_substrate_interfac.Websocket.Delivery.Carried.{send_cases}

not_queued :
    {Body : Type 0} (l : List (Packet Body)) (p : Packet Body) (q : RequestId)
    → queued q l ≡ false
    → q ≢ p.id
    → queued q (l ++ p ∷ []) ≡ false
unfolding queued
not_queued l p q h ne = ground (arith, queued-append q l (p ∷ []))

absent_tail :
    {V : Type 0} (q k : RequestId) (v : V) (l : List (RequestId × V))
    → lookup id_discrete q ((k, v) ∷ l) ≡ none
    → (q ≢ k) × (lookup id_discrete q l ≡ none)
unfolding lookup
absent_tail q k v l h = elim (id_discrete q k) [
  | yes p ↦ absurd (ground arith)
  | no n ↦ (n, ground arith)
]

still_pending :
    {Response Error : Type 0} (id : RequestId) (l : List (RequestId × Future Response Error))
    (q : RequestId)
    → lookup id_discrete q l ≡ some pending
    → lookup id_discrete q (put id_discrete id pending l) ≡ some pending
still_pending id l q h = ground (arith, lookup-put id_discrete id pending l q)

module _ (N : Net) where
  open N use {Body, Sub, Response, Error, Text, dumps, loads, letters}

  added_in_use :
      (id : RequestId) (ids : List RequestId) → has id_discrete id (add_in_use N id ids) ≡ true
  unfolding add_in_use
  added_in_use id ids = ground (arith, head_has id_discrete id ids)

  -- With a permit left and fewer than 998 ids in use, `send` does not wait.
  pub send-total :
      (w : Socket N) (body : Body)
      → 0 < w.permits
      → length w.in_use_ids < 998
      → (id : RequestId) × (w' : Socket N) × (send N w body ≡ some (id, w'))
  unfolding send
  send-total w body permit room =
      let (id, draw, found, _) =
        unused_id-total letters id_discrete w.in_use_ids w.next_draw room in
      let e : w.permits ≡ suc (w.permits - 1) = omega arith in
      (
        id,
        enqueue N w body id draw,
        ap (λ n. send_with N w body n (unused_id letters id_discrete 998 w.in_use_ids w.next_draw))
              e
            ∙ unfold send_with in ap (send_with N w body (suc (w.permits - 1))) found,
      )

  -- A `send` takes a permit and an id that was not in use, which it reserves; its request is the
  -- last in the queue, its future is pending, and every other future is as it was.
  pub send_lem :
      (w w' : Socket N) (body : Body) (id q : RequestId)
      → send N w body ≡ some (id, w')
      → (has id_discrete id w.in_use_ids ≡ false)
        × (has id_discrete id w'.in_use_ids ≡ true)
        × (w'.sending ≡ w.sending ++ record { id = id; body = body } ∷ [])
        × (w'.permits ≡ w.permits - 1)
        × (lookup id_discrete q w'.received
            ≡ ite (id_discrete q id) (some pending) (lookup id_discrete q w.received))
  send_lem w w' body id q e =
      let (draw, found, sent) = send_cases N w w' body id e in
      rw sent (
        drawn_unused letters id_discrete 998 w.next_draw draw w.in_use_ids id found,
        unfold enqueue in added_in_use id w.in_use_ids,
        unfold enqueue in refl,
        unfold enqueue in refl,
        unfold enqueue in lookup-put id_discrete id pending w.received q,
      )

  -- The response to a pending request, and the `retrieve` that follows: the response comes back
  -- once, the future is gone, the id is free again, nothing of the request is in flight, and a
  -- permit is back. A second `retrieve` finds nothing.
  pub retrieve-recv :
      (w : Socket N) (task : Option Error) (id : RequestId) (response : Response)
      → lookup id_discrete id w.received ≡ some pending
      → let w1 = (recv N w (reply id response)).0 in
        let w2 = (retrieve N w1 task id).0 in
        ((retrieve N w1 task id).1 ≡ got response)
        × (lookup id_discrete id w2.received ≡ none)
        × (has id_discrete id w2.in_use_ids ≡ false)
        × (lookup id_discrete id w2.inflight ≡ none)
        × (w2.permits ≡ w.permits + 1)
  retrieve-recv w task id response e =
      let w0 = record w { inflight = remove id_discrete id w.inflight } in
      let w1 = record w0 {
        received = put id_discrete id (result response) w.received;
        in_use_ids = without id_discrete id w.in_use_ids;
      } in
      let ready : lookup id_discrete id w1.received ≡ some (result response) =
        lookup-put id_discrete id (result response) w.received id
        ∙ if_pos (id_discrete id id) refl (some (result response))
            (lookup id_discrete id w.received) in
      let w2 = record w1 {
        permits = w.permits + 1;
        received = remove id_discrete id w1.received;
      } in
      let settled : (recv N w (reply id response)).0 ≡ w1 =
        unfold recv settle in ap (λ f. (settle N w0 id response f).0) e in
      let read : retrieve N w1 task id ≡ (w2, got response) =
        unfold retrieve retrieve_future in ap (retrieve_future N w1 task id) ready in
      rw (settled, read)
        (
          refl,
          lookup-remove id_discrete id w1.received id ∙ if_pos (id_discrete id id) refl none _,
          has-without id_discrete id w.in_use_ids id ∙ if_pos (id_discrete id id) refl false _,
          lookup-remove id_discrete id w.inflight id ∙ if_pos (id_discrete id id) refl none _,
          refl,
        )

  resubmit-in_hand :
      (l : List (RequestId × Text)) (w : Socket N) → (resubmit N w l).in_hand ≡ w.in_hand
  unfolding resubmit
  resubmit-in_hand [] w = refl
  resubmit-in_hand ((id, text) ∷ rest) w = resubmit-in_hand rest (record w {
    received = put id_discrete id pending w.received;
    sending = w.sending ++ loads text ∷ [];
  })

  resubmit-pending :
      (l : List (RequestId × Text)) (w : Socket N) (q : RequestId)
      → lookup id_discrete q w.received ≡ some pending
      → lookup id_discrete q (resubmit N w l).received ≡ some pending
  unfolding resubmit
  resubmit-pending [] w q h = h
  resubmit-pending ((id, text) ∷ rest) w q h =
      resubmit-pending rest
        (record w {
          received = put id_discrete id pending w.received;
          sending = w.sending ++ loads text ∷ [];
        })
        q (still_pending id w.received q h)

  resubmit-unqueued :
      (l : List (RequestId × Text)) (w : Socket N) (q : RequestId)
      → HasTexts N l
      → lookup id_discrete q l ≡ none
      → queued q w.sending ≡ false
      → queued q (resubmit N w l).sending ≡ false
  unfolding resubmit
  resubmit-unqueued [] w q t f h = h
  resubmit-unqueued ((id, text) ∷ rest) w q t f h =
      let (ne, f') = absent_tail q id text rest f in
      resubmit-unqueued rest
        (record w {
          received = put id_discrete id pending w.received;
          sending = w.sending ++ loads text ∷ [];
        })
        q t.1 f' (not_queued w.sending (loads text) q h (λ p. ne (p ∙ t.0)))

  -- A reconnection while the sending task has a message in hand loses the message: the future
  -- stays pending, and its request is neither queued nor in hand nor in flight.
  pub reconnect_in_hand :
      (w : Socket N) (p : Packet Body)
      → IsSound N w
      → w.in_hand ≡ some p
      → lookup id_discrete p.id w.received ≡ some pending
      → queued p.id w.sending ≡ false
      → lookup id_discrete p.id w.inflight ≡ none
      → (lookup id_discrete p.id (reconnect N w).received ≡ some pending)
        × (carried N (reconnect N w) p.id ≡ false)
  reconnect_in_hand w p s hand wait q f =
      let w0 = record w { in_hand = none } in
      let lost : queued p.id (resubmit N w0 w.inflight).sending ≡ false =
        resubmit-unqueued w.inflight w0 p.id s.texts f q in
      unfold reconnect in
      (
        resubmit-pending w.inflight w0 p.id wait,
        rw (lost, resubmit-in_hand w.inflight w0, resubmit-inflight N w.inflight w0)
            (unfold lookup in refl),
      )

  pub fail_one : Error → Option (Future Response Error) → Option (Future Response Error)
  fail_one e (some pending) = some (failed e)
  fail_one e o = o

  -- When the receiving task fails, a future that was pending fails with its exception, and every
  -- other is as it was.
  pub lookup-fail_pending :
      (e : Error) (q : RequestId) (l : List (RequestId × Future Response Error))
      → lookup id_discrete q (fail_pending N e l) ≡ fail_one e (lookup id_discrete q l)
  unfolding fail_pending fail_one lookup
  lookup-fail_pending e q [] = refl
  lookup-fail_pending e q ((id, pending) ∷ l) = ground (arith, lookup-fail_pending e q l)
  lookup-fail_pending e q ((id, result r) ∷ l) = ground (arith, lookup-fail_pending e q l)
  lookup-fail_pending e q ((id, failed x) ∷ l) = ground (arith, lookup-fail_pending e q l)
