-- ===== src/Websocket/Delivery/Carried.antt =====
-- No request is lost while the websocket runs: whoever waits for a response, waits for a request
-- that is queued, in hand or in flight (class Websocket of
-- async_substrate_interface/async_substrate.py).
use async_substrate_interfac.Prelude.{
  ℕ, zero, suc, ◌≡◌, refl, inl, inr, true, Option, none, some, [], ◌∷◌, ◌++◌, arith, Option-cases,
}
use async_substrate_interfac.Prelude.Dict.{lookup, put, remove}
use async_substrate_interfac.Websocket.Ids.{RequestId, unused_id}
use async_substrate_interfac.Websocket.State.{
  id_discrete, Net, pending, Socket, enqueue, send, send_with, unsubscribe, take_next, transmit,
}
use async_substrate_interfac.Websocket.Delivery.{
  carried, IsSound, Step, sends, unsubscribes, takes, transmits, receives, retrieves,
  retrieves_message, reconnects, Reach, here, next, fresh,
}
use async_substrate_interfac.Websocket.Delivery.Kept.{
  enqueue-IsSound, transmit-IsSound, unsubscribed-IsSound, take_from-IsSound, recv-IsSound,
  retrieve-IsSound, retrieve_message-IsSound,
}
use async_substrate_interfac.Websocket.Delivery.Reconnect.{reconnect-IsSound}

module _ (N : Net) where
  open N use {Body, Sub, Text, sub_discrete, dumps, letters}

  send_with_cases :
      (w w' : Socket N) (body : Body) (id : RequestId) (permits : ℕ)
      (found : Option (RequestId × ℕ))
      → send_with N w body permits found ≡ some (id, w')
      → (draw : ℕ) × (found ≡ some (id, draw)) × (w' ≡ enqueue N w body id draw)
  unfolding send_with
  send_with_cases w w' body id zero found h = absurd (cc h)
  send_with_cases w w' body id (suc n) none h = absurd (cc h)
  send_with_cases w w' body id (suc n) (some (i, draw)) h = (draw, ground arith, ground arith)

  -- What a successful `send` did.
  pub send_cases :
      (w w' : Socket N) (body : Body) (id : RequestId)
      → send N w body ≡ some (id, w')
      → (draw : ℕ) × (unused_id letters id_discrete 998 w.in_use_ids w.next_draw ≡ some (id, draw))
        × (w' ≡ enqueue N w body id draw)
  unfolding send
  send_cases w w' body id e =
      send_with_cases w w' body id w.permits
        (unused_id letters id_discrete 998 w.in_use_ids w.next_draw) e

  unsubscribe-IsSound :
      (w w' : Socket N) (sub : Sub) (body : Body)
      → unsubscribe N w sub body ≡ some w'
      → IsSound N w
      → IsSound N w'
  unfolding unsubscribe
  unsubscribe-IsSound w w' sub body e s =
      elim (Option-cases (unused_id letters id_discrete 998 w.in_use_ids w.next_draw)) [
        | inl waits ↦ absurd (cc (rw (waits, unsubscribe) at e))
        | inr ((id, draw), found) ↦
            let changed : w' ≡ record w {
              next_draw = draw;
              subscriptions = remove sub_discrete sub w.subscriptions;
              sending = w.sending ++ record { id = id; body = body } ∷ [];
            } =
              ground arith in
            rw changed (unsubscribed-IsSound N w sub (record { id = id; body = body }) draw s)
      ]

  take_next-IsSound : (w w' : Socket N) → take_next N w ≡ some w' → IsSound N w → IsSound N w'
  unfolding take_next
  take_next-IsSound w w' e s = elim (Option-cases w.in_hand) [
    | inl free ↦ take_from-IsSound N w w' w.sending refl free (ground arith) s
    | inr (p, busy) ↦ absurd (ground arith)
  ]

  transmitted-IsSound :
      (w w' : Socket N) (text : Text) → transmit N w ≡ some (text, w') → IsSound N w → IsSound N w'
  unfolding transmit
  transmitted-IsSound w w' text e s = elim (Option-cases w.in_hand) [
    | inl free ↦ absurd (ground arith)
    | inr (p, busy) ↦
        let sent : w'
            ≡ record w { in_hand = none; inflight = put id_discrete p.id (dumps p) w.inflight } =
          ground arith in
        rw sent (transmit-IsSound N w p busy s)
  ]

  Step-IsSound : (w w' : Socket N) → Step N w w' → IsSound N w → IsSound N w'
  Step-IsSound w w' (sends body id e) s =
      let (draw, _, sent) = send_cases w w' body id e in
      rw sent (enqueue-IsSound N w body id draw s)
  Step-IsSound w w' (unsubscribes sub body e) s = unsubscribe-IsSound w w' sub body e s
  Step-IsSound w w' (takes e) s = take_next-IsSound w w' e s
  Step-IsSound w w' (transmits text e) s = transmitted-IsSound w w' text e s
  Step-IsSound w w' (receives m e) s = rw e (recv-IsSound N w m s)
  Step-IsSound w w' (retrieves task id e) s = rw e (retrieve-IsSound N w task id s)
  Step-IsSound w w' (retrieves_message task sub e) s =
      rw e (retrieve_message-IsSound N w task sub s)
  Step-IsSound w w' (reconnects n e) s = rw e (reconnect-IsSound N w n s)

  Reach-IsSound : {w w' : Socket N} → Reach N w w' → IsSound N w → IsSound N w'
  Reach-IsSound here s = s
  Reach-IsSound (next {u} {v} r st) s = Step-IsSound u v st (Reach-IsSound r s)

  fresh-IsSound : (n : ℕ) → IsSound N (fresh N n)
  unfolding lookup
  fresh-IsSound n = record { on_its_way = λ q h. cc; texts = tt }

  -- From a new websocket, whatever is sent, received, retrieved and unsubscribed in whatever order,
  -- and however often the connection is made anew while the sending task has nothing in hand: a
  -- future that is still pending is that of a request in the queue, in hand or in flight.
  pub Reach-carried :
      (max_subscriptions : ℕ) (w : Socket N) (q : RequestId)
      → Reach N (fresh N max_subscriptions) w
      → lookup id_discrete q w.received ≡ some pending
      → carried N w q ≡ true
  Reach-carried n w q r = (Reach-IsSound r (fresh-IsSound n)).on_its_way q
