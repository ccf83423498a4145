-- ===== src/Websocket/Delivery/Reconnect.antt =====
-- What a reconnection keeps: what was in flight is queued again (class Websocket of
-- async_substrate_interface/async_substrate.py).
use async_substrate_interfac.Prelude.{
  ◌≡◌, refl, true, ◌||◌, none, some, List, [], ◌∷◌, ◌++◌, arith, is_some,
}
use async_substrate_interfac.Prelude.Dict.{lookup, put, lookup-put}
use async_substrate_interfac.Websocket.Ids.{RequestId}
use async_substrate_interfac.Websocket.State.{
  id_discrete, Net, pending, Socket, resubmit, reconnect,
}
use async_substrate_interfac.Websocket.Delivery.{queued, queued-append, IsSound, HasTexts}

module _ (N : Net) where
  open N use {Text, loads}

  resubmit_one :
      (w : Socket N) (id : RequestId) (text : Text) (rest : List (RequestId × Text))
      → (loads text).id ≡ id
      → ((q : RequestId)
          → lookup id_discrete q w.received ≡ some pending
          → (queued q w.sending || is_some (lookup id_discrete q ((id, text) ∷ rest))) ≡ true)
      → (q : RequestId)
      → lookup id_discrete q (put id_discrete id pending w.received) ≡ some pending
      → (queued q (w.sending ++ loads text ∷ []) || is_some (lookup id_discrete q rest)) ≡ true
  unfolding queued lookup
  resubmit_one w id text rest e h q k = ground (
    arith,
    h q,
    lookup-put id_discrete id pending w.received q,
    queued-append q w.sending (loads text ∷ []),
  )

  -- After `resubmit`, a future that is pending is that of a message in the queue.
  resubmit-queued :
      (w : Socket N) (l : List (RequestId × Text))
      → HasTexts N l
      → ((q : RequestId)
          → lookup id_discrete q w.received ≡ some pending
          → (queued q w.sending || is_some (lookup id_discrete q l)) ≡ true)
      → (q : RequestId) → lookup id_discrete q (resubmit N w l).received ≡ some pending
      → queued q (resubmit N w l).sending ≡ true
  unfolding resubmit lookup
  resubmit-queued w [] t h q k = ground (arith, h q)
  resubmit-queued w ((id, text) ∷ rest) t h q k =
      resubmit-queued
        (record w {
          received = put id_discrete id pending w.received;
          sending = w.sending ++ loads text ∷ [];
        })
        rest t.1 (resubmit_one w id text rest t.0 h) q k

  pub resubmit-inflight :
      (l : List (RequestId × Text)) (w : Socket N) → (resubmit N w l).inflight ≡ []
  unfolding resubmit
  resubmit-inflight [] w = refl
  resubmit-inflight ((id, text) ∷ rest) w = resubmit-inflight rest (record w {
    received = put id_discrete id pending w.received;
    sending = w.sending ++ loads text ∷ [];
  })

  pub reconnect-IsSound :
      (w : Socket N) → w.in_hand ≡ none → IsSound N w → IsSound N (reconnect N w)
  unfolding reconnect
  reconnect-IsSound w n s = record {
    on_its_way = λ q h.
        let w' = record w { in_hand = none } in
        ground (
          arith,
          resubmit-queued w' w.inflight s.texts (λ q' k. ground (arith, s.on_its_way q')) q h,
        );
    texts = rw (resubmit-inflight w.inflight (record w { in_hand = none })) tt;
  }
