-- ===== src/Websocket/Delivery/Kept.antt =====
-- What the operations between two reconnections keep (class Websocket of
-- async_substrate_interface/async_substrate.py).
use async_substrate_interfac.Prelude.{
  ℕ, ◌≡◌, refl, ap, Option, none, some, List, [], ◌∷◌, ◌++◌, arith, if_pos, if_neg,
}
use async_substrate_interfac.Prelude.Dict.{lookup, put, remove, lookup-put, lookup-remove}
use async_substrate_interfac.Websocket.Ids.{RequestId}
use async_substrate_interfac.Websocket.State.{
  id_discrete, Packet, Net, Future, pending, result, failed, Message, reply, notify, unknown,
  Retrieved, Socket, enqueue, take_from, settle, recv, retrieve, retrieve_future, retrieve_message,
  task_error, queue_of, got,
}
use async_substrate_interfac.Websocket.Delivery.{queued, queued-append, IsSound, HasTexts}

module _ (N : Net) where
  open N use {Body, Sub, Response, Error, Text, sub_discrete, dumps, loads, loads-dumps}

  All-put :
      (id : RequestId) (text : Text) (l : List (RequestId × Text))
      → (loads text).id ≡ id
      → HasTexts N l
      → HasTexts N (put id_discrete id text l)
  unfolding put
  All-put id text [] e h = (e, tt)
  All-put id text (x ∷ l) e h = elim (id_discrete id x.0) [
    | yes p ↦ rw (if_pos (id_discrete id x.0) p) (e, h.1)
    | no n ↦ rw (if_neg (id_discrete id x.0) n) (h.0, All-put id text l e h.1)
  ]

  All-remove :
      (id : RequestId) (l : List (RequestId × Text))
      → HasTexts N l
      → HasTexts N (remove id_discrete id l)
  unfolding remove
  All-remove id [] h = tt
  All-remove id (x ∷ l) h = elim (id_discrete id x.0) [
    | yes p ↦ rw (if_pos (id_discrete id x.0) p) (All-remove id l h.1)
    | no n ↦ rw (if_neg (id_discrete id x.0) n) (h.0, All-remove id l h.1)
  ]

  pub enqueue-IsSound :
      (w : Socket N) (body : Body) (id : RequestId) (draw : ℕ)
      → IsSound N w
      → IsSound N (enqueue N w body id draw)
  unfolding enqueue queued
  enqueue-IsSound w body id draw s = record {
    on_its_way = λ q h. ground (
      arith,
      s.on_its_way q,
      lookup-put id_discrete id pending w.received q,
      queued-append q w.sending (record { id = id; body = body } ∷ []),
    );
    texts = s.texts;
  }

  pub transmit-IsSound :
      (w : Socket N) (p : Packet Body)
      → w.in_hand ≡ some p
      → IsSound N w
      → IsSound N
          (record w { in_hand = none; inflight = put id_discrete p.id (dumps p) w.inflight })
  unfolding queued
  transmit-IsSound w p e s = record {
    on_its_way =
        λ q h. ground (arith, s.on_its_way q, lookup-put id_discrete p.id (dumps p) w.inflight q);
    texts =
        All-put p.id (dumps p) w.inflight (ap (λ (x : Packet Body). x.id) (loads-dumps p)) s.texts;
  }

  pub unsubscribed-IsSound :
      (w : Socket N) (sub : Sub) (p : Packet Body) (draw : ℕ)
      → IsSound N w
      → IsSound N (record w {
        next_draw = draw;
        subscriptions = remove sub_discrete sub w.subscriptions;
        sending = w.sending ++ p ∷ [];
      })
  unsubscribed-IsSound w sub p draw s = record {
    on_its_way = λ q h. ground (arith, s.on_its_way q, queued-append q w.sending (p ∷ []));
    texts = s.texts;
  }

  pub take_from-IsSound :
      (w w' : Socket N) (l : List (Packet Body))
      → w.sending ≡ l
      → w.in_hand ≡ none
      → take_from N w l ≡ some w'
      → IsSound N w
      → IsSound N w'
  unfolding take_from
  take_from-IsSound w w' [] e n h s = absurd (cc h)
  take_from-IsSound w w' (p ∷ rest) e n h s =
      let taken : w' ≡ record w { sending = rest; in_hand = some p } = ground arith in
      rw taken (record {
        on_its_way = λ q k. unfold queued in ground (arith, s.on_its_way q);
        texts = s.texts;
      })

  settle-IsSound :
      (w : Socket N) (id : RequestId) (response : Response) (fut : Option (Future Response Error))
      → lookup id_discrete id w.received ≡ fut
      → IsSound N w
      → IsSound N
          (settle N (record w { inflight = remove id_discrete id w.inflight }) id response fut).0
  unfolding settle
  settle-IsSound w id response none e s = record {
    on_its_way = λ q h. ground (arith, s.on_its_way q, lookup-remove id_discrete id w.inflight q);
    texts = All-remove id w.inflight s.texts;
  }
  settle-IsSound w id response (some pending) e s = record {
    on_its_way = λ q h. ground (
      arith,
      s.on_its_way q,
      lookup-remove id_discrete id w.inflight q,
      lookup-put id_discrete id (result response) w.received q,
    );
    texts = All-remove id w.inflight s.texts;
  }
  settle-IsSound w id response (some (result _)) e s = record {
    on_its_way = λ q h. ground (arith, s.on_its_way q, lookup-remove id_discrete id w.inflight q);
    texts = All-remove id w.inflight s.texts;
  }
  settle-IsSound w id response (some (failed _)) e s = record {
    on_its_way = λ q h. ground (arith, s.on_its_way q, lookup-remove id_discrete id w.inflight q);
    texts = All-remove id w.inflight s.texts;
  }

  pub recv-IsSound :
      (w : Socket N) (m : Message Sub Response) → IsSound N w → IsSound N (recv N w m).0
  unfolding recv
  recv-IsSound w (reply id response) s =
      settle-IsSound w id response (lookup id_discrete id w.received) refl s
  recv-IsSound w (notify sub response) s = record { on_its_way = s.on_its_way; texts = s.texts }
  recv-IsSound w unknown s = s

  retrieve_future-IsSound :
      (w : Socket N) (task : Option Error) (id : RequestId) (fut : Option (Future Response Error))
      → IsSound N w
      → IsSound N (retrieve_future N w task id fut).0
  unfolding retrieve_future
  retrieve_future-IsSound w task id none s = s
  retrieve_future-IsSound w task id (some pending) s = s
  retrieve_future-IsSound w task id (some (failed e)) s = record {
    on_its_way = s.on_its_way;
    texts = s.texts;
  }
  retrieve_future-IsSound w task id (some (result r)) s = record {
    on_its_way = λ q h. ground (arith, s.on_its_way q, lookup-remove id_discrete id w.received q);
    texts = s.texts;
  }

  pub retrieve-IsSound :
      (w : Socket N) (task : Option Error) (id : RequestId)
      → IsSound N w
      → IsSound N (retrieve N w task id).0
  unfolding retrieve
  retrieve-IsSound w task id s = retrieve_future-IsSound w task id _ s

  pub retrieve_message-IsSound :
      (w : Socket N) (task : Option Error) (sub : Sub)
      → IsSound N w
      → IsSound N (retrieve_message N w task sub).0
  unfolding retrieve_message
  retrieve_message-IsSound w task sub s = go (queue_of N w sub)
    where
      go :
          (l : List Response)
          → IsSound N
              (elim l as (λ _. Socket N × Retrieved Response Error) [
                | [] ↦ (w, task_error N task)
                | response ∷ rest ↦ (
                  record w { subscriptions = put sub_discrete sub rest w.subscriptions },
                  got response,
                )
              ]).0
      go [] = s
      go (response ∷ rest) = record { on_its_way = s.on_its_way; texts = s.texts }
