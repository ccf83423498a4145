-- ===== src/Websocket/State.antt =====
-- The state of class Websocket and the operations on it. What runs between two awaits is one
-- operation. Request bodies, subscription ids, responses, exceptions and the JSON library are
-- parameters, fields of a `Net`.
use async_substrate_interfac.Prelude.Strings.{String-discrete}
use async_substrate_interfac.Prelude.{
  ℕ, zero, suc, ◌+◌, ◌-◌, ◌≡◌, ap, Option, none, some, List, [], ◌∷◌, ◌++◌, String, if◌then◌else◌,
  ℕ_discrete,
}
use async_substrate_interfac.Prelude.Dict.{lookup, put, remove}
use async_substrate_interfac.Prelude.Distinct.{has, without}
use async_substrate_interfac.Websocket.Ids.{RequestId, unused_id}

unfoldable pub id_discrete : Discrete RequestId
unfolding String-discrete ℕ_discrete
id_discrete a b = elim (String-discrete a.letters b.letters) [
  | no n ↦ no (λ p. n (ap (λ (x : RequestId). x.letters) p))
  | yes p ↦ elim (ℕ_discrete a.number b.number) [
    | no n ↦ no (λ q. n (ap (λ (x : RequestId). x.number) q))
    | yes q ↦ yes (λ i. record { letters = p i; number = q i })
  ]
]

-- A message to the node: a JSON object with its id.
pub record Packet (Body : Type 0) : Type 0 where
  pub id : RequestId
  pub body : Body

-- What the websocket does not define. `dumps` and `loads` are `json.dumps` and `json.loads`, which
-- read back what they wrote; `letters` is the random generator of the ids.
pub record Net : Type 1 where
  pub Body : Type 0
  pub Sub : Type 0
  pub Response : Type 0
  pub Error : Type 0
  pub Text : Type 0
  pub sub_discrete : Discrete Sub
  pub dumps : Packet Body → Text
  pub loads : Text → Packet Body
  pub loads-dumps : (p : Packet Body) → loads (dumps p) ≡ p
  pub letters : ℕ → String

-- asyncio.Future
pub data Future (Response Error : Type 0) : Type 0 where
  pending : Future Response Error
  result : Response → Future Response Error
  failed : Error → Future Response Error

-- A message of the node: the response to a request, a notification of a subscription, or neither.
pub data Message (Sub Response : Type 0) : Type 0 where
  reply : RequestId → Response → Message Sub Response
  notify : Sub → Response → Message Sub Response
  unknown : Message Sub Response

-- What `_recv` raises: InvalidStateError is that of `set_result` on a future that is done.
pub data Raised : Type 0 where
  key_error invalid_state : Raised

pub data Retrieved (Response Error : Type 0) : Type 0 where
  nothing : Retrieved Response Error
  got : Response → Retrieved Response Error
  raised : Error → Retrieved Response Error

module _ (N : Net) where
  open N use {Body, Sub, Response, Error, Text, sub_discrete, dumps, loads, letters}

  -- `permits` is what is left of the semaphore `max_subscriptions`; `in_hand` is what the sending
  -- task has taken from its queue and not yet noted as in flight; `next_draw` counts the ids drawn.
  pub record Socket : Type 0 where
    pub received : List (RequestId × Future Response Error)
    pub subscriptions : List (Sub × List Response)
    pub sending : List (Packet Body)
    pub in_hand : Option (Packet Body)
    pub inflight : List (RequestId × Text)
    pub in_use_ids : List RequestId
    pub permits : ℕ
    pub next_draw : ℕ

  -- `set.add`
  unfoldable pub add_in_use : RequestId → List RequestId → List RequestId
  unfolding has
  add_in_use id ids = if has id_discrete id ids then ids else id ∷ ids

  -- The rest of `send` once it has a permit and an id that is not in use.
  unfoldable pub enqueue : Socket → Body → RequestId → ℕ → Socket
  unfolding add_in_use put
  enqueue w body id draw = record w {
    permits = w.permits - 1;
    next_draw = draw;
    in_use_ids = add_in_use id w.in_use_ids;
    received = put id_discrete id pending w.received;
    sending = w.sending ++ record { id = id; body = body } ∷ [];
  }

  unfoldable pub send_with :
      Socket → Body → ℕ → Option (RequestId × ℕ) → Option (RequestId × Socket)
  unfolding enqueue
  send_with w body zero found = none
  send_with w body (suc _) none = none
  send_with w body (suc _) (some (id, draw)) = some (id, enqueue w body id draw)

  -- `none`: the call waits, for a permit or for an id, and nothing has changed.
  unfoldable pub send : Socket → Body → Option (RequestId × Socket)
  unfolding send_with unused_id
  send w body =
      send_with w body w.permits (unused_id letters id_discrete 998 w.in_use_ids w.next_draw)

  -- The id of the message is not entered among those in use.
  unfoldable pub unsubscribe : Socket → Sub → Body → Option Socket
  unfolding unused_id remove
  unsubscribe w sub body = elim (unused_id letters id_discrete 998 w.in_use_ids w.next_draw) [
    | none ↦ none
    | some (id, draw) ↦ some (record w {
      next_draw = draw;
      subscriptions = remove sub_discrete sub w.subscriptions;
      sending = w.sending ++ record { id = id; body = body } ∷ [];
    })
  ]

  unfoldable pub take_from : Socket → List (Packet Body) → Option Socket
  take_from w [] = none
  take_from w (p ∷ rest) = some (record w { sending = rest; in_hand = some p })

  -- `_start_sending`, up to the lock: `none` while the queue is empty. The task takes the next
  -- message only when it has none in hand.
  unfoldable pub take_next : Socket → Option Socket
  unfolding take_from
  take_next w = elim w.in_hand [ none ↦ take_from w w.sending | some _ ↦ none ]

  -- `_start_sending`, under the lock and on to `ws.send`: what goes out on the wire.
  unfoldable pub transmit : Socket → Option (Text × Socket)
  unfolding put
  transmit w = elim w.in_hand [
    | none ↦ none
    | some p ↦
        some (
          dumps p,
          record w { in_hand = none; inflight = put id_discrete p.id (dumps p) w.inflight },
        )
  ]

  -- `_recv` on a response, with the future that waits for it, if there is one.
  unfoldable pub settle :
      Socket → RequestId → Response → Option (Future Response Error) → Socket × Option Raised
  unfolding put without
  settle w id response none = (record w { in_use_ids = without id_discrete id w.in_use_ids }, none)
  settle w id response (some pending) = (
    record w {
      received = put id_discrete id (result response) w.received;
      in_use_ids = without id_discrete id w.in_use_ids;
    },
    none,
  )
  settle w id response (some (result _)) = (w, some invalid_state)
  settle w id response (some (failed _)) = (w, some invalid_state)

  -- The messages of a subscription; a new one starts with an empty queue.
  unfoldable pub queue_of : Socket → Sub → List Response
  unfolding lookup
  queue_of w sub = elim (lookup sub_discrete sub w.subscriptions) [ none ↦ [] | some q ↦ q ]

  unfoldable pub recv : Socket → Message Sub Response → Socket × Option Raised
  unfolding settle queue_of lookup put remove
  recv w (reply id response) =
      settle (record w { inflight = remove id_discrete id w.inflight }) id response
        (lookup id_discrete id w.received)
  recv w (notify sub response) = (
    record w {
      subscriptions = put sub_discrete sub (queue_of w sub ++ response ∷ []) w.subscriptions;
    },
    none,
  )
  recv w unknown = (w, some key_error)

  -- The end of `retrieve`: the exception that the handler ended with, if it has.
  unfoldable pub task_error : Option Error → Retrieved Response Error
  task_error none = nothing
  task_error (some e) = raised e

  unfoldable pub retrieve_future :
      Socket
      → Option Error
      → RequestId
      → Option (Future Response Error)
      → Socket × Retrieved Response Error
  unfolding remove task_error
  retrieve_future w task id (some (result response)) = (
    record w { permits = w.permits + 1; received = remove id_discrete id w.received },
    got response,
  )
  retrieve_future w task id (some (failed e)) = (record w { permits = w.permits + 1 }, raised e)
  retrieve_future w task id (some pending) = (w, task_error task)
  retrieve_future w task id none = (w, task_error task)

  -- `retrieve` with the id of a request.
  unfoldable pub retrieve : Socket → Option Error → RequestId → Socket × Retrieved Response Error
  unfolding retrieve_future lookup
  retrieve w task id = retrieve_future w task id (lookup id_discrete id w.received)

  -- `retrieve` with the id of a subscription, which is no request's.
  unfoldable pub retrieve_message : Socket → Option Error → Sub → Socket × Retrieved Response Error
  unfolding lookup put task_error queue_of
  retrieve_message w task sub = elim (queue_of w sub) [
    | [] ↦ (w, task_error task)
    | response ∷ rest ↦
        (record w { subscriptions = put sub_discrete sub rest w.subscriptions }, got response)
  ]

  -- The loop of `_handler` over the requests in flight, before it reconnects.
  unfoldable pub resubmit : Socket → List (RequestId × Text) → Socket
  unfolding put
  resubmit w [] = record w { inflight = [] }
  resubmit w ((id, text) ∷ rest) =
      resubmit
        (record w {
          received = put id_discrete id pending w.received;
          sending = w.sending ++ loads text ∷ [];
        })
        rest

  -- The sending task is cancelled, with what it has in hand, and the requests in flight are queued.
  unfoldable pub reconnect : Socket → Socket
  unfolding resubmit
  reconnect w = resubmit (record w { in_hand = none }) w.inflight

  -- The receiving task ends by an exception that is no lost connection: all that wait fail.
  unfoldable pub fail_pending :
      Error → List (RequestId × Future Response Error) → List (RequestId × Future Response Error)
  fail_pending e [] = []
  fail_pending e ((id, pending) ∷ l) = (id, failed e) ∷ fail_pending e l
  fail_pending e ((id, done) ∷ l) = (id, done) ∷ fail_pending e l
