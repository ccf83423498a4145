-- ===== src/Websocket/Delivery.antt =====
-- The runs of a websocket (class Websocket of async_substrate_interface/async_substrate.py): sequences
-- of its operations in any order, and what is sound between them.
pub mod Kept
pub mod Reconnect
pub mod Carried
use async_substrate_interfac.Prelude.{
  ℕ, ◌≡◌, refl, Bool, true, false, ◌||◌, Option, none, some, List, [], ◌∷◌, ◌++◌, arith, ite,
  is_some, All,
}
use async_substrate_interfac.Prelude.Dict.{lookup}
use async_substrate_interfac.Websocket.Ids.{RequestId}
use async_substrate_interfac.Websocket.State.{
  id_discrete, Packet, Net, pending, Message, Socket, send, unsubscribe, take_next, transmit, recv,
  retrieve, retrieve_message, reconnect,
}

-- One of the messages has the id.
unfoldable pub queued : {Body : Type 0} → RequestId → List (Packet Body) → Bool
queued q [] = false
queued q (p ∷ l) = ite (id_discrete q p.id) true (queued q l)

pub queued-append :
    {Body : Type 0} (q : RequestId) (xs ys : List (Packet Body))
    → queued q (xs ++ ys) ≡ (queued q xs || queued q ys)
unfolding queued
queued-append q [] ys = refl
queued-append q (p ∷ xs) ys = ground (arith, queued-append q xs ys)

module _ (N : Net) where
  open N use {Body, Sub, Response, Error, Text, loads}

  -- The request is in the queue, in hand or in flight.
  abbrev pub carried : Socket N → RequestId → Bool
  carried w q =
      queued q w.sending
      || (elim w.in_hand [ none ↦ false | some p ↦ queued q (p ∷ []) ]
          || is_some (lookup id_discrete q w.inflight))

  pub record IsSound (w : Socket N) : Type 0 where
    -- Every pending future is that of a request on its way.
    pub on_its_way :
        (q : RequestId) → lookup id_discrete q w.received ≡ some pending → carried w q ≡ true
    -- What is in flight is the text of a message with that id.
    pub texts : All (λ (e : RequestId × Text). (loads e.1).id ≡ e.0) w.inflight

  pub data Step (w w' : Socket N) : Type 0 where
    sends : (body : Body) (id : RequestId) → send N w body ≡ some (id, w') → Step w w'
    unsubscribes : (sub : Sub) (body : Body) → unsubscribe N w sub body ≡ some w' → Step w w'
    takes : take_next N w ≡ some w' → Step w w'
    transmits : (text : Text) → transmit N w ≡ some (text, w') → Step w w'
    receives : (m : Message Sub Response) → w' ≡ (recv N w m).0 → Step w w'
    retrieves : (task : Option Error) (id : RequestId) → w' ≡ (retrieve N w task id).0 → Step w w'
    retrieves_message :
        (task : Option Error) (sub : Sub) → w' ≡ (retrieve_message N w task sub).0 → Step w w'
    -- The sending task is cancelled while it waits for its queue, with nothing in hand.
    reconnects : w.in_hand ≡ none → w' ≡ reconnect N w → Step w w'

  pub data Reach (w : Socket N) : Socket N → Type 0 where
    here : Reach w w
    next : {u v : Socket N} → Reach w u → Step u v → Reach w v

  abbrev pub HasTexts : List (RequestId × Text) → Type 0
  HasTexts = All (λ (e : RequestId × Text). (loads e.1).id ≡ e.0)

  abbrev pub fresh : ℕ → Socket N
  fresh max_subscriptions = record {
    received = [];
    subscriptions = [];
    sending = [];
    in_hand = none;
    inflight = [];
    in_use_ids = [];
    permits = max_subscriptions;
    next_draw = 0;
  }
