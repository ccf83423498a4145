-- ===== src/Websocket/Tests.antt =====
-- Runs of a websocket, and the theorems on it at concrete inputs.
use async_substrate_interfac.Prelude.{
  ℕ, ◌+◌, ◌≡◌, refl, true, false, none, some, [], ◌∷◌, arith, ℕ_discrete, Bool-cases,
}
use async_substrate_interfac.Prelude.Dict.{lookup}
use async_substrate_interfac.Prelude.Distinct.{has}
use async_substrate_interfac.Prelude.Strings.{String-discrete}
use async_substrate_interfac.Websocket.Ids.{RequestId, get_next_id}
use async_substrate_interfac.Websocket.State.{
  id_discrete, Packet, Net, pending, reply, got, Socket, send, take_next, transmit, recv, retrieve,
  reconnect,
}
use async_substrate_interfac.Websocket.Delivery.{
  carried, queued, IsSound, Step, Reach, here, next, sends, takes, transmits, fresh,
}
use async_substrate_interfac.Websocket.Delivery.Carried.{Reach-carried}
use async_substrate_interfac.Websocket.Calls.{retrieve-recv}

-- Bodies, subscriptions, responses and exceptions are numbers, and a text is its message.
abbrev Simple : Net
Simple = record {
  Body = ℕ;
  Sub = ℕ;
  Response = ℕ;
  Error = ℕ;
  Text = Packet ℕ;
  sub_discrete = ℕ_discrete;
  dumps = λ p. p;
  loads = λ p. p;
  loads-dumps = λ p. refl;
  letters = λ n. "ab";
}

abbrev ab1 : RequestId
ab1 = record { letters = "ab"; number = 1 }

abbrev ab2 : RequestId
ab2 = record { letters = "ab"; number = 2 }

abbrev start : Socket Simple
start = fresh Simple 2

abbrev asked : Socket Simple
asked = record start {
  permits = 1;
  next_draw = 1;
  in_use_ids = ab1 ∷ [];
  received = (ab1, pending) ∷ [];
  sending = record { id = ab1; body = 10 } ∷ [];
}

abbrev taken : Socket Simple
taken = record asked { sending = []; in_hand = some (record { id = ab1; body = 10 }) }

abbrev out : Socket Simple
out = record asked { sending = []; inflight = (ab1, record { id = ab1; body = 10 }) ∷ [] }

-- A request is sent, taken, transmitted and, after a reconnection, queued again.
exchange :
    (send Simple start 10 ≡ some (ab1, asked))
    × (take_next Simple asked ≡ some taken)
    × (transmit Simple taken ≡ some (record { id = ab1; body = 10 }, out))
    × (reconnect Simple out ≡ asked)
unfolding send take_next transmit reconnect get_next_id has id_discrete String-discrete Bool-cases
exchange = (refl, refl, refl, refl)

asked_out : Reach Simple start out
unfolding send take_next transmit get_next_id has id_discrete String-discrete Bool-cases
asked_out =
    let asks : Step Simple start asked = sends 10 ab1 refl in
    let takes_it : Step Simple asked taken = takes refl in
    let transmits_it : Step Simple taken out = transmits (record { id = ab1; body = 10 }) refl in
    next (next (next here asks) takes_it) transmits_it

Reach-carried_example : carried Simple out ab1 ≡ true
unfolding lookup id_discrete String-discrete Bool-cases
Reach-carried_example = Reach-carried Simple 2 out ab1 asked_out refl

retrieve-recv_example :
    let w1 = (recv Simple out (reply ab1 7)).0 in
    let w2 = (retrieve Simple w1 none ab1).0 in
    ((retrieve Simple w1 none ab1).1 ≡ got 7)
    × (lookup id_discrete ab1 w2.received ≡ none)
    × (has id_discrete ab1 w2.in_use_ids ≡ false)
    × (lookup id_discrete ab1 w2.inflight ≡ none)
    × (w2.permits ≡ out.permits + 1)
unfolding lookup id_discrete String-discrete Bool-cases
retrieve-recv_example = retrieve-recv Simple out none ab1 7 refl

taken-IsSound : IsSound Simple taken
unfolding lookup queued
taken-IsSound = record { on_its_way = λ q h. ground arith; texts = tt }
