-- ===== src/Receipts/Outcome.antt =====
-- What a receipt says of an extrinsic, told from its events alone.
use async_substrate_interfac.Prelude.{
  ◌≡◌, refl, Bool, true, false, not, ◌&&◌, ◌||◌, Option, none, some, List, [], ◌∷◌, if◌then◌else◌,
  is_some, arith, Bool-cases, inl, inr,
}
use async_substrate_interfac.Json.{Json, ◌>>=◌}
use async_substrate_interfac.Receipts.Events.{
  Event, ErrorMessage, extract_total_fee_amount, is_extrinsic_success_event,
  is_extrinsic_failure_event, extract_failure_details,
}
use async_substrate_interfac.Receipts.{
  Findings, Progress, new_message, succeed, fail, charge, event_step, event_loop, conclude,
  process_events,
}

pub >>=-some :
    {A B : Type 0} (o : Option A) (f : A → Option B) (b : B)
    → (o >>= f) ≡ some b
    → (a : A) × (o ≡ some a) × (f a ≡ some b)
>>=-some none f b e = absurd (cc e)
>>=-some (some a) f b e = (a, refl, e)

-- Whether an event decides on success, and how.
abbrev pub decides : Event → Option Bool
decides e =
    if is_extrinsic_success_event e
    then some true
    else if is_extrinsic_failure_event e
    then some false
    else none

-- The last of the events that decide.
unfoldable pub last_decision : List Event → Option Bool
last_decision [] = none
last_decision (e ∷ l) = elim (last_decision l) [ none ↦ decides e | some b ↦ some b ]

unfoldable pub any_failure : List Event → Bool
any_failure [] = false
any_failure (e ∷ l) =
    (not (is_extrinsic_success_event e) && is_extrinsic_failure_event e) || any_failure l

module _ (resolve : Json → Json → Option ErrorMessage) where
  -- The message that an event sets; `none` where it sets none.
  pub message_of : Event → Option (Option ErrorMessage)
  message_of e =
      if not (is_extrinsic_success_event e) && is_extrinsic_failure_event e
      then elim (extract_failure_details e) [
        | none ↦ none
        | some details ↦ elim (new_message resolve details) [ none ↦ none | some m ↦ m ]
      ]
      else none

  -- The message that the last event to set one sets.
  unfoldable pub last_message : List Event → Option (Option ErrorMessage)
  unfolding message_of
  last_message [] = none
  last_message (e ∷ l) = elim (last_message l) [ none ↦ message_of e | some m ↦ some m ]

  record Follows (events : List Event) (p q : Progress) : Type 0 where
    possible :
        q.possible_success ≡ elim (last_decision events) [ none ↦ p.possible_success | some b ↦ b ]
    success : q.found.is_success ≡ (if any_failure events then some false else p.found.is_success)
    message :
        q.found.error_message
        ≡ elim (last_message events) [ none ↦ p.found.error_message | some m ↦ m ]

  step-Follows :
      (paid : Bool) (e : Event) (p q : Progress)
      → event_step resolve paid e p ≡ some q
      → Follows (e ∷ []) p q
  unfolding event_step last_decision any_failure last_message message_of succeed fail charge
  step-Follows paid e p q h = elim (Bool-cases (is_extrinsic_success_event e)) [
    | inl yes_event ↦ ground arith
    | inr not_success ↦ ground arith
  ]

  joined-Follows :
      (e : Event) (l : List Event) (p q r : Progress)
      → Follows (e ∷ []) p q
      → Follows l q r
      → Follows (e ∷ l) p r
  unfolding last_decision any_failure last_message
  joined-Follows e l p q r one rest = record {
    possible = let a = one.possible in let b = rest.possible in ground arith;
    success = let a = one.success in let b = rest.success in ground arith;
    message = let a = one.message in let b = rest.message in ground arith;
  }

  loop-Follows :
      (paid : Bool) (events : List Event) (p r : Progress)
      → event_loop resolve paid events p ≡ some r
      → Follows events p r
  unfolding event_loop
  loop-Follows paid [] p r h =
      unfold last_decision any_failure last_message in
      record { possible = ground arith; success = ground arith; message = ground arith }
  loop-Follows paid (e ∷ l) p r h =
      let (q, one, rest) = >>=-some (event_step resolve paid e p) _ r h in
      joined-Follows e l p q r (step-Follows paid e p q one) (loop-Follows paid l q r rest)

  -- The message left after the events.
  abbrev pub final_message : List Event → Option ErrorMessage
  final_message events = elim (last_message events) [ none ↦ none | some m ↦ m ]

  abbrev pub verdict : List Event → Option Bool
  verdict events =
      if elim (last_decision events) [ none ↦ false | some b ↦ b ]
        && not (is_some (final_message events))
      then some true
      else if any_failure events
      then some false
      else none

  concluded :
      (events : List Event) (p q : Progress)
      → Follows events p q
      → p.possible_success ≡ false
      → p.found.is_success ≡ none
      → p.found.error_message ≡ none
      → ((conclude q).is_success ≡ verdict events)
        × ((conclude q).error_message ≡ final_message events)
  unfolding conclude
  concluded events p q f a b c =
      let x = f.possible in let y = f.success in let z = f.message in ground arith

  -- A receipt that knows nothing yet, once it has processed its events without an exception: the
  -- extrinsic succeeded if the last event that decides is a success and no error message is left,
  -- it failed if it did not succeed and an event is a failure, and nothing is known otherwise. The
  -- message is the one that the last event to set a message has set.
  pub process_events-verdict :
      (r r' : Findings) (events : List Event)
      → r.is_success ≡ none
      → r.error_message ≡ none
      → process_events resolve r events ≡ some r'
      → (r'.is_success ≡ verdict events) × (r'.error_message ≡ final_message events)
  unfolding process_events
  process_events-verdict r r' [] a b h =
      unfold last_decision last_message any_failure in (ground arith, ground arith)
  process_events-verdict r r' (e ∷ l) a b h =
      let ((fee, paid), priced, looped) = >>=-some (extract_total_fee_amount (e ∷ l)) _ r' h in
      let start : Progress = record {
        possible_success = false;
        found = record r { total_fee_amount = fee };
      } in
      let (q, through, done) = >>=-some (event_loop resolve paid (e ∷ l) start) _ r' looped in
      let same : r' ≡ conclude q = cc done in
      rw same (concluded (e ∷ l) start q (loop-Follows paid (e ∷ l) start q through) refl a b)
