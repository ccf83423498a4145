-- ===== src/Receipts/Fees.antt =====
-- The fee of an extrinsic, told from its events alone.
use async_substrate_interfac.Prelude.{
  ℕ, ◌+◌, ◌≡◌, ap, ◌∙◌, Bool, true, false, ◌||◌, Option, none, some, List, [], ◌∷◌, if◌then◌else◌,
  arith,
}
use async_substrate_interfac.Json.{Json, num, add, key_of}
use async_substrate_interfac.Receipts.Events.{
  Event, ErrorMessage, extract_total_fee_amount, fee_loop, fee_step, is_event,
  is_extrinsic_success_event, is_extrinsic_failure_event, extract_fallback_deposit_fee_amount,
}
use async_substrate_interfac.Receipts.{
  Findings, Progress, succeed, fail, charge, event_step, event_loop, conclude, process_events,
}
use async_substrate_interfac.Receipts.Outcome.{>>=-some}

-- The fee that a TransactionFeePaid states.
abbrev pub paid_fee : Event → Option Json
paid_fee e =
    if is_event "TransactionPayment" "TransactionFeePaid" e
    then key_of "actual_fee" e.attributes
    else none

unfoldable pub last_fee : List Event → Option Json
last_fee [] = none
last_fee (e ∷ l) = elim (last_fee l) [ none ↦ paid_fee e | some f ↦ some f ]

-- What an event that does not decide on success deposits.
abbrev pub deposit : Event → ℕ
deposit e =
    if is_extrinsic_success_event e || is_extrinsic_failure_event e
    then 0
    else elim (extract_fallback_deposit_fee_amount e) [
      | none ↦ 0
      | some amount ↦ elim amount [ num n ↦ n | _ ↦ 0 ]
    ]

unfoldable pub deposits : List Event → ℕ
deposits [] = 0
deposits (e ∷ l) = deposit e + deposits l

-- The fee and the flag once the events have been read.
abbrev read_fee : List Event → Json × Bool → Json × Bool
read_fee events total = elim (last_fee events) [ none ↦ total | some f ↦ (f, true) ]

fee_step_lem :
    (e : Event) (t u : Json × Bool)
    → fee_step e t ≡ some u
    → u ≡ elim (paid_fee e) [ none ↦ t | some f ↦ (f, true) ]
unfolding fee_step
fee_step_lem e t u h = ground arith

fee_loop-last_fee :
    (events : List Event) (t u : Json × Bool) → fee_loop events t ≡ some u → u ≡ read_fee events t
unfolding fee_loop last_fee
fee_loop-last_fee [] t u h = cc h
fee_loop-last_fee (e ∷ l) t u h =
    let (v, one, rest) = >>=-some (fee_step e t) (λ x. fee_loop l x) u h in
    ground (arith, fee_step_lem e t v one, fee_loop-last_fee l v u rest)

module _ (resolve : Json → Json → Option ErrorMessage) where
  fee_of : Progress → Json
  fee_of p = p.found.total_fee_amount

  paid_step :
      (e : Event) (p q : Progress)
      → event_step resolve true e p ≡ some q
      → q.found.total_fee_amount ≡ p.found.total_fee_amount
  unfolding event_step succeed fail charge
  paid_step e p q h = ground arith

  deposit_step :
      (e : Event) (p q : Progress) (a : ℕ)
      → p.found.total_fee_amount ≡ num a
      → event_step resolve false e p ≡ some q
      → q.found.total_fee_amount ≡ num (a + deposit e)
  unfolding event_step succeed fail charge add
  deposit_step e p q a b h = ground arith

  paid_loop :
      (events : List Event) (p q : Progress)
      → event_loop resolve true events p ≡ some q
      → q.found.total_fee_amount ≡ p.found.total_fee_amount
  unfolding event_loop
  paid_loop [] p q h = ground arith
  paid_loop (e ∷ l) p q h =
      let (v, one, rest) = >>=-some (event_step resolve true e p) _ q h in
      paid_loop l v q rest ∙ paid_step e p v one

  deposit_loop :
      (events : List Event) (p q : Progress) (a : ℕ)
      → p.found.total_fee_amount ≡ num a
      → event_loop resolve false events p ≡ some q
      → q.found.total_fee_amount ≡ num (a + deposits events)
  unfolding event_loop deposits
  deposit_loop [] p q a b h = ground arith
  deposit_loop (e ∷ l) p q a b h =
      let (v, one, rest) = >>=-some (event_step resolve false e p) _ q h in
      deposit_loop l v q (a + deposit e) (deposit_step e p v a b one) rest ∙ ap num (omega arith)

  conclude_fee : (p : Progress) → (conclude p).total_fee_amount ≡ p.found.total_fee_amount
  unfolding conclude
  conclude_fee p = ground arith

  settled :
      (events : List Event) (paid : Bool) (p q : Progress)
      → (p.found.total_fee_amount, paid) ≡ read_fee events (num 0, false)
      → event_loop resolve paid events p ≡ some q
      → q.found.total_fee_amount
        ≡ elim (last_fee events) [ none ↦ num (deposits events) | some f ↦ f ]
  settled events true p q e h = ground (arith, paid_loop events p q h)
  settled events false p q e h =
      let zero_fee : p.found.total_fee_amount ≡ num 0 = ground arith in
      ground (arith, deposit_loop events p q 0 zero_fee h)

  -- Once a receipt has processed its events without an exception, its fee is that of the last
  -- TransactionFeePaid, and, where there is none, the sum of what the events that do not decide on
  -- success deposit.
  pub process_events-last_fee :
      (r r' : Findings) (e : Event) (l : List Event)
      → process_events resolve r (e ∷ l) ≡ some r'
      → r'.total_fee_amount ≡ elim (last_fee (e ∷ l)) [ none ↦ num (deposits (e ∷ l)) | some f ↦ f ]
  unfolding process_events extract_total_fee_amount
  process_events-last_fee r r' e l h =
      let ((fee, paid), priced, looped) = >>=-some (extract_total_fee_amount (e ∷ l)) _ r' h in
      let start : Progress = record {
        possible_success = false;
        found = record r { total_fee_amount = fee };
      } in
      let (q, through, done) = >>=-some (event_loop resolve paid (e ∷ l) start) _ r' looped in
      let same : r' ≡ conclude q = cc done in
      let read = fee_loop-last_fee (e ∷ l) (num 0, false) (fee, paid) priced in
      ap (λ (x : Findings). x.total_fee_amount) same
      ∙ conclude_fee q
      ∙ settled (e ∷ l) paid start q read through
