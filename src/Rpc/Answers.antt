-- ===== src/Rpc/Answers.antt =====
-- What `_make_rpc_request` returns: an answer to each payload, and no other.
use mathlib.Core.List.{Memᴰ}
use mathlib.Core.List.Memᴰ.{head, tail}
use async_substrate_interfac.Prelude.{
  ℕ, ◌≡◌, refl, sym, ap, ◌∙◌, ◌⊎◌, inl, inr, Bool, true, false, List, [], ◌∷◌, map, arith,
  Bool-cases, Option-cases, All, length, ◌==◌, ◌&&◌,
}
use async_substrate_interfac.Prelude.Dict.{keys}
use async_substrate_interfac.Prelude.Every.{All-put, All-map}
use async_substrate_interfac.Prelude.Distinct.{
  has, Distinct, head_has, tail_has, has_in_tail, subset_of_length,
}
use async_substrate_interfac.Prelude.Entries.{length-map, keys-Distinct}
use async_substrate_interfac.Requests.{
  Info, init, add_request, all_complete, is_complete, get_results,
}
use async_substrate_interfac.Link.{Link, Decoded, Payload, Options}
use async_substrate_interfac.Rpc.{
  Call, Outcome, returned, add_sent, started, request_all, make_rpc_request, unique,
}
use async_substrate_interfac.Rpc.Induction.{OnOutcome, make_rpc_request-OnOutcome}
use async_substrate_interfac.Rpc.Origins.{
  Carries, sent, subscribed, Answers, Good, GoodStep, visit-Good,
}

bool_iff : (a b : Bool) → (a ≡ true → b ≡ true) → (b ≡ true → a ≡ true) → a ≡ b
bool_iff true b f g = sym (f refl)
bool_iff false true f g = g refl
bool_iff false false f g = refl

module _ (L : Link) (o : Options L) (payloads : List (Payload L)) where
  open L use {State, Ident, Value, id_discrete, send, pass_time, leave, mark_response_received}

  -- The results of a call whose requests are all answered.
  abbrev Complete : List (Ident × List (Decoded Value)) → Type 0
  Complete results =
      All (λ e. All (Answers L o payloads e.0) e.1) results
      × All (λ e. (item : Ident) × Carries L o payloads item e.0) results
      × Distinct id_discrete (keys results)
      × (length results ≡ length payloads)

  abbrev GoodOutcome : Outcome L → Type 0
  GoodOutcome =
      OnOutcome L o (Good L o payloads) (λ _. Unit) (λ w results. Complete results) (λ _. Unit)

  keys-results :
      (l : List (Ident × Info (Decoded Value))) → keys (map (λ e. (e.0, e.1.results)) l) ≡ keys l
  keys-results [] = refl
  keys-results (e ∷ l) = ap (e.0 ∷◌) (keys-results l)

  both : (a : Bool) (n m : ℕ) → (a && (n == m)) ≡ true → n ≡ m
  both a n m h = ground arith

  finished :
      (c : Call L)
      → Good L o payloads c
      → is_complete c.manager ≡ true
      → Complete (get_results c.manager)
  unfolding is_complete get_results
  finished c good done = (
    All-map (λ e. All (Answers L o payloads e.0) e.1) _ c.manager.responses good.1,
    All-map (λ e. (item : Ident) × Carries L o payloads item e.0) _ c.manager.responses good.2,
    rw (keys-results c.manager.responses) (keys-Distinct id_discrete c.manager.responses good.3),
    length-map _ c.manager.responses
        ∙ both (all_complete c.manager.responses) (length c.manager.responses)
            c.manager.payloads_count done
        ∙ good.4,
  )

  add_sent-Good :
      (c : Call L) (p : Payload L) (reply : State × (L.Error ⊎ Ident))
      → Memᴰ p payloads
      → Good L o payloads c
      → send c.link p.payload ≡ reply
      → GoodStep L o payloads (add_sent L c p.id reply)
  unfolding add_sent add_request
  add_sent-Good c p (w, inl e) here good did = tt
  add_sent-Good c p (w, inr item) here good did = (
    All-put id_discrete (λ e. Carries L o payloads e.0 e.1) item p.id c.manager.response_map
        (sent here did) good.0,
    good.1,
    good.2,
    good.3,
    good.4,
  )

  started-Good : (w : State) → Good L o payloads (started L w (length payloads))
  unfolding started init
  started-Good w = (tt, tt, tt, tt, refl)

  make_rpc_request-Good : (n : ℕ) (w : State) → GoodOutcome (make_rpc_request L n o w payloads)
  unfolding make_rpc_request request_all
  make_rpc_request-Good n w =
      elim (Bool-cases (unique L (map (λ (p : Payload L). p.id) payloads))) [
        | inr again ↦ rw (make_rpc_request, again) tt
        | inl distinct ↦ elim (Option-cases (L.enter w).1) [
          | inr (e, lost) ↦ rw (make_rpc_request, distinct, request_all, lost) tt
          | inl fine ↦
              make_rpc_request-OnOutcome L o (Good L o payloads) (λ _. Unit)
                (λ w results. Complete results) (λ _. Unit) n w payloads distinct fine
                (started-Good (L.enter w).0)
                (λ c p here good. add_sent-Good c p (send c.link p.payload) here good refl)
                (visit-Good L o payloads) (λ c good. good) finished (λ w u. u)
        ]
      ]

  -- Every answer that `_make_rpc_request` returns for a payload id is what `_process_response` makes
  -- of a response to an item that was sent for the payload of that id, or to a subscription that a
  -- response to such an item names.
  pub make_rpc_request-Answers :
      (n : ℕ) (w w' : State) (results : List (Ident × List (Decoded Value)))
      → make_rpc_request L n o w payloads ≡ returned w' results
      → All (λ e. All (Answers L o payloads e.0) e.1) results
  make_rpc_request-Answers n w w' results e = (rw e at (make_rpc_request-Good n w)).0

  mem_has :
      (p : Payload L) (l : List (Payload L))
      → Memᴰ p l
      → has id_discrete p.id (map (λ (p : Payload L). p.id) l) ≡ true
  mem_has p [] m = elim m [ ]
  mem_has p (q ∷ l) (head same) = rw same (head_has id_discrete q.id _)
  mem_has p (q ∷ l) (tail m) = tail_has id_discrete p.id q.id _ (mem_has p l m)

  carries_has :
      (item request : Ident)
      → Carries L o payloads item request
      → has id_discrete request (map (λ (p : Payload L). p.id) payloads) ≡ true
  carries_has item request (sent here did) = mem_has _ payloads here
  carries_has item request (subscribed carried ran named is_id) = carries_has _ request carried

  asked_has :
      (l : List (Ident × List (Decoded Value)))
      → All (λ e. (item : Ident) × Carries L o payloads item e.0) l
      → (q : Ident) → has id_discrete q (keys l) ≡ true
      → has id_discrete q (map (λ (p : Payload L). p.id) payloads) ≡ true
  unfolding has
  asked_has [] h q there = absurd (cc there)
  asked_has (e ∷ l) h q there = elim (id_discrete q e.0) [
    | yes same ↦ rw same (carries_has h.0.0 e.0 h.0.1)
    | no other ↦ asked_has l h.1 q (has_in_tail id_discrete q e.0 (keys l) other there)
  ]

  -- `_make_rpc_request` returns one entry for the id of each payload, and entries for these only.
  pub make_rpc_request_complete :
      (n : ℕ) (w w' : State) (results : List (Ident × List (Decoded Value)))
      → make_rpc_request L n o w payloads ≡ returned w' results
      → (q : Ident)
      → Distinct id_discrete (keys results)
        × (has id_discrete q (keys results)
            ≡ has id_discrete q (map (λ (p : Payload L). p.id) payloads))
  make_rpc_request_complete n w w' results e q =
      let (answers, asked, distinct, count) = rw e at (make_rpc_request-Good n w) in
      let there = asked_has results asked in
      let back =
        subset_of_length id_discrete (keys results) _ distinct there
          (omega (
            arith,
            length-map (λ (p : Payload L). p.id) payloads,
            length-map (λ (e : Ident × List (Decoded Value)). e.0) results,
          ))
          q in
      (distinct, bool_iff _ _ (there q) back)
