-- ===== src/Request/Retries.antt =====
-- Requests that the node fails for want of a runtime, and asks again
-- (async_substrate_interface/async_substrate.py).
use async_substrate_interfac.Prelude.{
  ℕ, zero, suc, ◌≡◌, refl, ap, ◌∙◌, ◌⊎◌, inr, Bool, true, none, some, List, [], ◌∷◌, ◌++◌, is_some,
  String, Option,
}
use async_substrate_interfac.Json.{Json, str, Fields, field_of, key_of, contains}
use async_substrate_interfac.Request.{
  Client, End, answered, Verdict, ends, again, message_verdict, verdict, with_hash,
  get_current_block_hash, judge, attempt, initialised, prepare, try_once, rpc_request,
}

-- The response is an error whose message says that the runtime version is missing.
abbrev pub LacksRuntime : Fields → Type 0
LacksRuntime response =
    (error : Json) × (msg : Json) × (field_of "error" response ≡ some error)
    × (key_of "message" error ≡ some msg)
    × (contains "Failed to get runtime version" msg ≡ some true)

-- The response has a result and no error.
abbrev pub HasResult : Fields → Type 0
HasResult response =
    (field_of "error" response ≡ none) × (is_some (field_of "result" response) ≡ true)

verdict-again : (E : Type 0) (r : Fields) → LacksRuntime r → verdict {Error = E} r ≡ again
unfolding verdict message_verdict
verdict-again E r (error, msg, found, has_message, says) =
    rw (verdict, found, has_message, message_verdict, says) refl

verdict-answered :
    (E : Type 0) (r : Fields) → HasResult r → verdict {Error = E} r ≡ ends (answered r)
unfolding verdict
verdict-answered E r (no_error, result) = rw (verdict, no_error, result) refl

module _ (C : Client) (params : List Json) (hash : String) (reuse : Bool) where
  open C use {State, Error, set_last_block_hash, ask, init_runtime}

  -- What the node is asked in the state `s`: the hash is noted, and stands behind the parameters.
  abbrev pub asked : State → State × (Error ⊎ Fields)
  asked s = ask (set_last_block_hash s hash) (params ++ str hash ∷ [])

  -- `Lacking n s s'`: from the state `s`, the node lacks the runtime for `n` requests, after each of
  -- which the runtime is read for the hash, until the state `s'`.
  pub data Lacking : ℕ → State → State → Type 0 where
    at_once : {s : State} → Lacking zero s s
    after :
        {n : ℕ} {s s1 s2 s' : State} {response : Fields}
        → asked s ≡ (s1, inr response)
        → LacksRuntime response
        → init_runtime s1 (some hash) ≡ (s2, none)
        → Lacking n s2 s'
        → Lacking (suc n) s s'

  judged :
      (s s1 : State) (response : Fields)
      → asked s ≡ (s1, inr response)
      → attempt C s params (get_current_block_hash C s (some hash) reuse)
        ≡ (s1, verdict {Error = Error} response)
  unfolding get_current_block_hash attempt with_hash judge
  judged s s1 response got = ap (judge C) got

  tried_again :
      (s s1 s2 : State) (response : Fields)
      → asked s ≡ (s1, inr response)
      → LacksRuntime response
      → init_runtime s1 (some hash) ≡ (s2, none)
      → try_once C s params (some hash) reuse ≡ ((s2, again), some hash)
  unfolding try_once get_current_block_hash prepare initialised
  tried_again s s1 s2 response got lacks read =
      ap (λ r. (prepare C r (some hash), some hash)) (judged s s1 response got)
      ∙ ap (λ v. (prepare C (s1, v) (some hash), some hash)) (verdict-again Error response lacks)
      ∙ ap (λ r. (initialised C r, some hash)) read

  tried_last :
      (s s1 : State) (response : Fields)
      → asked s ≡ (s1, inr response)
      → HasResult response
      → try_once C s params (some hash) reuse ≡ ((s1, ends (answered response)), some hash)
  unfolding try_once get_current_block_hash prepare
  tried_last s s1 response got has_result =
      ap (λ r. (prepare C r (some hash), some hash)) (judged s s1 response got)
      ∙ ap (λ v. (prepare C (s1, v) (some hash), some hash))
          (verdict-answered Error response has_result)

  -- One more request of `rpc_request`, by what it leads to.
  abbrev goes_on : ℕ → (State × Verdict Error) × Option String → State × End Error
  goes_on n r = elim r.0.1 as (λ _. State × End Error) [
    | ends e ↦ (r.0.0, e)
    | again ↦ rpc_request C n r.0.0 params r.1 reuse
  ]

  -- A request at a hash, for which the node answers n times that it failed to get the runtime
  -- version, and then a result, ends with this result after n + 1 requests: each is made with the
  -- hash behind the parameters and noted as the last, and after each failure the runtime is read for
  -- it.
  pub rpc_request-retries :
      (n : ℕ) (s s' s1 : State) (response : Fields)
      → Lacking n s s'
      → asked s' ≡ (s1, inr response)
      → HasResult response
      → rpc_request C (suc n) s params (some hash) reuse ≡ (s1, answered response)
  unfolding rpc_request
  rpc_request-retries zero s s' s1 response at_once got has_result =
      ap (goes_on zero) (tried_last s s1 response got has_result)
  rpc_request-retries (suc n) s s' s1 response (after asked_now lacks read rest) got has_result =
      ap (goes_on (suc n)) (tried_again s _ _ _ asked_now lacks read)
      ∙ rpc_request-retries n _ s' s1 response rest got has_result
