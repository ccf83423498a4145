-- ===== src/Request/Tests.antt =====
-- A node that lacks the runtime of its first two answers.
use async_substrate_interfac.Prelude.{ℕ, zero, suc, ◌≡◌, refl, inr, false, none, some, [], String}
use async_substrate_interfac.Json.{num, str, dict, Fields, end, field, field_of, key_of, contains}
use async_substrate_interfac.Request.{
  Client, answered, state_discarded, discarded, other_error, message_verdict, verdict, ends,
  rpc_request,
}
use async_substrate_interfac.Request.Retries.{
  LacksRuntime, HasResult, Lacking, at_once, after, rpc_request-retries,
}

abbrev error : String → Fields
error message = field "error" (dict (field "message" (str message) end)) end

abbrev answer : Fields
answer = field "result" (num 5) end

abbrev reply : ℕ → Fields
reply zero = answer
reply (suc n) = error "Failed to get runtime version"

abbrev before : ℕ → ℕ
before zero = zero
before (suc n) = n

-- The state is how many answers lack the runtime.
abbrev client : Client
client = record {
  State = ℕ;
  Error = String;
  last_block_hash = λ n. none;
  set_last_block_hash = λ n hash. n;
  ask = λ n params. (before n, inr (reply n));
  init_runtime = λ n hash. (n, none);
}

discarded_state :
    verdict {Error = String}
      (error "Client error: Api called for an unknown Block: State already discarded for 0xa")
    ≡ ends (
        state_discarded
          (str "Client error: Api called for an unknown Block: State already discarded for 0xa"))
unfolding verdict message_verdict other_error discarded contains field_of key_of
discarded_state = refl

no_runtime : LacksRuntime (error "Failed to get runtime version")
unfolding field_of key_of contains
no_runtime = (
  dict (field "message" (str "Failed to get runtime version") end),
  str "Failed to get runtime version",
  refl,
  refl,
  refl,
)

twice : Lacking client [] "0xa" false 2 2 0
twice = after refl no_runtime refl (after refl no_runtime refl at_once)

answer-HasResult : HasResult answer
unfolding field_of
answer-HasResult = (refl, refl)

rpc_request-retries_example : rpc_request client 3 2 [] (some "0xa") false ≡ (0, answered answer)
rpc_request-retries_example =
    rpc_request-retries client [] "0xa" false 2 2 0 0 answer twice refl answer-HasResult
