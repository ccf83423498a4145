-- ===== src/Requests/Tests.antt =====
-- Runs of RequestManager, and its theorems at concrete inputs.
use async_substrate_interfac.Prelude.{
  ℕ, ◌≡◌, ◌↔◌, refl, true, false, none, some, [], ◌∷◌, ℕ_discrete,
}
use async_substrate_interfac.Prelude.Dict.{lookup}
use async_substrate_interfac.Prelude.Distinct.{has}
use async_substrate_interfac.Requests.{
  RequestManager, init, add_request, overwrite_request, add_response, is_complete, get_results,
  unresponded,
}
use async_substrate_interfac.Requests.Invariant.{IsValid, add_request-IsValid, add_response-IsValid}
use async_substrate_interfac.Requests.Complete.{is_complete_iff}

-- Items, requests and responses are numbers here.
abbrev Manager : Type 0
Manager = RequestManager ℕ ℕ ℕ

abbrev sent : Manager
sent = record { response_map = (7, 1) ∷ (8, 2) ∷ []; responses = []; payloads_count = 2 }

abbrev half : Manager
half = record sent { responses = (2, record { complete = true; results = 20 ∷ [] }) ∷ [] }

abbrev done : Manager
done = record sent {
  responses =
      (2, record { complete = true; results = 20 ∷ [] })
      ∷ (1, record { complete = true; results = 10 ∷ [] })
      ∷ [];
}

gather_run :
    (add_request ℕ_discrete (add_request ℕ_discrete (init 2) 7 1) 8 2 ≡ sent)
    × (add_response ℕ_discrete ℕ_discrete sent 8 20 true ≡ some half)
    × (unresponded ℕ_discrete half ≡ 7 ∷ [])
    × (is_complete half ≡ false)
    × (add_response ℕ_discrete ℕ_discrete half 7 10 true ≡ some done)
    × (is_complete done ≡ true)
    × (get_results done ≡ (2, 20 ∷ []) ∷ (1, 10 ∷ []) ∷ [])
unfolding init add_request add_response unresponded is_complete get_results ℕ_discrete
gather_run = (refl, refl, refl, refl, refl, refl, refl)

-- A response under the old item of a subscription is refused.
subscribe :
    (overwrite_request ℕ_discrete sent 7 99
      ≡ some (record sent { response_map = (8, 2) ∷ (99, 1) ∷ [] }, 99))
    × (add_response ℕ_discrete ℕ_discrete
          (record sent { response_map = (8, 2) ∷ (99, 1) ∷ [] })
          7
          10
          true
        ≡ none)
unfolding overwrite_request add_response ℕ_discrete
subscribe = (refl, refl)

sent-IsValid : IsValid ℕ_discrete ℕ_discrete sent
unfolding lookup has ℕ_discrete
sent-IsValid = record {
  items = (refl, (refl, tt));
  requests = (refl, (refl, tt));
  answers = tt;
  expected = λ q h. cc;
}

add_request-IsValid_example :
    IsValid ℕ_discrete ℕ_discrete (add_request ℕ_discrete (record sent { payloads_count = 3 }) 9 3)
unfolding lookup has ℕ_discrete
add_request-IsValid_example =
    add_request-IsValid ℕ_discrete ℕ_discrete (record sent { payloads_count = 3 }) 9 3
      (record {
        items = sent-IsValid.items;
        requests = sent-IsValid.requests;
        answers = tt;
        expected = λ q h. cc;
      })
      refl refl

half-IsValid : IsValid ℕ_discrete ℕ_discrete half
unfolding add_response ℕ_discrete
half-IsValid = add_response-IsValid ℕ_discrete ℕ_discrete sent half 8 20 true sent-IsValid refl

is_complete_iff_example : (is_complete half ≡ true) ↔ (unresponded ℕ_discrete half ≡ [])
is_complete_iff_example = is_complete_iff ℕ_discrete ℕ_discrete half half-IsValid refl
