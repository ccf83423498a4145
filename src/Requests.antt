-- ===== src/Requests.antt =====
-- class RequestManager of async_substrate_interface/types.py: which responses belong to which
-- request. Websocket ids, payload ids and responses are parameters. `KeyError` is the only error.
pub mod Invariant
pub mod Complete
pub mod Results
mod Tests
use async_substrate_interfac.Prelude.{
  ℕ, ◌+◌, ◌-◌, ◌≡◌, Bool, true, false, ◌&&◌, not, Option, none, some, List, [], ◌∷◌, ◌++◌, arith,
  ltb, ◌==◌, if◌then◌else◌, length, drop, map,
}
use async_substrate_interfac.Prelude.Dict.{lookup, put, remove}

-- `{"complete": ..., "results": deque(maxlen=100)}`
pub record Info (Response : Type 0) : Type 0 where
  pub complete : Bool
  pub results : List Response

pub record RequestManager (Item Request Response : Type 0) : Type 0 where
  pub response_map : List (Item × Request)
  pub responses : List (Request × Info Response)
  pub payloads_count : ℕ

-- `deque(maxlen=n).append(x)` drops from the left.
unfoldable pub append_bounded {ℓ} : {A : Type ℓ} → ℕ → List A → A → List A
append_bounded n l x =
    if ltb (length l) n then l ++ x ∷ [] else drop (length l + 1 - n) (l ++ x ∷ [])

module _ {Item Request Response : Type 0} where
  unfoldable pub init : ℕ → RequestManager Item Request Response
  init payloads = record { response_map = []; responses = []; payloads_count = payloads }

  module _ (di : Discrete Item) where
    unfoldable pub add_request :
        RequestManager Item Request Response → Item → Request → RequestManager Item Request Response
    unfolding put
    add_request m item_id request_id = record m {
      response_map = put di item_id request_id m.response_map;
    }

    -- `response_map[request_id] = response_map.pop(item_id)`; `none` is the KeyError of `pop`.
    unfoldable pub overwrite_request :
        RequestManager Item Request Response
        → Item
        → Item
        → Option (RequestManager Item Request Response × Item)
    unfolding lookup put remove
    overwrite_request m item_id request_id = elim (lookup di item_id m.response_map) [
      | none ↦ none
      | some request ↦ some (
        record m { response_map = put di request_id request (remove di item_id m.response_map) },
        request_id,
      )
    ]

-- The entry of `defaultdict` for a key that is new.
abbrev pub no_info : {Response : Type 0} → Info Response
no_info = record { complete = false; results = [] }

module _ {Request Response : Type 0} where
  unfoldable pub info_of :
      Discrete Request → List (Request × Info Response) → Request → Info Response
  unfolding lookup
  info_of dr responses request = elim (lookup dr request responses) [ none ↦ no_info | some i ↦ i ]

  -- `all(info["complete"] for info in self.responses.values())`
  unfoldable pub all_complete : List (Request × Info Response) → Bool
  all_complete [] = true
  all_complete ((_, info) ∷ l) = info.complete && all_complete l

  -- `response_info is None or not response_info["complete"]`
  unfoldable pub is_open : Discrete Request → List (Request × Info Response) → Request → Bool
  unfolding lookup
  is_open dr responses request = elim (lookup dr request responses) [
    | none ↦ true
    | some info ↦ not info.complete
  ]

module _ {Item Request Response : Type 0} where
  -- `none` is the KeyError of `response_map[item_id]`.
  unfoldable pub add_response :
      Discrete Item
      → Discrete Request
      → RequestManager Item Request Response
      → Item
      → Response
      → Bool
      → Option (RequestManager Item Request Response)
  unfolding lookup put info_of append_bounded
  add_response di dr m item_id response complete = elim (lookup di item_id m.response_map) [
    | none ↦ none
    | some request ↦
        let info : Info Response = record {
          complete = complete;
          results = append_bounded 100 (info_of dr m.responses request).results response;
        } in
        some (record m { responses = put dr request info m.responses })
  ]

  unfoldable pub is_complete : RequestManager Item Request Response → Bool
  unfolding all_complete
  is_complete m = all_complete m.responses && (length m.responses == m.payloads_count)

  unfoldable pub get_results : RequestManager Item Request Response → List (Request × List Response)
  get_results m = map (λ e. (e.0, e.1.results)) m.responses

  -- The items of `response_map`, in order, whose request is open.
  unfoldable pub open_items :
      Discrete Request → List (Request × Info Response) → List (Item × Request) → List Item
  unfolding is_open
  open_items dr responses [] = []
  open_items dr responses ((item, request) ∷ l) =
      let rest = open_items dr responses l in
      if is_open dr responses request then item ∷ rest else rest

  unfoldable pub unresponded : Discrete Request → RequestManager Item Request Response → List Item
  unfolding open_items
  unresponded dr m = open_items dr m.responses m.response_map
