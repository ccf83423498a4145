-- ===== src/Pages.antt =====
-- `query_map` of AsyncSubstrateInterface and class AsyncQueryMapResult, both of
-- async_substrate_interface/async_substrate.py: the pages that a query of a map is read in. Keys, the
-- changes that a node answers with, and the records that they are decoded to are parameters.
pub mod Paging
pub mod Iterate
pub mod Whole
mod Tests
use async_substrate_interfac.Prelude.{
  ℕ, zero, suc, ◌-◌, Bool, true, false, Option, none, some, List, [], ◌∷◌, ◌++◌, ltb, ◌==◌,
  if◌then◌else◌, length, take, drop,
}

pub data Fault : Type 0 where
  value_error state_discarded request_exception : Fault

-- A result, or an exception.
pub data Result (A : Type 0) : Type 0 where
  raise : Fault → Result A
  done : A → Result A

infixl 5 ◌>>=◌
abbrev pub ◌>>=◌ : {A B : Type 0} → Result A → (A → Result B) → Result B
raise e >>= f = raise e
done a >>= f = f a

-- The first of the responses to a payload: groups of changes, an error, with whether it says that the
-- state is discarded, or neither.
pub data Reply (Change : Type 0) : Type 0 where
  groups : List (List Change) → Reply Change
  error : Bool → Reply Change
  neither : Reply Change

-- What `query_map` asks of the node at a block, and the decoder of changes. `get_keys_paged` has the
-- size of a page and the key to start after; `request_all` are the responses to a list of batches.
pub record Node : Type 1 where
  pub Key : Type 0
  pub Change : Type 0
  pub Item : Type 0
  pub prefix : Key
  pub get_keys_paged : ℕ → Key → Result (List Key)
  pub get_keys : Result (List Key)
  pub query_storage_at : List Key → Result (List (List Change))
  pub request_all : List (List Key) → Result (List (Reply Change))
  pub decode_query_map : List Change → Result (List Item)

-- `changes.extend(result_group["changes"])` for every group.
unfoldable pub concat : {A : Type 0} → List (List A) → List A
concat [] = []
concat (x ∷ l) = x ++ concat l

unfoldable pub last : {A : Type 0} → List A → Option A
last [] = none
last (x ∷ []) = some x
last (x ∷ y ∷ l) = last (y ∷ l)

-- `[keys[i : i + n] for i in range(0, len(keys), n)]`, with fuel for the batches.
unfoldable pub batches_with : {A : Type 0} → ℕ → ℕ → List A → List (List A)
batches_with zero n l = []
batches_with (suc fuel) n [] = []
batches_with (suc fuel) n (x ∷ l) = take n (x ∷ l) ∷ batches_with fuel n (drop n (x ∷ l))

-- `range` refuses the step 0.
unfoldable pub batches : {A : Type 0} → ℕ → List A → Result (List (List A))
unfolding batches_with
batches n l = if n == 0 then raise value_error else done (batches_with (length l) n l)

-- The changes of the responses, up to the first that is none.
unfoldable pub changes_of : {Change : Type 0} → List (Reply Change) → Result (List Change)
unfolding concat
changes_of [] = done []
changes_of (error true ∷ l) = raise state_discarded
changes_of (error false ∷ l) = raise request_exception
changes_of (neither ∷ l) = raise request_exception
changes_of (groups g ∷ l) = changes_of l >>= λ rest. done (concat g ++ rest)

-- A page is no larger than the maximum of results.
unfoldable pub limited : Option ℕ → ℕ → ℕ
limited none page_size = page_size
limited (some n) page_size = if ltb n page_size then n else page_size

module _ (N : Node) where
  open N use {
    Key, Change, Item, prefix, get_keys_paged, get_keys, query_storage_at, request_all,
    decode_query_map,
  }

  -- The arguments of `query_map` that the control depends on; of the parameters of the storage function
  -- and of their types, how many there are.
  pub record Query : Type 0 where
    pub params : ℕ
    pub param_types : ℕ
    pub max_results : Option ℕ
    pub start_key : Option Key
    pub page_size : ℕ
    pub fully_exhaust : Bool

  -- AsyncQueryMapResult: `buffer` is what is left of the iterator `_buffer`.
  pub record QueryMapResult : Type 0 where
    pub records : List Item
    pub query : Query
    pub last_key : Option Key
    pub loading_complete : Bool
    pub buffer : List Item

  unfoldable pub page_size_of : Query → ℕ
  unfolding limited
  page_size_of q = limited q.max_results q.page_size

  unfoldable pub start_of : Option Key → Key
  start_of none = prefix
  start_of (some k) = k

  unfoldable pub keys_of : Query → Result (List Key)
  unfolding start_of page_size_of
  keys_of q =
      if q.fully_exhaust then get_keys else get_keys_paged (page_size_of q) (start_of q.start_key)

  unfoldable pub changes_at : Query → List Key → Result (List Change)
  unfolding concat batches changes_of page_size_of
  changes_at q keys =
      if q.fully_exhaust
      then (batches (page_size_of q) keys >>= λ b. request_all b >>= λ r. changes_of r)
      else (query_storage_at keys >>= λ g. done (concat g))

  unfoldable pub items_of : Query → List Key → Result (List Item)
  unfolding changes_at
  items_of q [] = done []
  items_of q (k ∷ l) = changes_at q (k ∷ l) >>= λ c. decode_query_map c

  unfoldable pub result_of : Query → List Item → Option Key → QueryMapResult
  unfolding page_size_of
  result_of q items last_key = record {
    records = items;
    query = record q { page_size = page_size_of q };
    last_key = last_key;
    loading_complete = false;
    buffer = items;
  }

  unfoldable pub query_map : Query → Result QueryMapResult
  unfolding keys_of items_of result_of last
  query_map q =
      if q.param_types == 0
      then raise value_error
      else if ltb (q.param_types - 1) q.params
      then raise value_error
      else (keys_of q >>= λ keys. items_of q keys >>= λ items. done (result_of q items (last keys)))

  -- `retrieve_next_page`, which calls `query_map` with its own arguments and `fully_exhaust` unset.
  unfoldable pub retrieve_next_page :
      QueryMapResult → Option Key → Result (QueryMapResult × List Item)
  retrieve_next_page r start_key =
      query_map (record r.query { start_key = start_key; fully_exhaust = false }) >>= λ page. done (
        record r {
          loading_complete =
              if ltb (length page.records) r.query.page_size then true else r.loading_complete;
          last_key = page.last_key;
        },
        page.records,
      )

  -- `self.records.extend(next_page)`, and the first of the page.
  unfoldable pub take_page : QueryMapResult × List Item → QueryMapResult × Option Item
  take_page (r, []) = (record r { loading_complete = true }, none)
  take_page (r, x ∷ l) = (record r { records = r.records ++ x ∷ l; buffer = l }, some x)

  -- `__anext__`: no item is StopAsyncIteration.
  unfoldable pub next_from : QueryMapResult → List Item → Result (QueryMapResult × Option Item)
  unfolding retrieve_next_page take_page
  next_from r (x ∷ l) = done (record r { buffer = l }, some x)
  next_from r [] =
      if r.loading_complete
      then done (r, none)
      else (retrieve_next_page r r.last_key >>= λ p. done (take_page p))

  unfoldable pub next : QueryMapResult → Result (QueryMapResult × Option Item)
  unfolding next_from
  next r = next_from r r.buffer

  -- `async for`: the items that come and the result at the end, with fuel for them; `none` is the end
  -- of the fuel.
  unfoldable pub iterate : ℕ → QueryMapResult → Result (Option (List Item × QueryMapResult))
  unfolding next
  iterate zero r = done none
  iterate (suc n) r = elim (next r) [
    | raise e ↦ raise e
    | done p ↦ elim p.1 [
      | none ↦ done (some ([], p.0))
      | some x ↦ elim (iterate n p.0) [
        | raise e ↦ raise e
        | done o ↦ elim o [ none ↦ done none | some s ↦ done (some (x ∷ s.0, s.1)) ]
      ]
    ]
  ]
