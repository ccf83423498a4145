-- ===== src/Signing/Nonces.antt =====
-- `supports_rpc_method` and `get_account_next_index` of AsyncSubstrateInterface in
-- async_substrate_interface/async_substrate.py. The lock is held while the nonces are read and
-- written, no other task runs between its release and the return, and what is asked before it
-- changes no nonce: so calls by several tasks come one after the other.
pub mod Counting
use async_substrate_interfac.Prelude.{
  ℕ, zero, suc, ◌+◌, ◌≡◌, refl, ap, ◌∙◌, sym, String, Bool, true, false, Option, none, some, List,
  [], ◌∷◌, length, arith, Bool-cases, Option-cases, inl, inr, ◌⊎◌, ◌≢◌, if◌then◌else◌, ite,
}
use async_substrate_interfac.Prelude.Dict.{lookup, put, lookup-put}
use async_substrate_interfac.Prelude.Strings.{String-discrete}

-- What a node answers to `rpc_methods`, none for a result that is empty and for methods that are
-- missing, and to `account_nextIndex`.
pub record Node : Type 1 where
  pub World : Type 0
  pub Error : Type 0
  pub rpc_methods : World → World × (Error ⊎ Option (Option (List String)))
  pub account_next_index : World → String → World × (Error ⊎ ℕ)

pub data Failure (Error : Type 0) : Type 0 where
  request_failed : Error → Failure Error
  type_error : Failure Error
  not_supported : Failure Error

unfoldable pub contains_name : String → List String → Bool
unfolding String-discrete
contains_name n [] = false
contains_name n (m ∷ l) = ite (String-discrete n m) true (contains_name n l)

module _ (N : Node) where
  open N use {World, Error}

  -- `_nonces`, and the entry `rpc_methods` of `config`, which is None at first.
  pub record Client : Type 0 where
    pub world : World
    pub nonces : List (String × ℕ)
    pub methods : Option (List String)

  abbrev pub Result : Type 0 → Type 0
  Result A = Client × (Failure Error ⊎ A)

  unfoldable pub note_methods : Option (Option (List String)) → Client → Client
  note_methods none s = s
  note_methods (some none) s = record s { methods = some [] }
  note_methods (some (some l)) s = record s { methods = some l }

  unfoldable pub look_up_method : String → Client → Result Bool
  unfolding contains_name
  look_up_method name s = elim s.methods [
    | none ↦ (s, inl type_error)
    | some l ↦ (s, inr (contains_name name l))
  ]

  unfoldable pub methods_answer :
      String → Client → World × (Error ⊎ Option (Option (List String))) → Result Bool
  unfolding note_methods look_up_method
  methods_answer name s (w, inl e) = (record s { world = w }, inl (request_failed e))
  methods_answer name s (w, inr result) =
      look_up_method name (note_methods result (record s { world = w }))

  unfoldable pub supports_rpc_method : String → Client → Result Bool
  unfolding methods_answer
  supports_rpc_method name s = methods_answer name s (N.rpc_methods s.world)

  unfoldable pub index_answer : Client → World × (Error ⊎ ℕ) → Result ℕ
  index_answer s (w, inl e) = (record s { world = w }, inl (request_failed e))
  index_answer s (w, inr n) = (record s { world = w }, inr n)

  -- `_get_account_next_index`: `rpc_request` has raised where the response has an error.
  unfoldable pub fetch_next_index : String → Client → Result ℕ
  unfolding index_answer
  fetch_next_index account s = index_answer s (N.account_next_index s.world account)

  unfoldable pub keep_nonce : String → Result ℕ → Result ℕ
  keep_nonce account (s, inl e) = (s, inl e)
  keep_nonce account (s, inr n) =
      (record s { nonces = put String-discrete account n s.nonces }, inr n)

  -- What is done under the lock.
  unfoldable pub next_nonce : String → Client → Result ℕ
  unfolding fetch_next_index keep_nonce
  next_nonce account s = elim (lookup String-discrete account s.nonces) [
    | none ↦ keep_nonce account (fetch_next_index account s)
    | some n ↦ keep_nonce account (s, inr (n + 1))
  ]

  unfoldable pub next_index_if : String → Bool → Result Bool → Result ℕ
  unfolding fetch_next_index next_nonce
  next_index_if account use_cache (s, inl e) = (s, inl e)
  next_index_if account use_cache (s, inr false) = (s, inl not_supported)
  next_index_if account use_cache (s, inr true) =
      if use_cache then next_nonce account s else fetch_next_index account s

  unfoldable pub get_account_next_index : String → Bool → Client → Result ℕ
  unfolding supports_rpc_method next_index_if
  get_account_next_index account use_cache s =
      next_index_if account use_cache (supports_rpc_method "account_nextIndex" s)

  -- The nonces that calls for `account` answer from the cache, one call after the other; a call is
  -- an account with `use_cache`.
  unfoldable pub mine : String → String → Bool → Failure Error ⊎ ℕ → List ℕ → List ℕ
  mine account a use_cache (inl e) rest = rest
  mine account a use_cache (inr n) rest =
      ite (String-discrete account a) (if use_cache then n ∷ rest else rest) rest

  unfoldable pub answers : String → List (String × Bool) → Client → List ℕ
  unfolding mine get_account_next_index
  answers account [] s = []
  answers account ((a, use_cache) ∷ calls) s =
      let (s', r) = get_account_next_index a use_cache s in
      mine account a use_cache r (answers account calls s')
