-- ===== src/Signing/Nonces/Counting.antt =====
-- The nonces that `get_account_next_index` (async_substrate_interface/async_substrate.py) gives out.
use async_substrate_interfac.Prelude.{
  ℕ, zero, suc, ◌+◌, ◌≡◌, refl, ap, ◌∙◌, sym, String, Bool, true, false, Option, none, some, List,
  [], ◌∷◌, length, arith, Bool-cases, Option-cases, inl, inr, ◌⊎◌, ◌≢◌, if◌then◌else◌, ite,
}
use async_substrate_interfac.Prelude.Dict.{lookup, lookup-put}
use async_substrate_interfac.Prelude.Strings.{String-discrete}
use async_substrate_interfac.Signing.Nonces.{
  Node, Client, Result, note_methods, look_up_method, methods_answer, supports_rpc_method,
  index_answer, fetch_next_index, keep_nonce, next_nonce, next_index_if, get_account_next_index,
  mine, answers,
}

unfoldable pub up_from : ℕ → ℕ → List ℕ
up_from n zero = []
up_from n (suc k) = n ∷ up_from (n + 1) k

module _ (N : Node) where
  open N use {World, Error}

  abbrev nonce_of : String → Client N → Option ℕ
  nonce_of account s = lookup String-discrete account s.nonces

  look_up_same : (name : String) (s : Client N) → (look_up_method N name s).0.nonces ≡ s.nonces
  unfolding look_up_method
  look_up_same name s = elim (Option-cases s.methods) [
    | inl e ↦ rw (e, look_up_method) refl
    | inr (l, e) ↦ rw (e, look_up_method) refl
  ]

  methods_same :
      (name : String) (s : Client N) (a : World × (Error ⊎ Option (Option (List String))))
      → (methods_answer N name s a).0.nonces ≡ s.nonces
  unfolding methods_answer note_methods
  methods_same name s (w, inl e) = refl
  methods_same name s (w, inr none) = look_up_same name (record s { world = w })
  methods_same name s (w, inr (some none)) =
      look_up_same name (record s { world = w; methods = some [] })
  methods_same name s (w, inr (some (some l))) =
      look_up_same name (record s { world = w; methods = some l })

  fetch_same : (s : Client N) (a : World × (Error ⊎ ℕ)) → (index_answer N s a).0.nonces ≡ s.nonces
  unfolding index_answer
  fetch_same s (w, inl e) = refl
  fetch_same s (w, inr n) = refl

  same_nonces : (name : String) (s : Client N) → (supports_rpc_method N name s).0.nonces ≡ s.nonces
  unfolding supports_rpc_method
  same_nonces name s = methods_same name s (N.rpc_methods s.world)

  -- Where the nonce kept for `account` stood and where it stands after a call that uses the cache:
  -- an answer is the nonce that is kept from then on, one above the nonce before it.
  abbrev Advanced : String → Option ℕ → Result N ℕ → Type 0
  Advanced account before (s, inl e) = nonce_of account s ≡ before
  Advanced account before (s, inr n) =
      (nonce_of account s ≡ some n) × ((m : ℕ) → before ≡ some m → n ≡ m + 1)

  keep_advances :
      (account : String) (before : Option ℕ) (r : Result N ℕ)
      → nonce_of account r.0 ≡ before
      → ((n m : ℕ) → r.1 ≡ inr n → before ≡ some m → n ≡ m + 1)
      → Advanced account before (keep_nonce N account r)
  unfolding keep_nonce
  keep_advances account before (s, inl e) same up = same
  keep_advances account before (s, inr n) same up =
      (ground (arith, lookup-put String-discrete account n s.nonces account), λ m e. up n m refl e)

  next_advances :
      (account : String) (s : Client N)
      → Advanced account (nonce_of account s) (next_nonce N account s)
  unfolding next_nonce
  next_advances account s = elim (Option-cases (nonce_of account s)) [
    | inl e ↦
        rw (e, next_nonce)
          (keep_advances account none (fetch_next_index N account s)
            (unfold fetch_next_index in rw fetch_same e) (λ n m _ h. absurd (cc h)))
    | inr (n, e) ↦
        rw (e, next_nonce)
          (keep_advances account (some n) (s, inr (n + 1)) e (λ k m h h'. cc (h, h')))
  ]

  keep_other :
      (account a : String)
      → account ≢ a
      → (r : Result N ℕ) → nonce_of account (keep_nonce N a r).0 ≡ nonce_of account r.0
  unfolding keep_nonce
  keep_other account a other (s, inl e) = refl
  keep_other account a other (s, inr n) =
      ground (arith, other, lookup-put String-discrete a n s.nonces account)

  other_kept :
      (account a : String) (s : Client N)
      → account ≢ a
      → nonce_of account (next_nonce N a s).0 ≡ nonce_of account s
  unfolding next_nonce fetch_next_index
  other_kept account a s other =
      let keep : (r : Result N ℕ) → nonce_of account (keep_nonce N a r).0 ≡ nonce_of account r.0 =
        keep_other account a other in
      elim (Option-cases (nonce_of a s)) [
        | inl e ↦
            rw (e, next_nonce)
              (keep (index_answer N s (N.account_next_index s.world a))
                ∙ ap (lookup String-discrete account) (fetch_same s _))
        | inr (n, e) ↦ rw (e, next_nonce) (keep (s, inr (n + 1)))
      ]

  -- A call advances the nonce of its account if it uses the cache, and else leaves all nonces.
  abbrev Moves : String → String → Bool → Client N → Result N ℕ → Type 0
  Moves account a use_cache s r =
      ((account ≡ a) × (use_cache ≡ true) → Advanced account (nonce_of account s) r)
      × ((account ≢ a) ⊎ (use_cache ≡ false) → nonce_of account r.0 ≡ nonce_of account s)

  next_index_if-Moves :
      (account a : String) (use_cache : Bool) (s : Client N) (r : Result N Bool)
      → r.0.nonces ≡ s.nonces
      → Moves account a use_cache s (next_index_if N a use_cache r)
  unfolding next_index_if fetch_next_index
  next_index_if-Moves account a use_cache s (s', inl e) same =
      (λ _. ap (lookup String-discrete account) same, λ _. ap (lookup String-discrete account) same)
  next_index_if-Moves account a use_cache s (s', inr false) same =
      (λ _. ap (lookup String-discrete account) same, λ _. ap (lookup String-discrete account) same)
  next_index_if-Moves account a true s (s', inr true) same =
      let at : nonce_of account s' ≡ nonce_of account s =
        ap (lookup String-discrete account) same in
      (
        λ h. rw (sym at, sym h.0) (next_advances account s'),
        λ h. elim h [ inl other ↦ other_kept account a s' other ∙ at | inr off ↦ absurd (cc off) ],
      )
  next_index_if-Moves account a false s (s', inr true) same =
      (λ h. absurd (cc h.1), λ _. ap (lookup String-discrete account) (fetch_same s' _ ∙ same))

  -- Nonces that follow each other, from the one after `before` where there is one.
  abbrev pub Follows : Option ℕ → List ℕ → Type 0
  Follows none l = (m : ℕ) × (l ≡ up_from m (length l))
  Follows (some n) l = l ≡ up_from (n + 1) (length l)

  Follows-nil : (before : Option ℕ) → Follows before []
  unfolding up_from
  Follows-nil none = (0, refl)
  Follows-nil (some n) = refl

  Follows-cons :
      (before : Option ℕ) (n : ℕ) (l : List ℕ)
      → ((m : ℕ) → before ≡ some m → n ≡ m + 1)
      → Follows (some n) l
      → Follows before (n ∷ l)
  unfolding up_from
  Follows-cons none n l up h = (n, ap (λ x. n ∷ x) h)
  Follows-cons (some m) n l up h = rw (sym (up m refl)) (ap (λ x. n ∷ x) h)

  Follows-mine :
      (account a : String) (use_cache : Bool) (s : Client N) (r : Result N ℕ) (rest : List ℕ)
      → Moves account a use_cache s r
      → Follows (nonce_of account r.0) rest
      → Follows (nonce_of account s) (mine N account a use_cache r.1 rest)
  unfolding mine
  Follows-mine account a use_cache s (s', inl e) rest moves h = elim (String-discrete account a) [
    | no other ↦ rw (sym (moves.1 (inl other))) h
    | yes same ↦ elim (Bool-cases use_cache) [
      | inl on ↦ rw (sym (moves.0 (same, on))) h
      | inr off ↦ rw (sym (moves.1 (inr off))) h
    ]
  ]
  Follows-mine account a use_cache s (s', inr n) rest moves h =
      elim (String-discrete account a)
        as (λ d. Follows (nonce_of account s) (ite d (if use_cache then n ∷ rest else rest) rest)) [
          | no other ↦ rw (sym (moves.1 (inl other))) h
          | yes same ↦ elim (Bool-cases use_cache) [
            | inl on ↦
                let (at, up) = moves.0 (same, on) in
                rw on (Follows-cons (nonce_of account s) n rest up (rw at at h))
            | inr off ↦ rw (off, sym (moves.1 (inr off))) h
          ]
        ]

  -- However calls for several accounts come one after the other, and whichever of them fail or go
  -- past the cache, the nonces that one account is given from the cache count up by one, from the
  -- nonce after the one that is kept for it, or from the node's where none is kept.
  pub get_account_next_index-Follows :
      (account : String) (calls : List (String × Bool)) (s : Client N)
      → Follows (lookup String-discrete account s.nonces) (answers N account calls s)
  unfolding answers
  get_account_next_index-Follows account [] s = Follows-nil (nonce_of account s)
  get_account_next_index-Follows account ((a, use_cache) ∷ calls) s =
      let moves =
        next_index_if-Moves account a use_cache s (supports_rpc_method N "account_nextIndex" s)
          (same_nonces "account_nextIndex" s) in
      let next = get_account_next_index N a use_cache s in
      Follows-mine account a use_cache s next (answers N account calls next.0)
        (unfold get_account_next_index in moves)
        (get_account_next_index-Follows account calls next.0)
