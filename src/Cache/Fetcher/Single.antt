-- ===== src/Cache/Fetcher/Single.antt =====
-- One call of the method for each key at a time.
use async_substrate_interfac.Prelude.{
  ℕ, ◌≡◌, ◌≢◌, refl, sym, ◌∙◌, ◌⊎◌, inl, inr, Bool, Bool-cases, Option-cases, Option, none, some,
  if_pos, if_neg, ℕ_discrete, arith,
}
use async_substrate_interfac.Prelude.Dict.{lookup, put, remove, lookup-put, lookup-remove}
use async_substrate_interfac.Cache.Lru.{get, set}
use async_substrate_interfac.Cache.Fetcher.{
  Future, pending, result, is_cancelled, Ended, gives, fails, interrupted, Place, fetching, waiting,
  returned, raised, cancelled, invalid_state, Fetcher, World, is_pending, cancel, landed, wake,
  new_future, join, look, begin, set_result, finish, assign, Step, begins, finishes, wakes,
  is_stopped, Reach, here, next,
}
use async_substrate_interfac.Cache.Fetcher.Sound.{
  IsSound, new_future-IsSound, landed-IsSound, settled-IsSound, with_cache-IsSound, cancel-inflight,
  cancel-IsSound,
}

module _ {Key Value Error : Type 0} (dk : Discrete Key) where
  abbrev pub Free : Place Key Value Error → Type 0
  Free p = (k : Key) (f : ℕ) → p ≢ fetching k f

  -- The tasks in the method are those in flight, one for each key.
  pub record IsSingle (w : World Key Value Error) : Type 0 where
    pub sound : IsSound dk w.fetcher
    pub owner :
        (t : ℕ) (k : Key) (f : ℕ)
        → w.tasks t ≡ fetching k f
        → lookup dk k w.fetcher.inflight ≡ some f
    pub unique :
        (t t' : ℕ) (k : Key) (f f' : ℕ)
        → w.tasks t ≡ fetching k f
        → w.tasks t' ≡ fetching k f'
        → t ≡ t'

  pub fetching_cases :
      (w : World Key Value Error) (t x : ℕ) (s : Fetcher Key Value) (p : Place Key Value Error)
      (k : Key) (f : ℕ)
      → (assign w t (s, p)).tasks x ≡ fetching k f
      → ((x ≡ t) × (p ≡ fetching k f)) ⊎ ((x ≢ t) × (w.tasks x ≡ fetching k f))
  unfolding assign
  fetching_cases w t x s p k f e = elim (ℕ_discrete x t) [
    | yes same ↦ inl (same, sym (if_pos (ℕ_discrete x t) same p (w.tasks x)) ∙ e)
    | no other ↦ inr (other, sym (if_neg (ℕ_discrete x t) other p (w.tasks x)) ∙ e)
  ]

  -- A task that does not come to be in the method, where no task leaves it.
  kept :
      (w : World Key Value Error) (t : ℕ) (s : Fetcher Key Value) (p : Place Key Value Error)
      → IsSingle w
      → IsSound dk s
      → s.inflight ≡ w.fetcher.inflight
      → Free p
      → IsSingle (assign w t (s, p))
  unfolding assign
  kept w t s p i sound same free = record {
    sound = sound;
    owner = λ x k f e. elim (fetching_cases w t x s p k f e) [
      | inl (_, now) ↦ absurd (free k f now)
      | inr (_, old) ↦ rw same (i.owner x k f old)
    ];
    unique = λ x y k f g e h. elim (fetching_cases w t x s p k f e) [
      | inl (_, now) ↦ absurd (free k f now)
      | inr (_, old) ↦ elim (fetching_cases w t y s p k g h) [
        | inl (_, now) ↦ absurd (free k g now)
        | inr (_, older) ↦ i.unique x y k f g old older
      ]
    ];
  }

  -- A task that begins the method for a key that is not in flight.
  taken :
      (w : World Key Value Error) (t : ℕ) (s : Fetcher Key Value) (key : Key)
      → IsSingle w
      → IsSound dk s
      → s.inflight ≡ w.fetcher.inflight
      → lookup dk key s.inflight ≡ none
      → IsSingle (assign w t (new_future dk s key, fetching key s.next_future))
  unfolding assign new_future
  taken w t s key i sound same absent = record {
    sound = new_future-IsSound dk s key sound;
    owner = λ x k f e.
        elim (fetching_cases w t x (new_future dk s key) (fetching key s.next_future) k f e) [
          | inl (_, now) ↦ ground (arith, lookup-put dk key s.next_future s.inflight k)
          | inr (_, old) ↦
              let there : lookup dk k s.inflight ≡ some f = rw same (i.owner x k f old) in
              ground (arith, lookup-put dk key s.next_future s.inflight k)
        ];
    unique = λ x y k f g e h.
        elim (fetching_cases w t x (new_future dk s key) (fetching key s.next_future) k f e) [
          | inl (p, now) ↦
              elim (fetching_cases w t y (new_future dk s key) (fetching key s.next_future) k g h) [
                | inl (q, _) ↦ p ∙ sym q
                | inr (_, old) ↦ absurd (cc (i.owner y k g old, same, absent, now))
              ]
          | inr (_, old) ↦
              elim (fetching_cases w t y (new_future dk s key) (fetching key s.next_future) k g h) [
                | inl (_, now) ↦ absurd (cc (i.owner x k f old, same, absent, now))
                | inr (_, older) ↦ i.unique x y k f g old older
              ]
        ];
  }

  -- A task that leaves the method.
  released :
      (w : World Key Value Error) (t : ℕ) (key : Key) (f : ℕ) (s : Fetcher Key Value)
      (p : Place Key Value Error)
      → IsSingle w
      → w.tasks t ≡ fetching key f
      → IsSound dk s
      → s.inflight ≡ remove dk key w.fetcher.inflight
      → Free p
      → IsSingle (assign w t (s, p))
  unfolding assign
  released w t key f s p i held sound same free = record {
    sound = sound;
    owner = λ x k g e. elim (fetching_cases w t x s p k g e) [
      | inl (_, now) ↦ absurd (free k g now)
      | inr (other, old) ↦ elim (dk k key) [
        | yes p ↦ absurd (other (i.unique x t key g f (rw (sym p) old) held))
        | no n ↦
            rw (same, lookup-remove dk key w.fetcher.inflight k, if_neg (dk k key) n)
              (i.owner x k g old)
      ]
    ];
    unique = λ x y k g h e e'. elim (fetching_cases w t x s p k g e) [
      | inl (_, now) ↦ absurd (free k g now)
      | inr (_, old) ↦ elim (fetching_cases w t y s p k h e') [
        | inl (_, now) ↦ absurd (free k h now)
        | inr (_, older) ↦ i.unique x y k g h old older
      ]
    ];
  }

  look-IsSingle :
      (w : World Key Value Error) (t : ℕ) (s : Fetcher Key Value) (key : Key) (o : Option Value)
      → IsSingle w
      → IsSound dk s
      → s.inflight ≡ w.fetcher.inflight
      → IsSingle (assign w t (look dk s key o))
  unfolding look join
  look-IsSingle w t s key (some v) i sound same =
      kept w t s (returned v) i sound same (λ k f e. absurd (cc e))
  look-IsSingle w t s key none i sound same = elim (Option-cases (lookup dk key s.inflight)) [
    | inl absent ↦ rw (join, absent) (taken w t s key i sound same absent)
    | inr (f, there) ↦
        rw (join, there) (kept w t s (waiting key f) i sound same (λ k g e. absurd (cc e)))
  ]

  finish-IsSingle :
      (w : World Key Value Error) (t : ℕ) (key : Key) (f : ℕ) (e : Ended Value Error)
      → IsSingle w
      → w.tasks t ≡ fetching key f
      → IsSingle (assign w t (finish dk w.fetcher key f e))
  unfolding finish set_result landed
  finish-IsSingle w t key f interrupted i held =
      released w t key f (landed dk w.fetcher key) cancelled i held
        (landed-IsSound dk w.fetcher key i.sound) refl (λ k g e. absurd (cc e))
  finish-IsSingle w t key f (fails x) i held =
      released w t key f (cancel (landed dk w.fetcher key) f) (raised x) i held
        (cancel-IsSound dk (landed dk w.fetcher key) f (landed-IsSound dk w.fetcher key i.sound))
        (cancel-inflight dk (landed dk w.fetcher key) f) (λ k g e. absurd (cc e))
  finish-IsSingle w t key f (gives v) i held =
      let c = set dk w.fetcher.cache key v in
      let s : Fetcher Key Value = record w.fetcher { cache = c } in
      let sound = with_cache-IsSound dk w.fetcher c i.sound in
      elim (Bool-cases (is_pending (lookup ℕ_discrete f s.futures))) [
        | inl is_open ↦
            rw (finish, set_result, is_open)
              (released w t key f
                (landed dk (record s { futures = put ℕ_discrete f (result v) s.futures }) key)
                (returned v) i held
                (settled-IsSound dk s key f (result v) sound (i.owner t key f held)) refl
                (λ k g e. absurd (cc e)))
        | inr is_done ↦
            rw (finish, set_result, is_done)
              (released w t key f (landed dk s key) invalid_state i held
                (landed-IsSound dk s key sound) refl (λ k g e. absurd (cc e)))
      ]

  pub wake-Free :
      (key : Key) (f : ℕ) (o : Option (Future Value))
      → Free (wake {Error = Error} (waiting key f) o)
  unfolding wake
  wake-Free key f none k g e = absurd (cc e)
  wake-Free key f (some pending) k g e = absurd (cc e)
  wake-Free key f (some (result v)) k g e = absurd (cc e)
  wake-Free key f (some is_cancelled) k g e = absurd (cc e)

  module _ (truthy : Value → Bool) where
    pub step-IsSingle :
        (w w' : World Key Value Error) → Step dk truthy w w' → IsSingle w → IsSingle w'
    unfolding begin
    step-IsSingle w w' (begins t key at p) i = rw p (
        look-IsSingle w t (record w.fetcher { cache = (get dk w.fetcher.cache key).0 }) key _ i
          (with_cache-IsSound dk w.fetcher _ i.sound) refl)
    step-IsSingle w w' (finishes t key f e at p) i = rw p (finish-IsSingle w t key f e i at)
    step-IsSingle w w' (wakes t key f at p) i = rw p (
        kept w t w.fetcher _ i i.sound refl
          (wake-Free key f (lookup ℕ_discrete f w.fetcher.futures)))
    step-IsSingle w w' (is_stopped t key f at p) i = rw p (
        kept w t (cancel w.fetcher f) cancelled i (cancel-IsSound dk w.fetcher f i.sound)
          (cancel-inflight dk w.fetcher f) (λ k g e. absurd (cc e)))

    -- From a state in which no two tasks are in the method for the same key, and each has its key in
    -- flight with a future of its own that has no result, this stays so, whatever tasks call the fetcher
    -- and however they end or are cancelled.
    pub reach-IsSingle :
        (w w' : World Key Value Error) → Reach dk truthy w w' → IsSingle w → IsSingle w'
    reach-IsSingle w w' here i = i
    reach-IsSingle w w' (next r step) i = step-IsSingle _ w' step (reach-IsSingle w _ r i)
