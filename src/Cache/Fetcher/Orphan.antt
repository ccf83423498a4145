-- ===== src/Cache/Fetcher/Orphan.antt =====
-- A future that nothing will set: what becomes of those that wait for it.
use async_substrate_interfac.Prelude.{
  ℕ, ◌≡◌, ◌≢◌, refl, sym, ap, ◌∙◌, ◌⊎◌, inl, inr, Bool, Bool-cases, Option-cases, Option, none,
  some, if_pos, if_neg, ℕ_discrete, arith,
}
use async_substrate_interfac.Prelude.Dict.{lookup, put, lookup-remove}
use async_substrate_interfac.Cache.Lru.{get, set}
use async_substrate_interfac.Cache.Fetcher.{
  Future, pending, result, is_cancelled, Ended, gives, fails, interrupted, Place, idle, fetching,
  waiting, returned, raised, cancelled, invalid_state, Fetcher, World, is_pending, cancel, landed,
  wake, new_future, join, look, begin, set_result, finish, assign, Step, begins, finishes, wakes,
  is_stopped, Reach, here, next,
}
use async_substrate_interfac.Cache.Fetcher.Single.{IsSingle, fetching_cases, wake-Free}
use async_substrate_interfac.Cache.Fetcher.Lost.{
  IsLost, new_future-IsLost, landed-IsLost, set-IsLost, cancel-IsLost, with_cache-IsLost,
}

number_of :
    {Key Value Error : Type 0} {k k' : Key} {f g : ℕ}
    → ◌≡◌ {A = Place Key Value Error} (fetching k f) (fetching k' g)
    → f ≡ g
number_of e = cc e

module _ {Key Value Error : Type 0} (dk : Discrete Key) where
  -- A task waits for the future, or has been cancelled.
  abbrev pub IsStuck : Key → ℕ → Place Key Value Error → Type 0
  IsStuck k f p = (p ≡ waiting k f) ⊎ (p ≡ cancelled)

  -- The future is lost, no task is in the method for it, and a task is stuck with it.
  pub record IsOrphan (x : ℕ) (key : Key) (f : ℕ) (w : World Key Value Error) : Type 0 where
    pub lost : IsLost dk f w.fetcher
    pub unowned : (t : ℕ) (k : Key) → w.tasks t ≢ fetching k f
    pub stuck : IsStuck key f (w.tasks x)

  -- A step that leaves the future lost, and the task where it is if it is its step.
  moved :
      (x : ℕ) (key : Key) (f : ℕ) (w : World Key Value Error) (t : ℕ) (s : Fetcher Key Value)
      (p : Place Key Value Error)
      → IsOrphan x key f w
      → IsLost dk f s
      → ((k : Key) → p ≢ fetching k f)
      → (x ≡ t → IsStuck key f p)
      → IsOrphan x key f (assign w t (s, p))
  unfolding assign
  moved x key f w t s p i lost free own = record {
    lost = lost;
    unowned = λ y k e. elim (fetching_cases dk w t y s p k f e) [
      | inl (_, now) ↦ free k now
      | inr (_, old) ↦ i.unowned y k old
    ];
    stuck = elim (ℕ_discrete x t) [
      | yes same ↦ rw (if_pos (ℕ_discrete x t) same) (own same)
      | no other ↦ rw (if_neg (ℕ_discrete x t) other) i.stuck
    ];
  }

  at_start : (key : Key) (f : ℕ) (p : Place Key Value Error) → IsStuck key f p → p ≡ idle → ⊥
  at_start key f p (inl w) e = cc (w, e)
  at_start key f p (inr c) e = cc (c, e)

  in_method :
      (key k : Key) (f g : ℕ) (p : Place Key Value Error) → IsStuck key f p → p ≡ fetching k g → ⊥
  in_method key k f g p (inl w) e = cc (w, e)
  in_method key k f g p (inr c) e = cc (c, e)

  look-IsOrphan :
      (x : ℕ) (key : Key) (f : ℕ) (w : World Key Value Error) (t : ℕ) (s : Fetcher Key Value)
      (k : Key) (o : Option Value)
      → IsOrphan x key f w
      → IsLost dk f s
      → w.tasks t ≡ idle
      → IsOrphan x key f (assign w t (look dk s k o))
  unfolding look join
  look-IsOrphan x key f w t s k (some v) i lost at =
      moved x key f w t s (returned v) i lost (λ k e. absurd (cc e))
        (λ same. absurd (at_start key f (w.tasks x) i.stuck (ap w.tasks same ∙ at)))
  look-IsOrphan x key f w t s k none i lost at =
      let own = λ (same : x ≡ t). at_start key f (w.tasks x) i.stuck (ap w.tasks same ∙ at) in
      elim (Option-cases (lookup dk k s.inflight)) [
        | inl absent ↦
            rw (join, absent)
              (moved x key f w t (new_future dk s k) (fetching k s.next_future) i
                (new_future-IsLost dk f s k lost)
                (λ k e. absurd (omega (arith, lost.below, number_of e)))
                (λ same. absurd (own same)))
        | inr (g, there) ↦
            rw (join, there)
              (moved x key f w t s (waiting k g) i lost (λ k e. absurd (cc e))
                (λ same. absurd (own same)))
      ]

  finish-IsOrphan :
      (x : ℕ) (key : Key) (f : ℕ) (w : World Key Value Error) (t : ℕ) (k : Key) (g : ℕ)
      (e : Ended Value Error)
      → IsOrphan x key f w
      → w.tasks t ≡ fetching k g
      → IsOrphan x key f (assign w t (finish dk w.fetcher k g e))
  unfolding finish set_result landed
  finish-IsOrphan x key f w t k g interrupted i at =
      moved x key f w t (landed dk w.fetcher k) cancelled i (landed-IsLost dk f w.fetcher k i.lost)
        (λ k e. absurd (cc e))
        (λ same. absurd (in_method key k f g (w.tasks x) i.stuck (ap w.tasks same ∙ at)))
  finish-IsOrphan x key f w t k g (fails u) i at =
      moved x key f w t (cancel (landed dk w.fetcher k) g) (raised u) i
        (cancel-IsLost dk f g (landed dk w.fetcher k) (landed-IsLost dk f w.fetcher k i.lost))
        (λ k e. absurd (cc e))
        (λ same. absurd (in_method key k f g (w.tasks x) i.stuck (ap w.tasks same ∙ at)))
  finish-IsOrphan x key f w t k g (gives v) i at =
      let c = set dk w.fetcher.cache k v in
      let s : Fetcher Key Value = record w.fetcher { cache = c } in
      let lost = with_cache-IsLost dk f w.fetcher c i.lost in
      let own = λ (same : x ≡ t). in_method key k f g (w.tasks x) i.stuck (ap w.tasks same ∙ at) in
      let apart : g ≢ f = λ same. i.unowned t k (at ∙ ap (λ n. fetching k n) same) in
      elim (Bool-cases (is_pending (lookup ℕ_discrete g s.futures))) [
        | inl is_open ↦
            rw (finish, set_result, is_open)
              (moved x key f w t
                (landed dk (record s { futures = put ℕ_discrete g (result v) s.futures }) k)
                (returned v) i (landed-IsLost dk f _ k (set-IsLost dk f g v s apart lost))
                (λ k e. absurd (cc e)) (λ same. absurd (own same)))
        | inr is_done ↦
            rw (finish, set_result, is_done)
              (moved x key f w t (landed dk s k) invalid_state i (landed-IsLost dk f s k lost)
                (λ k e. absurd (cc e)) (λ same. absurd (own same)))
      ]

  -- What a task that waits for a future without a result comes to.
  wake-IsStuck :
      (key : Key) (f : ℕ) (o : Option (Future Value))
      → ((v : Value) → o ≢ some (result v))
      → IsStuck key f (wake (waiting key f) o)
  unfolding wake
  wake-IsStuck key f none unset = inl refl
  wake-IsStuck key f (some pending) unset = inl refl
  wake-IsStuck key f (some is_cancelled) unset = inr refl
  wake-IsStuck key f (some (result v)) unset = absurd (unset v refl)

  wake-own :
      (key k : Key) (f g : ℕ) (s : Fetcher Key Value) (p : Place Key Value Error)
      → IsStuck key f p
      → IsLost dk f s
      → p ≡ waiting k g
      → IsStuck key f (wake (waiting k g) (lookup ℕ_discrete g s.futures))
  wake-own key k f g s p (inr c) lost at = absurd (cc (c, at))
  wake-own key k f g s p (inl w) lost at =
      let same : waiting key f ≡ waiting k g = sym w ∙ at in
      let keys : key ≡ k = cc same in
      let numbers : f ≡ g = cc same in
      rw (sym keys, sym numbers) (wake-IsStuck key f (lookup ℕ_discrete f s.futures) lost.unset)

  interrupted-IsOrphan :
      (x : ℕ) (key : Key) (f : ℕ) (w : World Key Value Error) (t : ℕ) (k : Key)
      → IsSingle dk w
      → w.tasks t ≡ fetching k f
      → w.tasks x ≡ waiting key f
      → IsOrphan x key f (assign w t (finish dk w.fetcher k f interrupted))
  unfolding finish landed assign
  interrupted-IsOrphan x key f w t k i at waits =
      let there = i.owner t k f at in
      record {
        lost = record {
          absent = λ k' e.
              ground (arith, lookup-remove dk k w.fetcher.inflight k', i.sound.distinct k' k f);
          below = i.sound.below k f there;
          unset = λ v. i.sound.unset k f v there;
        };
        unowned = λ y k' e.
            elim (fetching_cases dk w t y (landed dk w.fetcher k) cancelled k' f e) [
              | inl (_, now) ↦ cc now
              | inr (other, old) ↦
                  let same : k' ≡ k = i.sound.distinct k' k f (i.owner y k' f old) there in
                  other (i.unique y t k f f (rw (sym same) old) at)
            ];
        stuck = elim (ℕ_discrete x t) [
          | yes same ↦ absurd (cc (waits, at, ap w.tasks same))
          | no other ↦ rw (if_neg (ℕ_discrete x t) other) (inl waits)
        ];
      }

  module _ (truthy : Value → Bool) (x : ℕ) (key : Key) (f : ℕ) where
    step-IsOrphan :
        (w w' : World Key Value Error)
        → Step dk truthy w w'
        → IsOrphan x key f w
        → IsOrphan x key f w'
    unfolding begin
    step-IsOrphan w w' (begins t k at p) i = rw p (
        look-IsOrphan x key f w t (record w.fetcher { cache = (get dk w.fetcher.cache k).0 }) k _ i
          (with_cache-IsLost dk f w.fetcher _ i.lost) at)
    step-IsOrphan w w' (finishes t k g e at p) i = rw p (finish-IsOrphan x key f w t k g e i at)
    step-IsOrphan w w' (wakes t k g at p) i = rw p (
        moved x key f w t w.fetcher _ i i.lost
          (λ k' e. wake-Free dk k g (lookup ℕ_discrete g w.fetcher.futures) k' f e)
          (λ same. wake-own key k f g w.fetcher (w.tasks x) i.stuck i.lost (ap w.tasks same ∙ at)))
    step-IsOrphan w w' (is_stopped t k g at p) i = rw p (
        moved x key f w t (cancel w.fetcher g) cancelled i (cancel-IsLost dk f g w.fetcher i.lost)
          (λ k' e. absurd (cc e)) (λ same. inr refl))

    reach-IsOrphan :
        (w w' : World Key Value Error)
        → Reach dk truthy w w'
        → IsOrphan x key f w
        → IsOrphan x key f w'
    reach-IsOrphan w w' here i = i
    reach-IsOrphan w w' (next r step) i = step-IsOrphan _ w' step (reach-IsOrphan w _ r i)

    -- Where the task in the method is cancelled, a task that waits for its future never gets a result:
    -- in all that follows it waits for the future, or has been cancelled.
    pub reach-IsStuck :
        (w w' : World Key Value Error) (t : ℕ) (k : Key)
        → IsSingle dk w
        → w.tasks t ≡ fetching k f
        → w.tasks x ≡ waiting key f
        → Reach dk truthy (assign w t (finish dk w.fetcher k f interrupted)) w'
        → IsStuck key f (w'.tasks x)
    reach-IsStuck w w' t k i at waits r =
        (reach-IsOrphan _ w' r (interrupted-IsOrphan x key f w t k i at waits)).stuck
