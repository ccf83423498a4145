-- ===== src/Pages/Iterate.antt =====
-- The items that come when the result of a query of a map is iterated.
use async_substrate_interfac.Prelude.{
  ℕ, zero, suc, ◌+◌, ◌-◌, ◌≤◌, ◌<◌, ◌≡◌, refl, sym, ap, ◌∙◌, inl, inr, Bool, true, false,
  Bool-cases, none, some, List, [], ◌∷◌, ◌++◌, map, take, drop, length, ltb, if◌then◌else◌, arith,
}
use mathlib.Core.List.{append-nil, append_assoc}
use async_substrate_interfac.Prelude.Entries.{length-map}
use async_substrate_interfac.Prelude.Slices.{
  take-drop, length-take-drop, drop_short, map-append, take-nil, take_first, drop_first,
}
use async_substrate_interfac.Pages.{
  done, ◌>>=◌, Node, Query, QueryMapResult, last, page_size_of, start_of, result_of, query_map,
  retrieve_next_page, take_page, next_from, next, iterate,
}
use async_substrate_interfac.Pages.Paging.{Paged, IsMap, query_map-page}

-- A list that is not empty ends with its last item.
pub last-append :
    {A : Type 0} (x : A) (l : List A)
    → (k : A) × (xs : List A) × (last (x ∷ l) ≡ some k) × (x ∷ l ≡ xs ++ k ∷ [])
unfolding last
last-append x [] = (x, [], refl, refl)
last-append x (y ∷ l) =
    let (k, xs, found, split) = last-append y l in (k, x ∷ xs, found, ap (x ∷◌) split)

pub last-take :
    {A : Type 0} (n : ℕ) (x : A) (l : List A)
    → 1 ≤ n
    → (k : A) × (xs : List A) × (last (take n (x ∷ l)) ≡ some k) × (take n (x ∷ l) ≡ xs ++ k ∷ [])
last-take zero x l h = absurd (omega arith)
last-take (suc n) x l h = last-append x (take n l)

below : (m n : ℕ) → ltb m n ≡ true → m < n
below m n h = ground arith

same : (b : Bool) → (if b then true else false) ≡ b
same true = refl
same false = refl

module _ (N : Node) (P : Paged N) where
  open N use {Key, Item}
  open P use {keys_after, item_of}

  -- The keys `ys` are those left to read: none when loading is complete, those after the last key
  -- otherwise.
  pub record At (r : QueryMapResult N) (ys : List Key) : Type 0 where
    pub is_map : IsMap N P r.query
    pub sized : page_size_of N r.query ≡ r.query.page_size
    pub full : 1 ≤ r.query.page_size
    pub finished : r.loading_complete ≡ true → ys ≡ []
    pub more : r.loading_complete ≡ false → keys_after (start_of N r.last_key) ≡ ys

  -- The result after a page, whose items are yet to be added.
  abbrev paged_on : QueryMapResult N → List Key → QueryMapResult N
  paged_on r ys = record r {
    loading_complete = ltb (length (take r.query.page_size ys)) r.query.page_size;
    last_key = last (take r.query.page_size ys);
  }

  retrieve_next_page-take :
      (r : QueryMapResult N) (ys : List Key)
      → At r ys
      → r.loading_complete ≡ false
      → retrieve_next_page N r r.last_key
        ≡ done (paged_on r ys, map item_of (take r.query.page_size ys))
  unfolding retrieve_next_page result_of page_size_of
  retrieve_next_page-take r ys at loading =
      let q : Query N = record r.query { start_key = r.last_key; fully_exhaust = false } in
      let read : query_map N q
          ≡ done (
              result_of N q (map item_of (take r.query.page_size ys))
                (last (take r.query.page_size ys))) =
        query_map-page N P q at.is_map refl
        ∙ ap (λ ks. done (result_of N q (map item_of ks) (last ks)))
            (ap (λ n. take n (keys_after (start_of N r.last_key))) at.sized
              ∙ ap (take r.query.page_size) (at.more loading)) in
      let short : (if ltb (length (map item_of (take r.query.page_size ys))) r.query.page_size
            then true
            else r.loading_complete)
          ≡ ltb (length (take r.query.page_size ys)) r.query.page_size =
        rw (length-map item_of (take r.query.page_size ys), loading)
          (same (ltb (length (take r.query.page_size ys)) r.query.page_size)) in
      ap
        (λ x. x >>= λ (page : QueryMapResult N). done (
          record r {
            loading_complete =
                if ltb (length page.records) r.query.page_size then true else r.loading_complete;
            last_key = page.last_key;
          },
          page.records,
        ))
        read
      ∙ ap
          (λ b. done (
            record r { loading_complete = b; last_key = last (take r.query.page_size ys) },
            map item_of (take r.query.page_size ys),
          ))
          short

  after_page :
      (r : QueryMapResult N) (y : Key) (l : List Key) (items buffer : List Item)
      → At r (y ∷ l)
      → r.loading_complete ≡ false
      → At
          (record (paged_on r (y ∷ l)) { records = items; buffer = buffer })
          (drop r.query.page_size (y ∷ l))
  unfolding start_of
  after_page r y l items buffer at loading =
      let n = r.query.page_size in
      let (k, xs, found, split) = last-take n y l at.full in
      record {
        is_map = at.is_map;
        sized = at.sized;
        full = at.full;
        finished = λ e. drop_short n (y ∷ l) (below (length (take n (y ∷ l))) n e);
        more = λ e.
            ap (λ o. keys_after (start_of N o)) found
            ∙ P.onward (start_of N r.last_key) k xs (drop n (y ∷ l)) (
                at.more loading
                ∙ sym (take-drop n (y ∷ l))
                ∙ ap (λ m. m ++ drop n (y ∷ l)) split
                ∙ append_assoc xs (k ∷ []) (drop n (y ∷ l)));
      }

  -- What `iterate` makes of a step and of the rest.
  iterate-more :
      (n : ℕ) (r r1 r2 : QueryMapResult N) (x : Item) (items : List Item)
      → next N r ≡ done (r1, some x)
      → iterate N n r1 ≡ done (some (items, r2))
      → iterate N (suc n) r ≡ done (some (x ∷ items, r2))
  unfolding iterate
  iterate-more n r r1 r2 x items first rest = rw (iterate, first, rest) refl

  iterate-end :
      (n : ℕ) (r r1 : QueryMapResult N)
      → next N r ≡ done (r1, none)
      → iterate N (suc n) r ≡ done (some ([], r1))
  unfolding iterate
  iterate-end n r r1 over = rw (iterate, over) refl

  next-buffered :
      (r : QueryMapResult N) (x : Item) (b : List Item)
      → r.buffer ≡ x ∷ b
      → next N r ≡ done (record r { buffer = b }, some x)
  unfolding next next_from
  next-buffered r x b buffered = rw (next, buffered) refl

  nothing_from :
      (r : QueryMapResult N) → r.loading_complete ≡ true → next_from N r [] ≡ done (r, none)
  unfolding next_from
  nothing_from r loaded =
      ap
        (λ b.
          if b
          then done (r, none)
          else (retrieve_next_page N r r.last_key >>= λ p. done (take_page N p)))
        loaded

  page_from :
      (r : QueryMapResult N)
      → r.loading_complete ≡ false
      → next_from N r [] ≡ (retrieve_next_page N r r.last_key >>= λ p. done (take_page N p))
  unfolding next_from
  page_from r loading =
      ap
        (λ b.
          if b
          then done (r, none)
          else (retrieve_next_page N r r.last_key >>= λ p. done (take_page N p)))
        loading

  next-loaded :
      (r : QueryMapResult N) → r.buffer ≡ [] → r.loading_complete ≡ true → next N r ≡ done (r, none)
  unfolding next
  next-loaded r buffered loaded = ap (next_from N r) buffered ∙ nothing_from r loaded

  next-page :
      (r : QueryMapResult N) (ys : List Key)
      → At r ys
      → r.buffer ≡ []
      → r.loading_complete ≡ false
      → next N r ≡ done (take_page N (paged_on r ys, map item_of (take r.query.page_size ys)))
  unfolding next
  next-page r ys at buffered loading =
      ap (next_from N r) buffered
      ∙ page_from r loading
      ∙ ap (λ p. p >>= λ q. done (take_page N q)) (retrieve_next_page-take r ys at loading)

  -- The iteration of a result gives the items of its buffer and those of all keys left to read, and adds
  -- the latter to its records.
  pub iterate-items :
      (n : ℕ) (r : QueryMapResult N) (b : List Item) (ys : List Key)
      → r.buffer ≡ b
      → At r ys
      → length b + length ys < n
      → (r' : QueryMapResult N) × (iterate N n r ≡ done (some (b ++ map item_of ys, r')))
        × (r'.records ≡ r.records ++ map item_of ys)
  unfolding take_page
  iterate-items zero r b ys buffered at enough = absurd (omega arith)
  iterate-items (suc n) r (x ∷ b) ys buffered at enough =
      let (r', ran, kept) =
        iterate-items n (record r { buffer = b }) b ys refl
          (record {
            is_map = at.is_map;
            sized = at.sized;
            full = at.full;
            finished = at.finished;
            more = at.more;
          })
          (omega arith) in
      (
        r',
        iterate-more n r (record r { buffer = b }) r' x _ (next-buffered r x b buffered) ran,
        kept,
      )
  iterate-items (suc n) r [] [] buffered at enough = elim (Bool-cases r.loading_complete) [
    | inl loaded ↦
        (r, iterate-end n r r (next-loaded r buffered loaded), sym (append-nil r.records))
    | inr loading ↦
        let nothing : take {A = Key} r.query.page_size [] ≡ [] = take-nil r.query.page_size in
        (
          record (paged_on r []) { loading_complete = true },
          iterate-end n r _ (
              next-page r [] at buffered loading
              ∙ ap (λ ks. done (take_page N (paged_on r [], map item_of ks))) nothing),
          sym (append-nil r.records),
        )
  ]
  iterate-items (suc n) r [] (y ∷ l) buffered at enough = elim (Bool-cases r.loading_complete) [
    | inl loaded ↦ absurd (cc (at.finished loaded))
    | inr loading ↦
        let m = r.query.page_size - 1 in
        let b = map item_of (take m l) in
        let r1 : QueryMapResult N = record (paged_on r (y ∷ l)) {
          records = r.records ++ item_of y ∷ b;
          buffer = b;
        } in
        let (r', ran, kept) =
          iterate-items n r1 b (drop m l) refl
            (rw (sym (drop_first r.query.page_size y l at.full)) (after_page r y l _ b at loading))
            (omega (arith, length-map item_of (take m l), length-take-drop m l)) in
        let all : b ++ map item_of (drop m l) ≡ map item_of l =
          sym (map-append item_of (take m l) (drop m l)) ∙ ap (map item_of) (take-drop m l) in
        (
          r',
          iterate-more n r r1 r' (item_of y) _
              (next-page r (y ∷ l) at buffered loading
                ∙ ap (λ ks. done (take_page N (paged_on r (y ∷ l), map item_of ks)))
                    (take_first r.query.page_size y l at.full))
              (ran ∙ ap (λ items. done (some (items, r'))) all),
          kept
              ∙ append_assoc r.records (item_of y ∷ b) (map item_of (drop m l))
              ∙ ap (λ items. r.records ++ item_of y ∷ items) all,
        )
  ]
