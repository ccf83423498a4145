-- ===== src/Pages/Whole.antt =====
-- What a query of a map reads as a whole, page by page and at once.
use async_substrate_interfac.Prelude.{
  ℕ, zero, suc, ◌+◌, ◌≤◌, ◌≡◌, refl, sym, ap, ◌∙◌, true, false, Option, none, some, List, [], ◌∷◌,
  ◌++◌, map, take, drop, length, length-drop, ◌==◌, arith,
}
use mathlib.Core.List.{append-nil, append_assoc}
use async_substrate_interfac.Prelude.Entries.{length-map}
use async_substrate_interfac.Pages.{
  done, ◌>>=◌, Node, Query, QueryMapResult, groups, concat, last, batches_with, batches, changes_of,
  limited, page_size_of, start_of, keys_of, changes_at, items_of, result_of, query_map, iterate,
}
use async_substrate_interfac.Pages.Paging.{Paged, IsMap, query_map-page, query_map_keys}
use async_substrate_interfac.Prelude.Slices.{take-drop, length-take-drop, map-append, take-nil}
use async_substrate_interfac.Pages.Iterate.{At, iterate-items, last-take, last-append}

limited_twice : (m : Option ℕ) (n : ℕ) → limited m (limited m n) ≡ limited m n
unfolding limited
limited_twice none n = refl
limited_twice (some m) n = ground arith

positive : (n : ℕ) → 1 ≤ n → (n == 0) ≡ false
positive n h = ground arith

-- The batches are the keys, with fuel for one batch for each key.
concat-batches :
    {A : Type 0} (fuel n : ℕ) (l : List A)
    → 1 ≤ n
    → length l ≤ fuel
    → concat (batches_with fuel n l) ≡ l
unfolding concat batches_with
concat-batches zero n [] full enough = refl
concat-batches zero n (x ∷ l) full enough = absurd (omega arith)
concat-batches (suc fuel) n [] full enough = refl
concat-batches (suc fuel) n (x ∷ l) full enough =
    ap (λ m. take n (x ∷ l) ++ m)
      (concat-batches fuel n (drop n (x ∷ l)) full (omega (arith, length-drop n (x ∷ l))))
    ∙ take-drop n (x ∷ l)

module _ (N : Node) (P : Paged N) where
  open N use {Key, Item}
  open P use {keys, keys_after, item_of}

  -- The state of a result that has read all but `ys`.
  result-At :
      (q : Query N) (items : List Item) (last_key : Option Key) (ys : List Key)
      → IsMap N P q
      → 1 ≤ page_size_of N q
      → keys_after (start_of N last_key) ≡ ys
      → At N P (result_of N q items last_key) ys
  unfolding result_of page_size_of
  result-At q items last_key ys is_map full more = record {
    is_map = is_map;
    sized = limited_twice q.max_results q.page_size;
    full = full;
    finished = λ e. absurd (cc e);
    more = λ e. more;
  }

  -- After some keys: those after the last of them.
  after_keys :
      (k0 : Key) (xs ys : List Key) (k : Key) (front : List Key)
      → keys_after k0 ≡ xs ++ ys
      → xs ≡ front ++ k ∷ []
      → keys_after k ≡ ys
  after_keys k0 xs ys k front e split =
      P.onward k0 k front ys (e ∙ ap (λ l. l ++ ys) split ∙ append_assoc front (k ∷ []) ys)

  -- `max_results` does not leave out any of the keys.
  abbrev pub AllFit : Option ℕ → List Key → Type 0
  AllFit none l = Unit
  AllFit (some m) l = length l ≤ m

  -- Over a node that gives pages of its keys in order: where a query starts before some keys of the
  -- map, and `max_results` is None or at least their number, whatever the size of a page, as long as
  -- both are positive, the iteration of its result gives the items of all these keys in order, and
  -- its records are these at the end.
  pub query_map-iterate :
      (q : Query N) (y : Key) (l : List Key)
      → IsMap N P q
      → q.fully_exhaust ≡ false
      → 1 ≤ page_size_of N q
      → keys_after (start_of N q.start_key) ≡ y ∷ l
      → AllFit q.max_results (y ∷ l)
      → (r : QueryMapResult N) × (r' : QueryMapResult N) × (query_map N q ≡ done r)
        × (iterate N (length (y ∷ l) + 1) r ≡ done (some (map item_of (y ∷ l), r')))
        × (r'.records ≡ map item_of (y ∷ l))
  unfolding result_of start_of
  query_map-iterate q y l is_map paged full e fit =
      let n = page_size_of N q in
      let (k, front, found, split) = last-take n y l full in
      let ran =
        query_map-page N P q is_map paged
        ∙ ap (λ ks. done (result_of N q (map item_of ks) (last ks))) (ap (take n) e) in
      let left : keys_after k ≡ drop n (y ∷ l) =
        after_keys (start_of N q.start_key) (take n (y ∷ l)) (drop n (y ∷ l)) k front
          (e ∙ sym (take-drop n (y ∷ l))) split in
      let all : map item_of (take n (y ∷ l)) ++ map item_of (drop n (y ∷ l)) ≡ map item_of (y ∷ l) =
        sym (map-append item_of (take n (y ∷ l)) (drop n (y ∷ l)))
        ∙ ap (map item_of) (take-drop n (y ∷ l)) in
      let (r', iterated, kept) =
        iterate-items N P (length (y ∷ l) + 1)
          (result_of N q (map item_of (take n (y ∷ l))) (last (take n (y ∷ l))))
          (map item_of (take n (y ∷ l))) (drop n (y ∷ l)) refl
          (result-At q _ _ (drop n (y ∷ l)) is_map full
            (ap (λ o. keys_after (start_of N o)) found ∙ left))
          (omega (arith, length-map item_of (take n (y ∷ l)), length-take-drop n (y ∷ l))) in
      (
        result_of N q (map item_of (take n (y ∷ l))) (last (take n (y ∷ l))),
        r',
        ran,
        iterated ∙ ap (λ items. done (some (items, r'))) all,
        kept ∙ all,
      )

  -- Over such a node, where a query starts after the last key, its first page is empty, and the iteration of its result
  -- starts again: it gives the items of all keys of the map.
  pub query_map-restart :
      (q : Query N)
      → IsMap N P q
      → q.fully_exhaust ≡ false
      → 1 ≤ page_size_of N q
      → keys_after (start_of N q.start_key) ≡ []
      → (r : QueryMapResult N) × (r' : QueryMapResult N) × (query_map N q ≡ done r)
        × (r.records ≡ [])
        × (iterate N (length keys + 1) r ≡ done (some (map item_of keys, r')))
  unfolding result_of start_of last
  query_map-restart q is_map paged full e =
      let ran =
        query_map-page N P q is_map paged
        ∙ ap (λ ks. done (result_of N q (map item_of ks) (last ks)))
            (ap (take (page_size_of N q)) e ∙ take-nil (page_size_of N q)) in
      let (r', iterated, kept) =
        iterate-items N P (length keys + 1) (result_of N q [] none) [] keys refl
          (result-At q [] none keys is_map full P.whole) (omega arith) in
      (result_of N q [] none, r', ran, refl, iterated)

  -- The whole map at once, in batches.
  changes_of-groups :
      (bs : List (List Key))
      → changes_of (map (λ b. groups (P.group_of b)) bs) ≡ done (map P.change_of (concat bs))
  unfolding changes_of concat
  changes_of-groups [] = refl
  changes_of-groups (b ∷ bs) =
      ap (λ r. r >>= λ rest. done (concat (P.group_of b) ++ rest)) (changes_of-groups bs)
      ∙ ap (λ c. done (c ++ map P.change_of (concat bs))) (P.grouped b)
      ∙ ap done (sym (map-append P.change_of b (concat bs)))

  items_of-batches :
      (q : Query N) (k : Key) (l : List Key)
      → q.fully_exhaust ≡ true
      → (page_size_of N q == 0) ≡ false
      → concat (P.order (batches_with (length (k ∷ l)) (page_size_of N q) (k ∷ l))) ≡ k ∷ l
      → items_of N q (k ∷ l) ≡ done (map item_of (k ∷ l))
  unfolding items_of changes_at batches
  items_of-batches q k l exhaust positive in_order =
      let bs = P.order (batches_with (length (k ∷ l)) (page_size_of N q) (k ∷ l)) in
      let all : changes_at N q (k ∷ l) ≡ done (map P.change_of (k ∷ l)) =
        rw (changes_at, exhaust, batches, positive, P.answered _)
          (changes_of-groups bs ∙ ap (λ ks. done (map P.change_of ks)) in_order) in
      ap (λ r. r >>= λ c. N.decode_query_map c) all ∙ P.decoded (k ∷ l)

  items_of-whole :
      (q : Query N) (ks : List Key)
      → q.fully_exhaust ≡ true
      → 1 ≤ page_size_of N q
      → ((bs : List (List Key)) → P.order bs ≡ bs)
      → items_of N q ks ≡ done (map item_of ks)
  unfolding items_of
  items_of-whole q [] exhaust full in_order = refl
  items_of-whole q (k ∷ l) exhaust full in_order =
      items_of-batches q k l exhaust (positive (page_size_of N q) full) (
        ap concat (in_order _)
        ∙ concat-batches (length (k ∷ l)) (page_size_of N q) (k ∷ l) full (omega arith))

  -- The end of a list of all keys leaves none.
  after_all : (ks : List Key) → keys ≡ ks → keys_after (start_of N (last ks)) ≡ []
  unfolding start_of last
  after_all [] e = P.whole ∙ e
  after_all (k ∷ l) e =
      let (k', front, found, split) = last-append k l in
      ap (λ o. keys_after (start_of N o)) found
      ∙ P.onward N.prefix k' front [] (P.whole ∙ e ∙ split)

  -- Over such a node, with `fully_exhaust` set, where the batches are answered in their order, the records of a query are
  -- the items of all keys of the map in order, whatever the size of a batch, and the iteration of its
  -- result gives these.
  pub query_map-exhaust :
      (q : Query N)
      → IsMap N P q
      → q.fully_exhaust ≡ true
      → 1 ≤ page_size_of N q
      → ((bs : List (List Key)) → P.order bs ≡ bs)
      → (r : QueryMapResult N) × (r' : QueryMapResult N) × (query_map N q ≡ done r)
        × (r.records ≡ map item_of keys)
        × (iterate N (length keys + 1) r ≡ done (some (map item_of keys, r')))
  unfolding result_of keys_of
  query_map-exhaust q is_map exhaust full in_order =
      let found : keys_of N q ≡ done keys = rw (keys_of, exhaust) P.unpaged in
      let (r', iterated, kept) =
        iterate-items N P (length keys + 1) (result_of N q (map item_of keys) (last keys))
          (map item_of keys) [] refl (result-At q _ _ [] is_map full (after_all keys refl))
          (omega (arith, length-map item_of keys)) in
      (
        result_of N q (map item_of keys) (last keys),
        r',
        query_map_keys N P q keys is_map found (items_of-whole q keys exhaust full in_order),
        refl,
        iterated ∙ ap (λ items. done (some (items, r'))) (append-nil (map item_of keys)),
      )
