-- ===== src/Pages/Tests.antt =====
-- Queries of a map whose keys are 4 to 0, and the items the keys and 10 more.
use async_substrate_interfac.Prelude.{
  ℕ, zero, suc, ◌+◌, ◌≡◌, refl, sym, ap, ◌∙◌, true, false, none, some, List, [], ◌∷◌, ◌++◌, map,
  take, arith,
}
use async_substrate_interfac.Pages.{
  raise, done, value_error, groups, Node, Query, QueryMapResult, concat, last, batches_with,
  batches, changes_of, limited, page_size_of, start_of, keys_of, changes_at, items_of, result_of,
  query_map, iterate,
}
use async_substrate_interfac.Pages.Paging.{Paged}
use async_substrate_interfac.Pages.Whole.{query_map-iterate, query_map-restart, query_map-exhaust}

abbrev below : ℕ → List ℕ
below zero = []
below (suc n) = n ∷ below n

tail_same : (a b : ℕ) (l m : List ℕ) → ◌≡◌ {A = List ℕ} (a ∷ l) (b ∷ m) → (a ≡ b) × (l ≡ m)
tail_same a b l m e = (cc e, cc e)

below-onward : (k k' : ℕ) (xs ys : List ℕ) → below k ≡ xs ++ k' ∷ ys → below k' ≡ ys
below-onward zero k' [] ys e = absurd (cc e)
below-onward zero k' (x ∷ xs) ys e = absurd (cc e)
below-onward (suc n) k' [] ys e =
    let (same, rest) = tail_same n k' (below n) ys e in ap below (sym same) ∙ rest
below-onward (suc n) k' (x ∷ xs) ys e =
    below-onward n k' xs ys (tail_same n x (below n) (xs ++ k' ∷ ys) e).1

abbrev node : Node
node = record {
  Key = ℕ;
  Change = ℕ;
  Item = ℕ;
  prefix = 5;
  get_keys_paged = λ n k. done (take n (below k));
  get_keys = done (below 5);
  query_storage_at = λ ks. done (ks ∷ []);
  request_all = λ bs. done (map (λ b. groups (b ∷ [])) bs);
  decode_query_map = λ cs. done (map (λ c. c + 10) cs);
}

map_same : (l : List ℕ) → l ++ [] ≡ map (λ k. k) l
map_same [] = refl
map_same (x ∷ l) = ap (x ∷◌) (map_same l)

map-map : (f : ℕ → ℕ) (l : List ℕ) → map f (map (λ k. k) l) ≡ map f l
map-map f [] = refl
map-map f (x ∷ l) = ap (f x ∷◌) (map-map f l)

one_group : (ks : List ℕ) → concat (ks ∷ []) ≡ map (λ k. k) ks
unfolding concat
one_group ks = map_same ks

abbrev paged : Paged node
paged = record {
  keys = below 5;
  keys_after = below;
  item_of = λ k. k + 10;
  change_of = λ k. k;
  group_of = λ ks. ks ∷ [];
  order = λ bs. bs;
  whole = refl;
  onward = below-onward;
  paged = λ n k. refl;
  unpaged = refl;
  grouped = one_group;
  stored = λ ks. refl;
  answered = λ bs. refl;
  decoded = λ ks. ap done (map-map (λ k. k + 10) ks);
}

-- A query for at most two results.
abbrev two : Query node
two = record {
  params = 0;
  param_types = 1;
  max_results = some 2;
  start_key = none;
  page_size = 100;
  fully_exhaust = false;
}

-- All five keys, in pages of two.
abbrev five : Query node
five = record two { max_results = some 5; page_size = 2 }

abbrev all_items : List ℕ
all_items = 14 ∷ 13 ∷ 12 ∷ 11 ∷ 10 ∷ []

first_page : query_map node two ≡ done (result_of node two (14 ∷ 13 ∷ []) (some 3))
unfolding query_map keys_of items_of changes_at concat batches batches_with changes_of limited
    page_size_of start_of result_of last
first_page = refl

no_map : query_map node (record two { param_types = 0 }) ≡ raise value_error
unfolding query_map
no_map = refl

query_map-iterate_example :
    (r : QueryMapResult node) × (r' : QueryMapResult node) × (query_map node five ≡ done r)
    × (iterate node 6 r ≡ done (some (all_items, r')))
    × (r'.records ≡ all_items)
unfolding start_of page_size_of limited
query_map-iterate_example =
    query_map-iterate node paged five 4 (3 ∷ 2 ∷ 1 ∷ 0 ∷ []) (refl, refl) refl (omega arith) refl
      (omega arith)

query_map-restart_example :
    (r : QueryMapResult node) × (r' : QueryMapResult node) × (query_map node
        (record two { start_key = some 0 })
      ≡ done r)
    × (r.records ≡ [])
    × (iterate node 6 r ≡ done (some (all_items, r')))
unfolding start_of page_size_of limited
query_map-restart_example =
    query_map-restart node paged (record two { start_key = some 0 }) (refl, refl) refl (omega arith)
      refl

query_map-exhaust_example :
    (r : QueryMapResult node) × (r' : QueryMapResult node) × (query_map node
        (record two { fully_exhaust = true })
      ≡ done r)
    × (r.records ≡ all_items)
    × (iterate node 6 r ≡ done (some (all_items, r')))
unfolding page_size_of limited
query_map-exhaust_example =
    query_map-exhaust node paged (record two { fully_exhaust = true }) (refl, refl) refl
      (omega arith) (λ bs. refl)
