-- ===== src/Pages/Paging.antt =====
-- What a query of a map relies on: a node that has the keys of the map in an order, and gives a page
-- of those after a key.
use async_substrate_interfac.Prelude.{
  ℕ, ◌-◌, ◌≡◌, refl, ap, ◌∙◌, false, List, [], ◌∷◌, ◌++◌, map, take, ◌==◌, ltb,
}
use async_substrate_interfac.Pages.{
  done, ◌>>=◌, Node, Query, groups, concat, last, page_size_of, start_of, keys_of, changes_at,
  items_of, result_of, query_map,
}

-- `order` is the order in which the batches of keys are answered.
pub record Paged (N : Node) : Type 0 where
  pub keys : List N.Key
  pub keys_after : N.Key → List N.Key
  pub item_of : N.Key → N.Item
  pub change_of : N.Key → N.Change
  pub group_of : List N.Key → List (List N.Change)
  pub order : List (List N.Key) → List (List N.Key)
  pub whole : keys_after N.prefix ≡ keys
  pub onward :
      (k k' : N.Key) (xs ys : List N.Key) → keys_after k ≡ xs ++ k' ∷ ys → keys_after k' ≡ ys
  pub paged : (n : ℕ) (k : N.Key) → N.get_keys_paged n k ≡ done (take n (keys_after k))
  pub unpaged : N.get_keys ≡ done keys
  pub grouped : (ks : List N.Key) → concat (group_of ks) ≡ map change_of ks
  pub stored : (ks : List N.Key) → N.query_storage_at ks ≡ done (group_of ks)
  pub answered :
      (bs : List (List N.Key)) → N.request_all bs ≡ done (map (λ b. groups (group_of b)) (order bs))
  pub decoded : (ks : List N.Key) → N.decode_query_map (map change_of ks) ≡ done (map item_of ks)

module _ (N : Node) (P : Paged N) where
  open N use {Key, Item}
  open P use {keys_after, item_of}

  -- The storage function is a map, and the parameters are not too many.
  abbrev pub IsMap : Query N → Type 0
  IsMap q = ((q.param_types == 0) ≡ false) × (ltb (q.param_types - 1) q.params ≡ false)

  -- The keys of the page that a query reads.
  abbrev pub page : Query N → List Key
  page q = take (page_size_of N q) (keys_after (start_of N q.start_key))

  items_of-page :
      (q : Query N) (ks : List Key)
      → q.fully_exhaust ≡ false
      → items_of N q ks ≡ done (map item_of ks)
  unfolding items_of changes_at
  items_of-page q [] paged = refl
  items_of-page q (k ∷ l) paged =
      rw (items_of, changes_at, paged, P.stored (k ∷ l), P.grouped (k ∷ l), P.decoded (k ∷ l)) refl

  keys_of-page : (q : Query N) → q.fully_exhaust ≡ false → keys_of N q ≡ done (page q)
  unfolding keys_of
  keys_of-page q paged = rw (keys_of, paged) (P.paged (page_size_of N q) (start_of N q.start_key))

  -- A query reads what its keys are decoded to.
  pub query_map_keys :
      (q : Query N) (keys : List Key)
      → IsMap q
      → keys_of N q ≡ done keys
      → items_of N q keys ≡ done (map item_of keys)
      → query_map N q ≡ done (result_of N q (map item_of keys) (last keys))
  unfolding query_map
  query_map_keys q keys is_map found read =
      rw (query_map, is_map.0, is_map.1)
        (ap
            (λ r.
              r >>= λ keys. items_of N q keys >>= λ items. done (result_of N q items (last keys)))
            found
          ∙ ap (λ r. r >>= λ items. done (result_of N q items (last keys))) read)

  -- A query that is paged reads a page.
  pub query_map-page :
      (q : Query N)
      → IsMap q
      → q.fully_exhaust ≡ false
      → query_map N q ≡ done (result_of N q (map item_of (page q)) (last (page q)))
  query_map-page q is_map paged =
      query_map_keys q (page q) is_map (keys_of-page q paged) (items_of-page q (page q) paged)
