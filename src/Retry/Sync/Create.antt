-- ===== src/Retry/Sync/Create.antt =====
-- The constructor of RetrySyncSubstrate, which tries the chains in turn.
use async_substrate_interfac.Prelude.{
  ◌≡◌, refl, Option, none, some, Bool, true, false, List, [], ◌∷◌, inl, inr, Bool-cases,
  if◌then◌else◌,
}
use async_substrate_interfac.Retry.{
  Failure, Outcome, returned, raised, connection_error, Chains, fallback_iter, archive_iter,
}
use async_substrate_interfac.Retry.Sync.Fallback.{first_up}

-- The constructor of SubstrateInterface at an address: what it leaves, and what it raises.
abbrev pub Constructor : (Url World Error : Type 0) → Type 0
Constructor Url World Error = Url → World → World × Option (Failure Error)

-- One round of the loop, with the rest of the loop.
unfoldable pub tried :
    {Url World Error : Type 0}
    → Url
    → (World → World × Outcome Url Error)
    → World × Option (Failure Error)
    → World × Outcome Url Error
tried u rest (w, none) = (w, returned u)
tried u rest (w, some connection_error) = rest w
tried u rest (w, some e) = (w, raised e)

-- The loop over the chains: the chain that was connected to, or the exception.
unfoldable pub try_chains :
    {Url World Error : Type 0}
    → Constructor Url World Error
    → List Url
    → World
    → World × Outcome Url Error
unfolding tried
try_chains construct [] w = (w, raised connection_error)
try_chains construct (u ∷ l) w = tried u (λ w'. try_chains construct l w') (construct u w)

-- The object's own fields, besides what the constructor of SubstrateInterface sets.
pub record Created (Url World : Type 0) : Type 0 where
  pub fallback_chains : Chains Url
  pub archive_nodes : Chains Url
  pub url : Url
  pub chain_endpoint : Url
  pub world : World

unfoldable pub created :
    {Url World Error : Type 0}
    → Url
    → List Url
    → List Url
    → Bool
    → World × Outcome Url Error
    → Outcome (Created Url World) Error
unfolding fallback_iter archive_iter
created url chains nodes retry_forever (w, raised e) = raised e
created url chains nodes retry_forever (w, returned u) = returned (record {
  fallback_chains = fallback_iter url chains retry_forever;
  archive_nodes = archive_iter nodes retry_forever;
  url = u;
  chain_endpoint = u;
  world = w;
})

-- `RetrySyncSubstrate(url, fallback_chains=..., retry_forever=..., archive_nodes=...)`
unfoldable pub create :
    {Url World Error : Type 0}
    → Constructor Url World Error
    → Url
    → List Url
    → List Url
    → Bool
    → World
    → Outcome (Created Url World) Error
unfolding created try_chains
create construct url chains nodes retry_forever w =
    created url chains nodes retry_forever (try_chains construct (url ∷ chains) w)

-- What the constructor gives for the chain it is to be on, or for none.
unfoldable pub Gives :
    {Url World Error : Type 0}
    → Url
    → List Url
    → List Url
    → Bool
    → Outcome (Created Url World) Error
    → Option Url
    → Type 0
Gives url chains nodes retry_forever r none = r ≡ raised connection_error
Gives {World = World} url chains nodes retry_forever r (some u) =
    (w : World) × (r
      ≡ returned (record {
        fallback_chains = fallback_iter url chains retry_forever;
        archive_nodes = archive_iter nodes retry_forever;
        url = u;
        chain_endpoint = u;
        world = w;
      }))

module _ {Url World Error : Type 0} (construct : Constructor Url World Error) (up : Url → Bool)
    (works : (u : Url) (w : World)
      → (w' : World) × (construct u w ≡ (w', if up u then none else some connection_error))) where
  Tried : World × Outcome Url Error → Option Url → Type 0
  Tried r none = (w : World) × (r ≡ (w, raised connection_error))
  Tried r (some u) = (w : World) × (r ≡ (w, returned u))

  found_first :
      (u : Url) (l : List Url) (w : World)
      → up u ≡ true
      → Tried (try_chains construct (u ∷ l) w) (some u)
  unfolding try_chains tried Tried
  found_first u l w is_up = let (w', e) = works u w in (w', rw (e, is_up) refl)

  skipped :
      (u : Url) (l : List Url) (w : World)
      → up u ≡ false
      → (w' : World) × (try_chains construct (u ∷ l) w ≡ try_chains construct l w')
  unfolding try_chains tried
  skipped u l w down = let (w', e) = works u w in (w', rw (e, down) refl)

  -- The outcome of the loop is the first chain that is up.
  try_chains-first_up :
      (l : List Url) (w : World) → Tried (try_chains construct l w) (first_up up l)
  unfolding first_up
  try_chains-first_up [] w = unfold Tried try_chains in (w, refl)
  try_chains-first_up (u ∷ l) w = elim (Bool-cases (up u)) [
    | inl is_up ↦ rw is_up (found_first u l w is_up)
    | inr down ↦
        let (w', e) = skipped u l w down in let rest = try_chains-first_up l w' in rw (down, e) rest
  ]

  gives :
      (url : Url) (chains nodes : List Url) (retry_forever : Bool) (r : World × Outcome Url Error)
      (o : Option Url)
      → Tried r o
      → Gives url chains nodes retry_forever (created url chains nodes retry_forever r) o
  unfolding Gives Tried created
  gives url chains nodes retry_forever r none (w, e) = rw e refl
  gives url chains nodes retry_forever r (some u) (w, e) = (w, rw e refl)

  -- The object is made on the first of `url` and the fallback chains that is up, with all the
  -- fallback chains still to come in its iterator; with none up, ConnectionError is raised.
  pub create-first_up :
      (url : Url) (chains nodes : List Url) (retry_forever : Bool) (w : World)
      → Gives url chains nodes retry_forever
          (create construct url chains nodes retry_forever w)
          (first_up up (url ∷ chains))
  unfolding create
  create-first_up url chains nodes retry_forever w =
      gives url chains nodes retry_forever (try_chains construct (url ∷ chains) w)
        (first_up up (url ∷ chains)) (try_chains-first_up (url ∷ chains) w)
