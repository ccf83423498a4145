-- ===== src/Runtimes/Load/Tests.antt =====
-- A client at a node that counts what is asked of it.
use async_substrate_interfac.Prelude.{
  ℕ, zero, suc, ◌≡◌, refl, String, Bool, true, false, Option, none, some, List, [], ◌∷◌, inl, inr,
  ◌⊎◌, arith, if◌then◌else◌, sym, inr_inj,
}
use async_substrate_interfac.Prelude.Strings.{String-discrete}
use async_substrate_interfac.Prelude.Action.{go_on}
use async_substrate_interfac.Cache.Lru
use async_substrate_interfac.Runtimes
use async_substrate_interfac.Runtimes.{RuntimeCache}
use async_substrate_interfac.Runtimes.Invariant.{IsValid}
use async_substrate_interfac.Runtimes.Load.{Client, Node, init_runtime, load_for_version}
use async_substrate_interfac.Runtimes.Load.Sound.{Chain, Sound}
use async_substrate_interfac.Runtimes.Load.Versions.{init_runtime-IsSound}
use async_substrate_interfac.Runtimes.Load.Again.{IsReady, load_for_version-init_runtime}
use text.Mathlib.Text.{◌==◌ as str_eq}

abbrev node : Node
node = record {
  World = ℕ;
  Error = ℕ;
  R = ℕ;
  value_error = 1;
  no_runtime = λ h. 2;
  no_metadata = λ h. 3;
  get_chain_head = λ w. (suc w, inr "0xh");
  cached_get_block_hash = λ n w. (suc w, inr (some "0xb"));
  cached_get_block_number = λ h w. (suc w, inr 10);
  get_parent_block_hash = λ h w. (suc w, inr "0xp");
  get_block_runtime_info = λ h w. (suc w, inr (some 100));
  load_runtime = λ v h w. (suc w, inr (some 42));
  finish_startup = λ s. (s, inr tt);
}

abbrev empty_cache : RuntimeCache String ℕ
empty_cache = record {
  blocks = record { max_size = 4; cache = [] };
  blocks_reverse = record { max_size = 4; cache = [] };
  block_hashes = record { max_size = 4; cache = [] };
  versions = record { max_size = 2; cache = [] };
  known_versions = [];
  known_version_blocks = [];
  last_used = none;
}

abbrev unloaded : Client ℕ ℕ
unloaded = record {
  world = 0;
  runtime_cache = empty_cache;
  runtimes = record { max_size = 2; cache = [] };
  last_block_hash = none;
  startup = false;
  startup_block_hash = none;
}

-- Five questions for the first call, none for the second.
asked_once : (init_runtime node (some "0xa") none false unloaded).0.world ≡ 5
unfolding init_runtime go_on Runtimes.retrieve
asked_once = refl

asked_again :
    (init_runtime node
      (some "0xa")
      none
      false
      (init_runtime node (some "0xa") none false unloaded).0).0.world
    ≡ 5
unfolding init_runtime go_on Runtimes.retrieve Runtimes.add_item String-discrete
    async_substrate_interfac.Prelude.Bool-cases async_substrate_interfac.Prelude.ℕ_discrete
asked_again = refl

empty_cache-IsValid : IsValid String-discrete empty_cache
empty_cache-IsValid = omega arith

empty_cache-IsReady : IsReady node empty_cache
empty_cache-IsReady = record {
  valid = empty_cache-IsValid;
  unknown = refl;
  hashes = omega arith;
  runtimes = omega arith;
}

abbrev after_loading : Client ℕ ℕ
after_loading = (load_for_version node 100 "0xa" unloaded).0

loaded_some : load_for_version node 100 "0xa" unloaded ≡ (after_loading, inr 42)
unfolding load_for_version go_on Lru.get
loaded_some = refl

no_task : after_loading.startup ≡ false
unfolding load_for_version go_on Lru.get
no_task = refl

load_for_version-init_runtime_example :
    (s'' : Client ℕ ℕ) × (init_runtime node (some "0xa") none false after_loading ≡ (s'', inr 42))
    × (s''.world ≡ after_loading.world)
load_for_version-init_runtime_example =
    load_for_version-init_runtime node 100 "0xa" false unloaded after_loading 42 empty_cache-IsReady
      refl no_task loaded_some

-- A chain of which 0xq, the parent of 0xb, is of a later version than 0xp, the parent of 0xa.
abbrev parent_of : String → String
parent_of h = if str_eq h "0xa" then "0xp" else "0xq"

abbrev spec_of : String → ℕ
spec_of h = if str_eq h "0xp" then 100 else 101

abbrev upgraded : Node
upgraded = record node {
  get_parent_block_hash = λ h w. (suc w, inr (parent_of h));
  get_block_runtime_info = λ h w. (suc w, inr (some (spec_of h)));
  load_runtime = λ v h w. (suc w, inr (some (spec_of h)));
}

abbrev upgraded_chain : Chain upgraded
upgraded_chain = record {
  parent = parent_of;
  spec = spec_of;
  version_of = λ r. r;
  parents = λ h w p e. sym (inr_inj e);
  infos = λ h w v e. cc (inr_inj e);
  loads = λ v h w r e. cc (inr_inj e);
}

-- 0xa has been asked for.
abbrev used_cache : RuntimeCache String ℕ
used_cache = record empty_cache {
  block_hashes = record { max_size = 4; cache = ("0xa", 100) ∷ [] };
  versions = record { max_size = 2; cache = (100, 100) ∷ [] };
}

abbrev used : Client ℕ ℕ
used = record unloaded {
  runtime_cache = used_cache;
  runtimes = record { max_size = 2; cache = (100, 100) ∷ [] };
}

used-Sound : Sound upgraded upgraded_chain used
used-Sound = record {
  unknown = refl;
  hashes = (refl, tt);
  versions = (refl, tt);
  runtimes = (refl, tt);
}

later_version : (init_runtime upgraded (some "0xb") none false used).1 ≡ inr 101
unfolding init_runtime go_on Runtimes.retrieve Lru.get String-discrete
    async_substrate_interfac.Prelude.Bool-cases async_substrate_interfac.Prelude.ℕ_discrete
later_version = refl

init_runtime-IsSound_example :
    Sound upgraded upgraded_chain (init_runtime upgraded (some "0xb") none false used).0
    × ((r : ℕ) → (init_runtime upgraded (some "0xb") none false used).1 ≡ inr r → r ≡ 101)
init_runtime-IsSound_example =
    init_runtime-IsSound upgraded upgraded_chain "0xb" false used refl refl used-Sound
