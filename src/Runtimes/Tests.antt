-- ===== src/Runtimes/Tests.antt =====
-- Runs of RuntimeCache, and its theorems at concrete inputs.
use async_substrate_interfac.Prelude.{ℕ, ◌≡◌, refl, none, some, List, [], ◌∷◌, arith, ℕ_discrete}
use async_substrate_interfac.Runtimes.{
  RuntimeCache, init, add_known_versions, add_item, known_version, retrieve,
}
use async_substrate_interfac.Runtimes.Known.{latest, settled, known_version-latest}
use async_substrate_interfac.Runtimes.Invariant.{IsValid}

-- Hashes and runtimes are numbers here.
abbrev fresh_cache : RuntimeCache ℕ ℕ
fresh_cache = record {
  blocks = record { max_size = 2; cache = [] };
  blocks_reverse = record { max_size = 2; cache = [] };
  block_hashes = record { max_size = 2; cache = [] };
  versions = record { max_size = 1; cache = [] };
  known_versions = [];
  known_version_blocks = [];
  last_used = none;
}

init-fresh_cache : init 2 1 [] ≡ fresh_cache
unfolding init
init-fresh_cache = refl

fresh_cache-IsValid : IsValid ℕ_discrete fresh_cache
fresh_cache-IsValid = omega arith

abbrev changes : List (ℕ × ℕ)
changes = (1075, 103) ∷ (561, 102) ∷ (9000, 367) ∷ []

known_runs :
    (known_version (add_known_versions fresh_cache changes) 2000 ≡ some 103)
    × (known_version (add_known_versions fresh_cache changes) 9999 ≡ some 103)
    × (known_version (add_known_versions fresh_cache changes) 560 ≡ none)
unfolding known_version add_known_versions
known_runs = (refl, refl, refl)

-- A miss by block answers nothing, though the version is supplied and cached.
miss_runs :
    (retrieve ℕ_discrete
      (add_item ℕ_discrete fresh_cache (some 77) none none (some 5))
      (some 1)
      none
      (some 5)).1
    ≡ none
unfolding retrieve add_item ℕ_discrete
miss_runs = refl

known_version-latest_example :
    known_version (add_known_versions fresh_cache changes) 2000 ≡ latest 2000 (settled changes)
known_version-latest_example = known_version-latest fresh_cache changes 2000
