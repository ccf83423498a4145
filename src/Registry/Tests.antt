-- ===== src/Registry/Tests.antt =====
-- Runs of `load_registry_type_map` on a small registry.
use async_substrate_interfac.Prelude.{
  ℕ, suc, ◌≡◌, refl, ◌∙◌, String, true, false, Option, none, some, List, [], ◌∷◌, ℕ_discrete,
  length,
}
use async_substrate_interfac.Prelude.Dict.{lookup, put, IsDict}
use async_substrate_interfac.Prelude.Strings.{String-discrete}
use async_substrate_interfac.Json.{◌>>=◌}
use async_substrate_interfac.Registry.{
  TypeEntry, TypeDef, variant, sequence, array, tuple, primitive, Types, Progress, decimal, digits,
  digit, load_registry_type_map, gathered, resolve_loop, next_round, round, resolve_type_definition,
  resolve_entry, gather, unnamed, simple_name, last, is_variant, primitive_name, path_name,
  shape_name, names_of, param_names, inner_name, array_name, comma_join,
}
use async_substrate_interfac.Registry.Rounds.{load_registry_type_map-total}
use async_substrate_interfac.Registry.Rule.{known_in, name_by, IsClosed, Within}
use async_substrate_interfac.Registry.Least.{
  load_registry_type_map-fixpoint, load_registry_type_map-least,
}
use async_substrate_interfac.Registry.Names.{Agrees, load_registry_type_map-Agrees}

abbrev plain : TypeDef → TypeEntry
plain d = record { entry_params = false; path = []; params = []; def = d }

-- `u8`, lists of it, an `Option` of those, a pair, an array, and a list of itself.
abbrev small : Types
small =
    (4, plain (tuple (2 ∷ 3 ∷ [])))
    ∷ (
      2,
      record { entry_params = false; path = "Option" ∷ []; params = some 1 ∷ []; def = variant },
    )
    ∷ (1, plain (sequence 0))
    ∷ (0, plain (primitive "u8"))
    ∷ (3, plain (array 0 (some 32)))
    ∷ (5, plain (sequence 5))
    ∷ []

abbrev as_listed : List ℕ → List ℕ
as_listed l = l

abbrev loaded : Progress
loaded = record {
  type_id_to_name =
      (0, "u8")
      ∷ (1, "Vec<u8>")
      ∷ (3, "[u8; 32]")
      ∷ (2, "Option<Vec<u8>>")
      ∷ (4, "(Option<Vec<u8>>, [u8; 32])")
      ∷ [];
  registry_type_map =
      ("u8", 0)
      ∷ ("Vec<u8>", 1)
      ∷ ("[u8; 32]", 3)
      ∷ ("Option<Vec<u8>>", 2)
      ∷ ("(Option<Vec<u8>>, [u8; 32])", 4)
      ∷ [];
  pending_ids = 5 ∷ [];
  resolved_type = false;
}

decimal_digits : decimal 1024 ≡ "1024"
unfolding decimal digits digit
decimal_digits = refl

load_small : load_registry_type_map as_listed small ≡ some loaded
unfolding load_registry_type_map gathered resolve_loop next_round round resolve_type_definition
    resolve_entry gather unnamed simple_name last is_variant primitive_name path_name shape_name
    names_of param_names inner_name array_name comma_join decimal digits digit lookup put ℕ_discrete
    String-discrete async_substrate_interfac.Prelude.Bool-cases
load_small = refl

small_distinct : IsDict ℕ_discrete small
unfolding lookup ℕ_discrete
small_distinct = (refl, (refl, (refl, (refl, (refl, (refl, tt))))))

load_registry_type_map-total_example :
    (t : Progress) × (load_registry_type_map as_listed small ≡ some t)
load_registry_type_map-total_example = load_registry_type_map-total as_listed small (λ l. refl)

load_registry_type_map-fixpoint_example :
    known_in loaded.type_id_to_name 4
    ≡ lookup ℕ_discrete 4 small >>= name_by (known_in loaded.type_id_to_name)
load_registry_type_map-fixpoint_example =
    load_registry_type_map-fixpoint as_listed small loaded small_distinct (λ l i there. there)
      load_small 4

load_registry_type_map-Agrees_example : Agrees loaded.type_id_to_name loaded.registry_type_map
load_registry_type_map-Agrees_example =
    load_registry_type_map-Agrees as_listed small loaded small_distinct load_small

small-IsClosed : IsClosed small (known_in loaded.type_id_to_name)
small-IsClosed i e n there by =
    load_registry_type_map-fixpoint as_listed small loaded small_distinct (λ l i there. there)
      load_small i
    ∙ rw there by

load_registry_type_map-least_example :
    Within (known_in loaded.type_id_to_name) (known_in loaded.type_id_to_name)
load_registry_type_map-least_example =
    load_registry_type_map-least as_listed small loaded small_distinct (λ l i there. there)
      load_small (known_in loaded.type_id_to_name) small-IsClosed
