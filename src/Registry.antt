-- ===== src/Registry.antt =====
-- `Runtime.load_registry_type_map` of async_substrate_interface/types.py: the names of the types
-- of a portable registry, and the types of the names.
pub mod Rounds
pub mod Rule
pub mod Ruled
pub mod Least
pub mod Names
mod Tests
use async_substrate_interfac.Prelude.{
  ℕ, zero, suc, ◌+◌, ◌/◌, ◌%◌, ◌==◌, String, Bool, true, false, ◌||◌, Option, none, some, List, [],
  ◌∷◌, length, if◌then◌else◌, is_some, ℕ_discrete,
}
use async_substrate_interfac.Prelude.Dict.{lookup, put}
use async_substrate_interfac.Prelude.Strings.{String-discrete}
use async_substrate_interfac.Json.{◌>>=◌}
use Prim.Native.String.{◌++◌ as join}
use text.Mathlib.Text.{◌==◌ as str_eq}

-- The only key of `def`, with what is under it; `bitsequence` stands for the keys that the code
-- has no case for. An array's length is none where the key is missing.
pub data TypeDef : Type 0 where
  composite : TypeDef
  variant : TypeDef
  sequence : ℕ → TypeDef
  array : ℕ → Option ℕ → TypeDef
  compact : ℕ → TypeDef
  tuple : List ℕ → TypeDef
  primitive : String → TypeDef
  bitsequence : TypeDef

-- An entry of `types`. A key `params` beside `type` is `entry_params`, true where it holds
-- something; `params` is the list under `type`, and a parameter without a type is none.
pub record TypeEntry : Type 0 where
  pub entry_params : Bool
  pub path : List String
  pub params : List (Option ℕ)
  pub def : TypeDef

-- `types`, and `type_by_id` too, which is the same where the ids are distinct, as they are in a
-- portable registry.
abbrev pub Types : Type 0
Types = List (ℕ × TypeEntry)

abbrev pub TypeNames : Type 0
TypeNames = List (ℕ × String)

abbrev pub TypeMap : Type 0
TypeMap = List (String × ℕ)

unfoldable pub last : List String → Option String
last [] = none
last (s ∷ []) = some s
last (s ∷ t ∷ l) = last (t ∷ l)

unfoldable pub is_variant : TypeDef → Bool
is_variant variant = true
is_variant _ = false

unfoldable pub primitive_name : TypeDef → Option String
primitive_name (primitive s) = some s
primitive_name _ = none

-- What the first pass names an entry.
unfoldable pub simple_name : TypeEntry → Option String
unfolding is_variant last primitive_name
simple_name e =
    if e.entry_params || is_variant e.def
    then none
    else elim (last e.path) [ none ↦ primitive_name e.def | some s ↦ some s ]

unfoldable pub gather : Types → TypeNames × TypeMap → TypeNames × TypeMap
unfolding simple_name
gather [] maps = maps
gather ((i, e) ∷ types) (names, ids) = elim (simple_name e) [
  | none ↦ gather types (names, ids)
  | some s ↦ gather types (put ℕ_discrete i s names, put String-discrete s i ids)
]

unfoldable pub digit : ℕ → String
digit d =
    if d == 0
    then "0"
    else if d == 1
    then "1"
    else if d == 2
    then "2"
    else if d == 3
    then "3"
    else if d == 4
    then "4"
    else if d == 5
    then "5"
    else if d == 6
    then "6"
    else if d == 7
    then "7"
    else if d == 8
    then "8"
    else "9"

unfoldable pub digits : ℕ → ℕ → String
unfolding digit
digits zero n = ""
digits (suc fuel) n =
    let high = digits fuel (n / 10) in if n / 10 == 0 then digit n else join high (digit (n % 10))

-- A number in an f-string.
unfoldable pub decimal : ℕ → String
unfolding digits
decimal n = digits (suc n) n

-- `', '.join(names)`.
unfoldable pub comma_join : List String → String
comma_join [] = ""
comma_join (s ∷ []) = s
comma_join (s ∷ t ∷ l) = join s (join ", " (comma_join (t ∷ l)))

-- The names of a list of types, or none where one is missing from `known`, which is
-- `type_id_to_name.get`.
unfoldable pub names_of : (ℕ → Option String) → List ℕ → Option (List String)
names_of known [] = some []
names_of known (i ∷ l) = known i >>= (λ s. names_of known l >>= (λ ss. some (s ∷ ss)))

unfoldable pub param_names : (ℕ → Option String) → List (Option ℕ) → Option (List String)
param_names known [] = some []
param_names known (none ∷ l) = none
param_names known (some i ∷ l) = known i >>= (λ s. param_names known l >>= (λ ss. some (s ∷ ss)))

-- `if inner_type`: a name that is not empty.
unfoldable pub inner_name : (ℕ → Option String) → ℕ → Option String
inner_name known i = known i >>= (λ s. if str_eq s "" then none else some s)

unfoldable pub array_name : String → Option ℕ → String
unfolding decimal
array_name s none = join "[" (join s "]")
array_name s (some zero) = join "[" (join s "]")
array_name s (some (suc n)) = join "[" (join s (join "; " (join (decimal (suc n)) "]")))

unfoldable pub path_name : (ℕ → Option String) → String → List (Option ℕ) → TypeDef → Option String
unfolding param_names comma_join is_variant
path_name known s [] d = if is_variant d then none else some s
path_name known s (p ∷ ps) d =
    param_names known (p ∷ ps) >>= (λ ss. some (join s (join "<" (join (comma_join ss) ">"))))

unfoldable pub shape_name : (ℕ → Option String) → TypeDef → Option String
unfolding inner_name array_name names_of comma_join
shape_name known (sequence i) = inner_name known i >>= (λ s. some (join "Vec<" (join s ">")))
shape_name known (array i len) = inner_name known i >>= (λ s. some (array_name s len))
shape_name known (compact i) = inner_name known i >>= (λ s. some (join "Compact<" (join s ">")))
shape_name known (tuple l) = names_of known l >>= (λ ss. some (join "(" (join (comma_join ss) ")")))
shape_name known variant = none
shape_name known composite = none
shape_name known (primitive _) = none
shape_name known bitsequence = none

-- `resolve_type_definition` of a type that has no name yet.
unfoldable pub resolve_entry : (ℕ → Option String) → TypeEntry → Option String
unfolding last path_name shape_name
resolve_entry known e = elim (last e.path) [
  | none ↦ shape_name known e.def
  | some s ↦ path_name known s e.params e.def
]

unfoldable pub resolve_type_definition : Types → TypeNames → ℕ → Option String
unfolding resolve_entry
resolve_type_definition types names i = elim (lookup ℕ_discrete i names) [
  | some s ↦ some s
  | none ↦ lookup ℕ_discrete i types >>= resolve_entry (λ j. lookup ℕ_discrete j names)
]

-- `type_id_to_name` and `registry_type_map`, with the ids that are pending and `resolved_type`.
pub record Progress : Type 0 where
  pub type_id_to_name : TypeNames
  pub registry_type_map : TypeMap
  pub pending_ids : List ℕ
  pub resolved_type : Bool

-- `for type_id in list(pending_ids)`, with the ids that stay pending.
unfoldable pub round : Types → List ℕ → TypeNames → TypeMap → Progress
unfolding resolve_type_definition
round types [] names ids = record {
  type_id_to_name = names;
  registry_type_map = ids;
  pending_ids = [];
  resolved_type = false;
}
round types (i ∷ l) names ids = elim (resolve_type_definition types names i) [
  | none ↦ let s = round types l names ids in record s { pending_ids = i ∷ s.pending_ids }
  | some name ↦
      let s = round types l (put ℕ_discrete i name names) (put String-discrete name i ids) in
      record s { resolved_type = true }
]

-- The ids of the types that have no name yet.
unfoldable pub unnamed : Types → TypeNames → List ℕ
unnamed [] names = []
unnamed ((i, e) ∷ types) names =
    let rest = unnamed types names in if is_some (lookup ℕ_discrete i names) then rest else i ∷ rest

-- The order in which a Python set lists its items is `order`.
module _ (order : List ℕ → List ℕ) where
  unfoldable pub next_round : Types → Progress → Progress
  unfolding round
  next_round types s = round types (order s.pending_ids) s.type_id_to_name s.registry_type_map

  unfoldable pub resolve_loop : ℕ → Types → Progress → Option Progress
  unfolding next_round
  resolve_loop zero types s = none
  resolve_loop (suc fuel) types s =
      let next = resolve_loop fuel types (next_round types s) in
      if s.resolved_type then elim s.pending_ids [ [] ↦ some s | i ∷ l ↦ next ] else some s

  unfoldable pub gathered : Types → Progress
  unfolding gather unnamed
  gathered types =
      let maps = gather types ([], []) in
      record {
        type_id_to_name = maps.0;
        registry_type_map = maps.1;
        pending_ids = unnamed types maps.0;
        resolved_type = true;
      }

  -- A round that names something leaves fewer ids, so there are at most as many rounds as types,
  -- and one more.
  unfoldable pub load_registry_type_map : Types → Option Progress
  unfolding gathered resolve_loop
  load_registry_type_map types = resolve_loop (suc (suc (length types))) types (gathered types)
