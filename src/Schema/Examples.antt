-- ===== src/Schema/Examples.antt =====
-- Tests of the negotiation and of the registry, and their theorems at concrete versions.
use roost_skill.Common.{true, false, [], ◌∷◌, some, ◌≡◌, refl, arith, sort_by}
use roost_skill.Common.Maps.{get_or, lookup}
use roost_skill.Common.Results.{ok, fail}
use roost_skill.Applier.{SchemaRange}
use roost_skill.Schema.{
  registry_sealed, migration_exists, negotiate_schema, Migration, Registry, new_registry, register,
  seal, look, neighbours, after_look, search_path, targets, migration_path,
}
use roost_skill.Schema.Negotiation.{Negotiated, negotiate_schema-Negotiated}
use roost_skill.Schema.Paths.{FindsPath}
use roost_skill.Schema.Termination.{Ends, migration_path-IsPath}

abbrev older : SchemaRange
older = record { min = 1; max = 3 }

abbrev newer : SchemaRange
newer = record { min = 2; max = 5 }

abbrev keep : Migration
keep p = ok (some p.payload)

-- Two ways from 1 to 3, and a way back.
abbrev registry : Registry
registry = record {
  edges =
      (1, (4, keep) ∷ (2, keep) ∷ []) ∷ (2, (3, keep) ∷ (1, keep) ∷ []) ∷ (4, (3, keep) ∷ []) ∷ [];
  is_sealed = true;
}

negotiated : negotiate_schema older newer ≡ ok 3
unfolding negotiate_schema
negotiated = refl

shortest_path : migration_path 1 3 registry ≡ some (ok (1 ∷ 2 ∷ 3 ∷ []))
unfolding migration_path search_path look neighbours after_look targets sort_by get_or
shortest_path = refl

registered_twice :
    register 1 2 (some keep) (record registry { is_sealed = false }) ≡ fail migration_exists
unfolding register lookup get_or
registered_twice = refl

registered_late : register 7 8 (some keep) (seal new_registry) ≡ fail registry_sealed
unfolding register
registered_late = refl

negotiate_schema-Negotiated_example : Negotiated older newer (negotiate_schema older newer)
negotiate_schema-Negotiated_example =
    negotiate_schema-Negotiated older newer (ground arith) (ground arith)

migration_path-IsPath_example :
    Ends (migration_path 1 3 registry) × FindsPath registry 1 3 (migration_path 1 3 registry)
migration_path-IsPath_example = migration_path-IsPath 1 3 registry
