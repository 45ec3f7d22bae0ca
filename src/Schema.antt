-- ===== src/Schema.antt =====
-- skillsync/schema.go: the negotiation of a schema version, and the registry of payload migrations
-- with its search for a path. Versions are uint32, and are only compared. The lock is held by each
-- operation, and for each step of Migrate by its read of the edges; the edges are only ever added.
pub mod Negotiation
pub mod Paths
pub mod Termination
mod Examples
use roost_skill.Common.{
  ℕ, zero, suc, ◌+◌, Bool, true, false, if◌then◌else◌, not, ◌&&◌, ◌||◌, ◌==◌, ltb, leb, List, [],
  ◌∷◌, ◌++◌, Option, none, some, any, length, map, sort_by, String,
}
use roost_skill.Common.Maps.{Map, lookup, get_or, insert, keys}
use roost_skill.Common.Results.{Result, ok, fail, ◌>>=◌}
use roost_skill.Applier.{SchemaRange}
use roost_skill.Applier.Streams.{Packet}

pub data SchemaError : Type 0 where
  negotiation_failed migration_invalid migration_exists migration_missing : SchemaError
  registry_sealed : SchemaError
  migration_failed : ℕ → SchemaError

unfoldable pub negotiate_schema : SchemaRange → SchemaRange → Result SchemaError ℕ
negotiate_schema server client =
    let minimum = if ltb server.min client.min then client.min else server.min in
    let maximum = if ltb client.max server.max then client.max else server.max in
    if minimum == 0 || ltb maximum minimum then fail negotiation_failed else ok maximum

-- A migration gives an error or a payload, which may be nil.
abbrev pub Migration : Type 0
Migration = Packet → Result SchemaError (Option String)

pub record Registry : Type 0 where
  pub edges : Map (Map Migration)
  pub is_sealed : Bool

abbrev pub new_registry : Registry
new_registry = record { edges = []; is_sealed = false }

abbrev pub edges_from : ℕ → Registry → Map Migration
edges_from from r = get_or [] from r.edges

abbrev pub is_some : {A : Type 0} → Option A → Bool
is_some none = false
is_some (some a) = true

abbrev add_edge : ℕ → ℕ → Option Migration → Registry → Result SchemaError Registry
add_edge from to none r = fail migration_invalid
add_edge from to (some m) r =
    if r.is_sealed
    then fail registry_sealed
    else if is_some (lookup to (edges_from from r))
    then fail migration_exists
    else ok (record r { edges = insert from (insert to m (edges_from from r)) r.edges })

-- The registry is not nil; the migration may be.
unfoldable pub register : ℕ → ℕ → Option Migration → Registry → Result SchemaError Registry
register from to migration r =
    if from == 0 || to == 0 || from == to
    then fail migration_invalid
    else add_edge from to migration r

abbrev pub seal : Registry → Registry
seal r = record r { is_sealed = true }

pub record Node : Type 0 where
  pub version : ℕ
  pub path : List ℕ

-- A state of the search: its queue and the versions that it has visited.
pub record Search : Type 0 where
  pub queue : List Node
  pub visited : List ℕ

abbrev pub is_visited : List ℕ → ℕ → Bool
is_visited visited version = any (λ v. v == version) visited

pub data Looked : Type 0 where
  found : List ℕ → Looked
  open_yet : Search → Looked

-- The inner loop, over the sorted neighbours of a node.
unfoldable pub look : ℕ → Node → List ℕ → Search → Looked
look to current [] s = open_yet s
look to current (version ∷ next) s =
    let path = current.path ++ version ∷ [] in
    let skipped = look to current next s in
    let visited = look to current next (record {
      queue = s.queue ++ record { version = version; path = path } ∷ [];
      visited = version ∷ s.visited;
    }) in
    if is_visited s.visited version then skipped else if version == to then found path else visited

unfoldable pub neighbours : ℕ → Registry → List ℕ
neighbours version r = sort_by ltb (keys (edges_from version r))

unfoldable pub after_look :
    (Search → Option (Result SchemaError (List ℕ))) → Looked → Option (Result SchemaError (List ℕ))
after_look continue (found path) = some (ok path)
after_look continue (open_yet s) = continue s

-- The outer loop; none means that the fuel ran out.
unfoldable pub search_path :
    ℕ → Registry → ℕ → List Node → List ℕ → Option (Result SchemaError (List ℕ))
search_path zero r to queue visited = none
search_path (suc fuel) r to [] visited = some (fail migration_missing)
search_path (suc fuel) r to (current ∷ queue) visited =
    after_look (λ s. search_path fuel r to s.queue s.visited)
      (look to current (neighbours current.version r) (record { queue = queue; visited = visited }))

-- Every version that an edge leads to, as often as edges do.
unfoldable pub targets : Map (Map Migration) → List ℕ
targets [] = []
targets ((from, edges) ∷ rest) = keys edges ++ targets rest

abbrev pub enough_fuel : Registry → ℕ
enough_fuel r = length (targets r.edges) + 2

unfoldable pub migration_path : ℕ → ℕ → Registry → Option (Result SchemaError (List ℕ))
migration_path from to r =
    if from == 0 || to == 0
    then some (fail migration_invalid)
    else if from == to
    then some (ok (from ∷ []))
    else search_path (enough_fuel r) r to (record { version = from; path = from ∷ [] } ∷ [])
        (from ∷ [])

abbrev migrated_payload : ℕ → Packet → Option String → Result SchemaError Packet
migrated_payload to p none = fail migration_invalid
migrated_payload to p (some payload) = ok (record p { payload = payload; schema_version = to })

abbrev apply_edge : ℕ → ℕ → Packet → Option Migration → Result SchemaError Packet
apply_edge from to p none = fail migration_missing
apply_edge from to p (some m) =
    m (record p { schema_version = from }) >>= λ payload. migrated_payload to p payload

-- The loop of Migrate, over the steps of the path.
unfoldable pub walk : Registry → ℕ → List ℕ → Packet → Result SchemaError Packet
walk r from [] p = ok p
walk r from (to ∷ path) p =
    apply_edge from to p (lookup to (edges_from from r)) >>= λ q. walk r to path q

abbrev walk_path : Registry → List ℕ → Packet → Result SchemaError Packet
walk_path r [] p = ok p
walk_path r (from ∷ path) p = walk r from path p

abbrev with_path :
    Registry → Packet → Option (Result SchemaError (List ℕ)) → Option (Result SchemaError String)
with_path r p none = none
with_path r p (some path_found) =
    some (path_found >>= λ path. walk_path r path p >>= λ q. ok (q.payload))

unfoldable pub migrate : Packet → ℕ → Registry → Option (Result SchemaError String)
unfolding migration_path walk
migrate p target r = with_path r p (migration_path p.schema_version target r)
