-- ===== src/Examples/Graphs.antt =====
-- Runs of internal/topology/graph.go on a small graph: web and api depend on db.
use argus.Base.{
  ◌≤◌, String, ◌≡◌, ◌≢◌, refl, true, some, List, [], ◌∷◌, length, All, elem, occurrences, str_eq,
  insert, lookup, sort_strings, if◌then◌else◌,
}
use argus.Topology.{
  Dependency, ServicePath, Graph, add_edge, append_unique, direct, new, path, scan, search_path,
  entries,
}
use argus.Topology.Groups.{groups, root_candidates}
use argus.Topology.Route.{Route, here, hop}
use argus.Topology.Build.{any_links, new-direct}
use argus.Topology.Path.{path-Route}
use argus.Topology.Path.Shortest.{path-shortest}
use argus.Topology.Groups.Partition.{all_members, is_alerted, groups-occurrences}
use argus.Topology.Groups.Reach.{root_candidates-Route}
use argus.Topology.Groups.Members.{AllHavePaths, groups-HavePaths}

abbrev web : String
web = "web"

abbrev db : String
db = "db"

abbrev edge : String → String → Dependency
edge service depends_on = record {
  id = "";
  service_id = "";
  service = service;
  depends_on_id = "";
  depends_on = depends_on;
  dependency_type = "runtime";
  criticality = "high";
  created_at = 0;
}

abbrev edges : List Dependency
edges = edge "web" "api" ∷ edge "api" "db" ∷ edge "web" "db" ∷ []

-- The graph that `new edges` computes to.
abbrev small : Graph
small = record {
  dependencies = ("web", "api" ∷ "db" ∷ []) ∷ ("api", "db" ∷ []) ∷ [];
  services = "db" ∷ "api" ∷ "web" ∷ [];
}

small_is_new : (new edges).dependencies ≡ small.dependencies
unfolding new add_edge append_unique direct str_eq insert sort_strings elem lookup
small_is_new = refl

web_db : Route small.dependencies "web" "db" ("web" ∷ "api" ∷ "db" ∷ [])
unfolding direct elem str_eq lookup
web_db = hop (hop (here refl refl) refl refl) refl refl

path_web_db :
    path small "web" "db" ≡ some (record { from = "web"; to = "db"; services = "web" ∷ "db" ∷ [] })
unfolding path direct str_eq search_path scan entries lookup elem
path_web_db = refl

new-direct_example : elem "db" (direct (new edges).dependencies "web") ≡ any_links "web" "db" edges
new-direct_example = new-direct edges "web" "db"

path-Route_example :
    (web ≡ web) × (db ≡ db) × Route small.dependencies "web" "db" ("web" ∷ "db" ∷ [])
path-Route_example =
    path-Route small "web" "db" (record { from = "web"; to = "db"; services = "web" ∷ "db" ∷ [] })
      path_web_db

path-shortest_example :
    (q : ServicePath) × (path small "web" "db" ≡ some q) × (length q.services ≤ 3)
path-shortest_example =
    path-shortest small "web" "db" ("web" ∷ "api" ∷ "db" ∷ []) web_named db_named web_db
  where
    web_named : web ≢ ""
    web_named e = cc

    db_named : db ≢ ""
    db_named e = cc

abbrev alerts : List String
alerts = "web" ∷ "api" ∷ []

groups-occurrences_example :
    occurrences "api" (all_members (groups small alerts))
    ≡ (if is_alerted alerts "api" then 1 else 0)
groups-occurrences_example = groups-occurrences small alerts "api"

groups-HavePaths_example : All (AllHavePaths small) (groups small alerts)
groups-HavePaths_example = groups-HavePaths small alerts

root_candidates-Route_example : elem "db" (root_candidates small alerts) ≡ true
unfolding elem str_eq
root_candidates-Route_example =
    root_candidates-Route small alerts "web" "db" ("web" ∷ "api" ∷ "db" ∷ []) refl web_db
