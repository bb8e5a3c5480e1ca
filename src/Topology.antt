-- ===== src/Topology.antt =====
-- The service dependency graph and the paths in it: internal/topology/graph.go. A Go map is an
-- association list and a `map[string]struct{}` the list of its keys.
pub mod Groups
pub mod Path
pub mod Build
pub mod Route
use argus.Base.{
  ℕ, zero, suc, ◌+◌, String, Bool, true, false, ◌||◌, Option, none, some, List, [], ◌∷◌, ◌++◌, map,
  length, Dict, lookup, insert, elem, str_eq, sort_strings, if◌then◌else◌,
}

pub record Dependency : Type 0 where
  pub id : String
  pub service_id : String
  pub service : String
  pub depends_on_id : String
  pub depends_on : String
  pub dependency_type : String
  pub criticality : String
  pub created_at : ℕ

pub record ServicePath : Type 0 where
  pub from : String
  pub to : String
  pub services : List String

pub record Graph : Type 0 where
  pub dependencies : Dict (List String)
  pub services : List String

unfoldable pub append_unique : List String → String → List String
append_unique values value = if elem value values then values else values ++ value ∷ []

abbrev pub add_key : List String → String → List String
add_key keys k = if elem k keys then keys else k ∷ keys

-- `g.dependencies[service]`: a missing key reads as nil.
unfoldable pub direct : Dict (List String) → String → List String
direct m service = elim (lookup service m) [ none ↦ [] | some l ↦ l ]

unfoldable pub add_edge : Graph → Dependency → Graph
add_edge graph edge =
    if str_eq edge.service "" || (str_eq edge.depends_on "" || str_eq edge.service edge.depends_on)
    then graph
    else record {
      services = add_key (add_key graph.services edge.service) edge.depends_on;
      dependencies =
          insert edge.service
            (append_unique (direct graph.dependencies edge.service) edge.depends_on)
            graph.dependencies;
    }

unfoldable pub add_edges : Graph → List Dependency → Graph
unfolding add_edge append_unique direct
add_edges graph [] = graph
add_edges graph (edge ∷ edges) = add_edges (add_edge graph edge) edges

unfoldable pub sort_all : Dict (List String) → Dict (List String)
sort_all [] = []
sort_all ((k, l) ∷ m) = (k, sort_strings l) ∷ sort_all m

-- `New`
unfoldable pub new : List Dependency → Graph
unfolding add_edges sort_all
new edges =
    let graph = add_edges (record { dependencies = []; services = [] }) edges in
    record graph { dependencies = sort_all graph.dependencies }

pub record Candidate : Type 0 where
  pub service : String
  pub path : List String

-- What the inner loop of `Path` does with the dependencies of one candidate.
pub data Scan : Type 0 where
  found : List String → Scan
  go_on : List String → List Candidate → Scan

-- `for _, next := range g.dependencies[current.service]`
unfoldable pub scan : String → List String → List String → List String → List Candidate → Scan
scan dependency current_path [] visited queue = go_on visited queue
scan dependency current_path (next ∷ rest) visited queue =
    let path = current_path ++ next ∷ [] in
    let candidate : Candidate = record { service = next; path = path } in
    let skip = scan dependency current_path rest visited queue in
    let visit = scan dependency current_path rest (next ∷ visited) (queue ++ candidate ∷ []) in
    if elem next visited then skip else if str_eq next dependency then found path else visit

-- `for len(queue) > 0`, one round of fuel for each candidate that is taken off the queue.
unfoldable pub search_path :
    ℕ → Dict (List String) → String → List Candidate → List String → Option (List String)
search_path zero m dependency queue visited = none
search_path (suc fuel) m dependency [] visited = none
search_path (suc fuel) m dependency (current ∷ queue) visited =
    elim (scan dependency current.path (direct m current.service) visited queue) [
      | found path ↦ some path
      | go_on visited' queue' ↦ search_path fuel m dependency queue' visited'
    ]

-- How many entries the dependency lists have. Every candidate but the first is entered for one.
unfoldable pub entries : Dict (List String) → ℕ
entries [] = 0
entries ((k, l) ∷ m) = length l + entries m

-- `(*Graph).Path`; `Path{}, false` is none.
unfoldable pub path : Graph → String → String → Option ServicePath
unfolding search_path scan direct entries
path g service dependency =
    if str_eq service "" || str_eq dependency ""
    then none
    else if str_eq service dependency
    then some (record { from = service; to = dependency; services = service ∷ [] })
    else elim (search_path (suc (suc (entries g.dependencies))) g.dependencies dependency
        (record { service = service; path = service ∷ [] } ∷ []) (service ∷ [])) [
          | none ↦ none
          | some services ↦ some (record { from = service; to = dependency; services = services })
        ]
