-- ===== src/Topology/Path.antt =====
-- The paths that `(*Graph).Path` of internal/topology/graph.go finds are paths of the graph.
mod Split
use Split.{Scan-cases}
pub mod Fuel
pub mod Layers
pub mod Search
pub mod Shortest
use mathlib.Core.Option.{some-injective}
use argus.Base.{
  ℕ, zero, suc, String, ◌≡◌, refl, Bool, true, false, Option, none, some, List, [], ◌∷◌, ◌++◌, All,
  All-append, arith, Dict, elem, elem-head, elem-tail, str_eq, str_eq-eq, Bool-cases, ◌⊎◌, inl, inr,
  if◌then◌else◌,
}
use argus.Topology.{
  ServicePath, Graph, Candidate, Scan, found, go_on, direct, scan, search_path, entries, path,
}
use argus.Topology.Route.{Route, here, hop}

same_path : (p q : List String) → some p ≡ some q → p ≡ q
same_path p q h = cc

module _ (m : Dict (List String)) (s dependency : String) where
  -- Each candidate carries a route to its service.
  abbrev Carries : Candidate → Type 0
  Carries c = Route m s c.service c.path

  abbrev ScanRoutes : Scan → Type 0
  ScanRoutes (found p) = Route m s dependency p
  ScanRoutes (go_on visited queue) = All Carries queue

  scan-Routes :
      (current : Candidate) (nexts visited : List String) (queue : List Candidate)
      → Carries current
      → ((u : String) → elem u nexts ≡ true → elem u (direct m current.service) ≡ true)
      → All Carries queue
      → ScanRoutes (scan dependency current.path nexts visited queue)
  unfolding scan
  scan-Routes current [] visited queue r sub q = q
  scan-Routes current (next ∷ rest) visited queue r sub q = elim (Bool-cases (elem next visited)) [
    | inl seen ↦
        rw seen
          (scan-Routes current rest visited queue r (λ u h. sub u (elem-tail u next rest h)) q)
    | inr new ↦
        let new_path = current.path ++ next ∷ [] in
        let carried : Route m s next new_path = hop r (sub next (elem-head next rest)) refl in
        elim (Bool-cases (str_eq next dependency)) [
          | inl hit ↦ rw (new, hit) (rw (← str_eq-eq next dependency hit) carried)
          | inr miss ↦
              rw (new, miss)
                (scan-Routes current rest (next ∷ visited)
                  (queue ++ record { service = next; path = new_path } ∷ []) r
                  (λ u h. sub u (elem-tail u next rest h))
                  (All-append Carries queue _ q (carried, tt)))
        ]
  ]

  search_path-Route :
      (fuel : ℕ) (queue : List Candidate) (visited p : List String)
      → All Carries queue
      → search_path fuel m dependency queue visited ≡ some p
      → Route m s dependency p
  unfolding search_path
  search_path-Route zero queue visited p q h = cc
  search_path-Route (suc fuel) [] visited p q h = cc
  search_path-Route (suc fuel) (current ∷ queue) visited p q h =
      let r = scan dependency current.path (direct m current.service) visited queue in
      let routes =
        scan-Routes current (direct m current.service) visited queue q.0 (λ u e. e) q.1 in
      elim (Scan-cases r) [
        | inl (p', e) ↦ rw (same_path p' p (rw (e, search_path) at h)) at (rw e at routes)
        | inr (visited', queue', e) ↦
            search_path-Route fuel queue' visited' p (rw e at routes) (rw (e, search_path) at h)
      ]

same_Route :
    (g : Graph) (s t : String) (p : List String) → t ≡ s → p ≡ s ∷ [] → Route g.dependencies s t p
same_Route g s t p e f = here e f

-- What `Path` returns runs from the service to the dependency along direct dependencies.
pub path-Route :
    (g : Graph) (service dependency : String) (p : ServicePath)
    → path g service dependency ≡ some p
    → (p.from ≡ service) × (p.to ≡ dependency) × Route g.dependencies service dependency p.services
unfolding path
path-Route g service dependency p h = ground (
  arith,
  str_eq-eq service dependency,
  same_Route g service dependency p.services,
  search_path-Route g.dependencies service dependency (suc (suc (entries g.dependencies)))
      (record { service = service; path = service ∷ [] } ∷ []) (service ∷ []) p.services
      (here refl refl, tt),
)
