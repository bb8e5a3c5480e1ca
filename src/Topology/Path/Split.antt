-- ===== src/Topology/Path/Split.antt =====
-- The inner loop of `(*Graph).Path` in internal/topology/graph.go ends in one of two ways.
use argus.Base.{String, ◌≡◌, refl, ◌⊎◌, inl, inr, List}
use argus.Topology.{Candidate, Scan, found, go_on}

-- A split on the result of the inner loop.
pub Scan-cases :
    (r : Scan)
    → ((p : List String) × (r ≡ found p))
      ⊎ ((visited : List String) × (queue : List Candidate) × (r ≡ go_on visited queue))
Scan-cases (found p) = inl (p, refl)
Scan-cases (go_on visited queue) = inr (visited, queue, refl)
