-- ===== src/Topology/Route.antt =====
-- What a path in the dependency graph is, without a search.
use argus.Base.{
  ◌≤◌, String, ◌≡◌, true, List, [], ◌∷◌, ◌++◌, length, length-append, arith, Dict, elem,
}
use argus.Topology.{direct}

-- `Route m s t p`: p lists services from s to t, and each is a direct dependency of the one before it.
pub data Route (m : Dict (List String)) (s : String) : String → List String → Type 0 where
  here : {t : String} {p : List String} → t ≡ s → p ≡ s ∷ [] → Route m s t p
  hop :
      {t u : String} {p q : List String}
      → Route m s t p
      → elem u (direct m t) ≡ true
      → q ≡ p ++ u ∷ []
      → Route m s u q

module _ {m : Dict (List String)} {s : String} where
  pub Route-length-pos : {t : String} {p : List String} → Route m s t p → 1 ≤ length p
  Route-length-pos (here e f) = rw f (omega arith)
  Route-length-pos (hop {u = u} {p = p} r e f) = rw f (omega (arith, length-append p (u ∷ [])))
