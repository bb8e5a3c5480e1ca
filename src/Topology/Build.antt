-- ===== src/Topology/Build.antt =====
-- The graph that `New` of internal/topology/graph.go builds from the stored dependencies.
use argus.Base.{
  String, ◌≡◌, refl, ◌∙◌, Bool, true, false, not, ◌&&◌, ◌||◌, List, [], ◌∷◌, arith, Dict, lookup,
  insert, lookup-insert, elem, elem-append, elem-sort_strings, sort_strings, str_eq, str_eq-eq,
  Bool-cases, inl, inr, if◌then◌else◌,
}
use argus.Topology.{Dependency, Graph, append_unique, direct, add_edge, add_edges, sort_all, new}

-- The edge names two different services.
abbrev pub is_proper : Dependency → Bool
is_proper edge =
    not
      (str_eq edge.service "" || (str_eq edge.depends_on "" || str_eq edge.service edge.depends_on))

-- The edge says that s depends on t.
abbrev pub links : String → String → Dependency → Bool
links s t edge = is_proper edge && (str_eq edge.service s && str_eq edge.depends_on t)

abbrev pub any_links : String → String → List Dependency → Bool
any_links s t [] = false
any_links s t (edge ∷ edges) = links s t edge || any_links s t edges

elem-append_unique :
    (t x : String) (l : List String) → elem t (append_unique l x) ≡ (elem t l || str_eq x t)
unfolding append_unique elem
elem-append_unique t x l = elim (Bool-cases (elem x l)) [
  | inl old ↦ rw old (same_or (str_eq x t) (λ e. rw (str_eq-eq x t e) at old))
  | inr new ↦ rw (new, elem-append) (ground arith)
]
  where
    same_or : (b : Bool) → (b ≡ true → elem t l ≡ true) → elem t l ≡ (elem t l || b)
    same_or true h = ground (arith, h refl)
    same_or false h = ground arith

direct-insert :
    (m : Dict (List String)) (k s : String) (l : List String)
    → direct (insert k l m) s ≡ (if str_eq k s then l else direct m s)
unfolding direct
direct-insert m k s l = ground (arith, lookup-insert k s l m)

add_edge-direct :
    (g : Graph) (edge : Dependency) (s t : String)
    → elem t (direct (add_edge g edge).dependencies s)
      ≡ (elem t (direct g.dependencies s) || links s t edge)
unfolding add_edge
add_edge-direct g edge s t = elim (Bool-cases (str_eq edge.service s)) [
  | inl same ↦ ground (
    arith,
    direct-insert g.dependencies edge.service s
        (append_unique (direct g.dependencies edge.service) edge.depends_on),
    elem-append_unique t edge.depends_on (direct g.dependencies edge.service),
    str_eq-eq edge.service s,
  )
  | inr differ ↦ ground (
    arith,
    direct-insert g.dependencies edge.service s
        (append_unique (direct g.dependencies edge.service) edge.depends_on),
  )
]

add_edges-direct :
    (g : Graph) (edges : List Dependency) (s t : String)
    → elem t (direct (add_edges g edges).dependencies s)
      ≡ (elem t (direct g.dependencies s) || any_links s t edges)
unfolding add_edges
add_edges-direct g [] s t = ground arith
add_edges-direct g (edge ∷ edges) s t =
    ground (arith, add_edges-direct (add_edge g edge) edges s t, add_edge-direct g edge s t)

direct-sort_all :
    (m : Dict (List String)) (s : String) → direct (sort_all m) s ≡ sort_strings (direct m s)
unfolding sort_all direct lookup
direct-sort_all [] s = unfold sort_strings in refl
direct-sort_all ((k, l) ∷ m) s = ground (arith, direct-sort_all m s)

-- `New` keeps the proper edges and nothing else: t is a direct dependency of s in the graph exactly
-- when some stored dependency between two different, named services says so.
pub new-direct :
    (edges : List Dependency) (s t : String)
    → elem t (direct (new edges).dependencies s) ≡ any_links s t edges
unfolding new
new-direct edges s t =
    let start : Graph = record { dependencies = []; services = [] } in
    rw (direct-sort_all, elem-sort_strings)
      (add_edges-direct start edges s t ∙ nothing_yet s t (any_links s t edges))
  where
    nothing_yet : (s t : String) (b : Bool) → (elem t (direct [] s) || b) ≡ b
    nothing_yet s t b = unfold direct lookup elem in refl
