-- ===== src/Topology/Groups/Visit.antt =====
-- One dependency in the walk of `rootCandidates` in internal/topology/graph.go.
use argus.Base.{
  String, ◌≡◌, ◌⊎◌, refl, ap, true, List, [], ◌∷◌, ◌++◌, arith, length, elem, elem-head, elem-tail,
  elem-append, elem-cons, str_eq-eq, inl, inr, if◌then◌else◌,
}
use argus.Topology.{add_key}
use argus.Topology.Groups.{Walk}

-- Visiting one new dependency.
abbrev pub visit : Walk → String → Walk
visit w d = if elem d w.visited then w else record {
  queue = w.queue ++ d ∷ [];
  visited = d ∷ w.visited;
  candidates = add_key w.candidates d;
}

pub visit-visited :
    (w : Walk) (d v : String) → elem v w.visited ≡ true → elem v (visit w d).visited ≡ true
visit-visited w d v h = ground (arith, elem-tail v d w.visited)

pub visit-queue :
    (w : Walk) (d v : String) → elem v w.queue ≡ true → elem v (visit w d).queue ≡ true
visit-queue w d v h = ground (arith, elem-append v w.queue (d ∷ []))

pub visit_self : (w : Walk) (d : String) → elem d (visit w d).visited ≡ true
visit_self w d = ground (arith, elem-head d w.visited)

pub visit-new :
    (w : Walk) (d v : String)
    → elem v (visit w d).visited ≡ true
    → (elem v w.visited ≡ true) ⊎ (elem v (visit w d).queue ≡ true)
visit-new w d v h = ground (
  arith,
  elem-cons v d w.visited,
  elem-append d w.queue (d ∷ []),
  elem-head d [],
  ap (λ x. elem x (w.queue ++ d ∷ [])),
)

pub visit-candidates :
    (w : Walk) (d : String)
    → ((v : String) → elem v w.visited ≡ true → elem v w.candidates ≡ true)
    → (v : String) → elem v (visit w d).visited ≡ true
    → elem v (visit w d).candidates ≡ true
unfolding elem
visit-candidates w d kept v h = ground (arith, kept v, str_eq-eq d v, ap (λ x. elem x w.candidates))

pub List-cases :
    (xs : List String) → (xs ≡ []) ⊎ ((x : String) × (rest : List String) × (xs ≡ x ∷ rest))
List-cases [] = inl refl
List-cases (x ∷ rest) = inr (x, rest, refl)

pub no_length : (xs : List String) → length xs ≡ 0 → xs ≡ []
no_length [] h = refl
no_length (x ∷ xs) h = absurd (omega (arith, h))
