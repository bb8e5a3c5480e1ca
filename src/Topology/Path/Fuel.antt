-- ===== src/Topology/Path/Fuel.antt =====
-- The search of `(*Graph).Path` in internal/topology/graph.go enters a candidate once for each
-- service that it sees, so the entries of the dependency lists bound its rounds.
use argus.Base.{
  ℕ, ◌+◌, ◌≤◌, String, ◌≡◌, true, false, List, [], ◌∷◌, ◌++◌, length, length-append, arith, Dict,
  lookup, elem, elem-head, elem-tail, str_eq, str_eq-eq, Bool-cases, inl, inr, if◌then◌else◌,
}
use argus.Topology.{Candidate, Scan, found, go_on, direct, scan, entries}

-- The entries of a list, and of the whole map, that are not visited.
pub fresh : List String → List String → ℕ
fresh visited [] = 0
fresh visited (x ∷ xs) = (if elem x visited then 0 else 1) + fresh visited xs

pub unvisited : List String → Dict (List String) → ℕ
unfolding fresh
unvisited visited [] = 0
unvisited visited ((k, l) ∷ m) = fresh visited l + unvisited visited m

fresh-le-length : (visited l : List String) → fresh visited l ≤ length l
unfolding fresh
fresh-le-length visited [] = omega arith
fresh-le-length visited (x ∷ l) = ground (arith, fresh-le-length visited l)

pub unvisited-le-entries :
    (visited : List String) (m : Dict (List String)) → unvisited visited m ≤ entries m
unfolding unvisited entries
unvisited-le-entries visited [] = omega arith
unvisited-le-entries visited ((k, l) ∷ m) =
    omega (arith, fresh-le-length visited l, unvisited-le-entries visited m)

fresh-visit-le : (x : String) (visited l : List String) → fresh (x ∷ visited) l ≤ fresh visited l
unfolding fresh
fresh-visit-le x visited [] = omega arith
fresh-visit-le x visited (y ∷ l) = ground (arith, elem-tail y x visited, fresh-visit-le x visited l)

fresh-visit :
    (x : String) (visited l : List String)
    → elem x visited ≡ false
    → elem x l ≡ true
    → fresh (x ∷ visited) l + 1 ≤ fresh visited l
unfolding fresh elem
fresh-visit x visited [] new h = cc
fresh-visit x visited (y ∷ l) new h = elim (Bool-cases (str_eq y x)) [
  | inl same ↦
      rw (str_eq-eq y x same)
        (rw new (ground (arith, elem-head x visited, fresh-visit-le x visited l)))
  | inr differ ↦ ground (arith, elem-tail y x visited, fresh-visit x visited l)
]

unvisited-visit-le :
    (x : String) (visited : List String) (m : Dict (List String))
    → unvisited (x ∷ visited) m ≤ unvisited visited m
unfolding unvisited
unvisited-visit-le x visited [] = omega arith
unvisited-visit-le x visited ((k, l) ∷ m) =
    omega (arith, fresh-visit-le x visited l, unvisited-visit-le x visited m)

-- Visiting a dependency of some service uses up one entry at least.
pub unvisited-visit :
    (x k : String) (visited : List String) (m : Dict (List String))
    → elem x visited ≡ false
    → elem x (direct m k) ≡ true
    → unvisited (x ∷ visited) m + 1 ≤ unvisited visited m
unfolding unvisited direct lookup
unvisited-visit x k visited [] new h = unfold elem in cc
unvisited-visit x k visited ((j, l) ∷ m) new h = ground (
  arith,
  fresh-visit x visited l,
  fresh-visit-le x visited l,
  unvisited-visit-le x visited m,
  unvisited-visit x k visited m,
)

abbrev pub Shrinks : ℕ → Dict (List String) → Scan → Type 0
Shrinks n m (found p) = Unit
Shrinks n m (go_on visited queue) = length queue + unvisited visited m ≤ n

-- The inner loop never adds to the candidates and the unvisited entries together.
pub scan-Shrinks :
    (m : Dict (List String)) (k dependency : String) (p nexts visited : List String)
    (queue : List Candidate) (n : ℕ)
    → ((u : String) → elem u nexts ≡ true → elem u (direct m k) ≡ true)
    → length queue + unvisited visited m ≤ n
    → Shrinks n m (scan dependency p nexts visited queue)
unfolding scan
scan-Shrinks m k dependency p [] visited queue n sub h = h
scan-Shrinks m k dependency p (next ∷ rest) visited queue n sub h =
    let sub' = λ (u : String) (e : elem u rest ≡ true). sub u (elem-tail u next rest e) in
    elim (Bool-cases (elem next visited)) [
      | inl seen ↦ rw seen (scan-Shrinks m k dependency p rest visited queue n sub' h)
      | inr new ↦
          let added : List Candidate = record { service = next; path = p ++ next ∷ [] } ∷ [] in
          elim (Bool-cases (str_eq next dependency)) [
            | inl hit ↦ rw (new, hit) tt
            | inr miss ↦
                rw (new, miss)
                  (scan-Shrinks m k dependency p rest (next ∷ visited) (queue ++ added) n sub' (
                    omega (
                      arith,
                      length-append queue added,
                      unvisited-visit next k visited m new (sub next (elem-head next rest)),
                    )))
          ]
    ]
