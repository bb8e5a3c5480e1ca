-- ===== src/Topology/Groups/Candidates.antt =====
-- The services that `rootCandidates` of internal/topology/graph.go collects.
use mathlib.Core.Path.{subst}
use argus.Base.{
  ℕ, zero, suc, String, ◌≡◌, ◌⊎◌, true, some, List, [], ◌∷◌, arith, elem, elem-head, elem-tail,
  elem-cons, elem-sort_strings, Bool-cases, Option-cases, inl, inr, Dict,
}
use argus.Topology.{Graph, add_key, direct, entries}
use argus.Topology.Groups.{Walk, walk_scan, walk, next_walk, root_candidates_from, root_candidates}

-- The walk only adds candidates.
pub elem-add_key :
    (x k : String) (keys : List String) → elem x keys ≡ true → elem x (add_key keys k) ≡ true
unfolding elem
elem-add_key x k keys h = ground (arith, elem-tail x k keys h)

pub elem-add_key_self : (k : String) (keys : List String) → elem k (add_key keys k) ≡ true
elem-add_key_self k keys = elim (Bool-cases (elem k keys)) [
  | inl old ↦ rw old old
  | inr new ↦ rw new (elem-head k keys)
]

walk_scan-candidates :
    (x : String) (ds : List String) (w : Walk)
    → elem x w.candidates ≡ true
    → elem x (walk_scan ds w).candidates ≡ true
unfolding walk_scan
walk_scan-candidates x [] w h = h
walk_scan-candidates x (d ∷ ds) w h =
    walk_scan-candidates x ds _ (ground (arith, elem-add_key x d w.candidates h))

same_walk : (v w : Walk) → some v ≡ some w → v ≡ w
same_walk v w e = cc

next_walk-candidates :
    (x : String) (m : Dict (List String)) (w w' : Walk) (queue : List String)
    → next_walk m w queue ≡ some w'
    → elem x w.candidates ≡ true
    → elem x w'.candidates ≡ true
unfolding next_walk
next_walk-candidates x m w w' [] e h = cc
next_walk-candidates x m w w' (current ∷ queue) e h =
    let w₁ : Walk = record w { queue = queue } in
    let kept = walk_scan-candidates x (direct m current) w₁ h in
    rw (same_walk (walk_scan (direct m current) w₁) w' e) at kept

walk-candidates :
    (x : String) (fuel : ℕ) (m : Dict (List String)) (w : Walk)
    → elem x w.candidates ≡ true
    → elem x (walk fuel m w).candidates ≡ true
unfolding walk
walk-candidates x zero m w h = h
walk-candidates x (suc fuel) m w h = elim (Option-cases (next_walk m w w.queue)) [
  | inl stop ↦ rw (stop, walk) h
  | inr (w', e) ↦
      rw (e, walk) (walk-candidates x fuel m w' (next_walk-candidates x m w w' w.queue e h))
]

pub root_candidates_from-keeps :
    (g : Graph) (x : String) (services candidates : List String)
    → (elem x candidates ≡ true) ⊎ (elem x services ≡ true)
    → elem x (root_candidates_from g services candidates) ≡ true
unfolding root_candidates_from
root_candidates_from-keeps g x [] candidates (inl h) = h
root_candidates_from-keeps g x [] candidates (inr h) = unfold elem in cc
root_candidates_from-keeps g x (service ∷ services) candidates h =
    let start : Walk = record {
      queue = service ∷ [];
      visited = service ∷ [];
      candidates = add_key candidates service;
    } in
    let fuel = suc (suc (entries g.dependencies)) in
    let walked = walk fuel g.dependencies start in
    let kept = λ (e : elem x (add_key candidates service) ≡ true).
      root_candidates_from-keeps g x services walked.candidates
        (inl (walk-candidates x fuel g.dependencies start e)) in
    elim h [
      | inl old ↦ kept (elem-add_key x service candidates old)
      | inr listed ↦ elim (elem-cons x service services listed) [
        | inl same ↦ kept (
            subst (λ y. elem y (add_key candidates service) ≡ true) same
              (elem-add_key_self service candidates))
        | inr later ↦ root_candidates_from-keeps g x services walked.candidates (inr later)
      ]
    ]

-- Every unassigned service is a candidate itself.
pub root_candidates_self :
    (g : Graph) (x : String) (services : List String)
    → elem x services ≡ true
    → elem x (root_candidates g services) ≡ true
unfolding root_candidates
root_candidates_self g x services h =
    rw elem-sort_strings (root_candidates_from-keeps g x services [] (inr h))
