-- ===== src/Topology/Groups/Choice.antt =====
-- Which root `Groups` of internal/topology/graph.go chooses in a round.
use argus.Base.{
  ◌≤◌, ◌<◌, String, ◌≡◌, ◌⊎◌, refl, ap, true, false, List, [], ◌∷◌, length, arith, elem, elem-head,
  elem-cons, elem-sort_strings, str_eq, str_eq-eq, str_eq_refl, ◌==◌, sort_strings, Bool-cases,
  not-elem-nil, inl, inr, All,
}
use argus.Topology.{Graph, path}
use argus.Topology.Groups.{
  root_candidates, covered, covered_from, Best, no_best, better_root, consider, choose, best_of,
}
use argus.Topology.Groups.Covered.{has_path, covered-keep, elem-keep}
use argus.Topology.Groups.Candidates.{root_candidates_self}

-- A candidate that covers some service, with what it covers.
pub record Chosen (g : Graph) (unassigned : List String) (best : Best) : Type 0 where
  pub named : str_eq best.root "" ≡ false
  pub all_covered : best.members ≡ (covered g best.root unassigned).0
  pub all_distance : best.distance ≡ (covered g best.root unassigned).1
  pub some_covered : 0 < length best.members

-- No service has a path to the empty name.
covered-unnamed : (g : Graph) (services : List String) → (covered_from g "" services).0 ≡ []
unfolding covered_from path
covered-unnamed g [] = refl
covered-unnamed g (x ∷ xs) = ground (arith, covered-unnamed g xs, str_eq_refl "")

named_of_covered :
    (g : Graph) (root : String) (services : List String)
    → 0 < length (covered g root services).0
    → str_eq root "" ≡ false
unfolding covered sort_strings
named_of_covered g root services h = elim (Bool-cases (str_eq root "")) [
  | inl unnamed ↦
      let none_covered = covered-unnamed g services in
      let e = str_eq-eq root "" unnamed in absurd (omega (arith, rw (e, none_covered) at h))
  | inr named ↦ named
]

module _ (g : Graph) (alerted unassigned : List String) where
  abbrev IsStart : Best → Type 0
  IsStart best = best ≡ no_best

  consider-Chosen :
      (best : Best) (root : String)
      → IsStart best ⊎ Chosen g unassigned best
      → IsStart (consider g alerted unassigned best root)
        ⊎ Chosen g unassigned (consider g alerted unassigned best root)
  unfolding consider
  consider-Chosen best root h =
      let (members, distance) = covered g root unassigned in
      let new : Best = record {
        root = root;
        members = members;
        distance = distance;
        alerted = elem root alerted;
      } in
      elim (Bool-cases (length members == 0)) [
        | inl empty ↦ rw empty h
        | inr full ↦
            let covers : 0 < length members = ground arith in
            elim (Bool-cases (better_root new best)) [
              | inl better ↦
                  rw (full, better)
                    (inr (record {
                      named = named_of_covered g root unassigned covers;
                      all_covered = refl;
                      all_distance = refl;
                      some_covered = covers;
                    }))
              | inr worse ↦ rw (full, worse) h
            ]
      ]

  -- `a` covers more than `b`, or as many services over no more hops.
  abbrev pub Beats : Best → Best → Type 0
  Beats a b =
      (length b.members < length a.members)
      ⊎ ((length b.members ≡ length a.members) × (a.distance ≤ b.distance))

  -- What a root would give in this round.
  abbrev pub offer : String → Best
  offer root = record {
    root = root;
    members = (covered g root unassigned).0;
    distance = (covered g root unassigned).1;
    alerted = elem root alerted;
  }

  consider-Beats :
      (best : Best) (root : String)
      → Beats (consider g alerted unassigned best root) best
        × (0 < length (covered g root unassigned).0
            → Beats (consider g alerted unassigned best root) (offer root))
  unfolding consider
  consider-Beats best root = ground arith

  consider-covering :
      (best : Best) (root : String)
      → 0 < length (covered g root unassigned).0
      → IsStart best ⊎ Chosen g unassigned best
      → Chosen g unassigned (consider g alerted unassigned best root)
  consider-covering best root covers h = elim (consider-Chosen best root h) [
    | inl start ↦ absurd (
        omega
          (arith, ap (λ (b : Best). length b.members) start, (consider-Beats best root).1 covers))
    | inr chosen ↦ chosen
  ]

  choose-Chosen :
      (roots : List String) (best : Best)
      → Chosen g unassigned best
      → Chosen g unassigned (choose g alerted unassigned roots best)
  unfolding choose
  choose-Chosen [] best h = h
  choose-Chosen (root ∷ roots) best h =
      choose-Chosen roots (consider g alerted unassigned best root)
        (elim (consider-Chosen best root (inr h)) [
          | inl start ↦ absurd (
              omega (
                arith,
                h.some_covered,
                ap (λ (b : Best). length b.members) start,
                (consider-Beats best root).0,
              ))
          | inr chosen ↦ chosen
        ])

  -- One candidate that covers something is enough.
  choose-covering :
      (roots : List String) (best : Best) (root : String)
      → elem root roots ≡ true
      → 0 < length (covered g root unassigned).0
      → IsStart best ⊎ Chosen g unassigned best
      → Chosen g unassigned (choose g alerted unassigned roots best)
  unfolding choose
  choose-covering [] best root e covers h = unfold elem in cc
  choose-covering (r ∷ roots) best root e covers h = elim (elem-cons root r roots e) [
    | inl same ↦
        choose-Chosen roots (consider g alerted unassigned best r)
          (consider-covering best r (rw same covers) h)
    | inr later ↦
        choose-covering roots (consider g alerted unassigned best r) root later covers
          (consider-Chosen best r h)
  ]

-- A named service covers itself.
covered_self :
    (g : Graph) (x : String) (services : List String)
    → str_eq x "" ≡ false
    → elem x services ≡ true
    → 0 < length (covered g x services).0
unfolding has_path path
covered_self g x services named h =
    let self_path : has_path g x x ≡ true = rw (named, str_eq_refl x) refl in
    let member : elem x (covered g x services).0 ≡ true =
      rw (covered-keep g x services, elem-sort_strings, elem-keep, h, self_path) refl in
    elem-length x (covered g x services).0 member
  where
    elem-length : (k : String) (xs : List String) → elem k xs ≡ true → 0 < length xs
    elem-length k [] e = cc (not-elem-nil k)
    elem-length k (y ∷ ys) e = omega arith

-- The services of a round are named and not all assigned.
abbrev pub AllNamed : List String → Type 0
AllNamed = All (λ x. str_eq x "" ≡ false)

-- A round chooses a candidate that covers some service, and never needs the first service.
pub best_of-Chosen :
    (g : Graph) (alerted : List String) (x : String) (xs : List String)
    → AllNamed (x ∷ xs)
    → Chosen g (x ∷ xs) (best_of g alerted (x ∷ xs))
unfolding best_of
best_of-Chosen g alerted x xs named =
    let chosen =
      choose-covering g alerted (x ∷ xs) (root_candidates g (x ∷ xs)) no_best x
        (root_candidates_self g x (x ∷ xs) (elem-head x xs))
        (covered_self g x (x ∷ xs) named.0 (elem-head x xs)) (inl refl) in
    rw chosen.named chosen
