-- ===== src/Topology/Groups/Reach.antt =====
-- The walk of `rootCandidates` in internal/topology/graph.go sees every service that can be reached,
-- within the fuel that it gets.
use mathlib.Core.Path.{subst}
use argus.Base.{
  ℕ, zero, suc, ◌+◌, ◌≤◌, String, ◌≡◌, ◌⊎◌, sym, ap, true, List, [], ◌∷◌, arith, Dict, length,
  length-append, elem, elem-head, elem-tail, elem-cons, elem-sort_strings, not-elem-nil, inl, inr,
}
use argus.Topology.{Graph, direct, entries, add_key}
use argus.Topology.Path.Fuel.{unvisited, unvisited-visit, unvisited-le-entries}
use argus.Topology.Route.{Route, here, hop}
use argus.Topology.Groups.Candidates.{elem-add_key_self, root_candidates_from-keeps}
use argus.Topology.Groups.Visit.{
  visit, visit-visited, visit-queue, visit_self, visit-new, visit-candidates, List-cases, no_length,
}
use argus.Topology.Groups.{Walk, walk_scan, next_walk, walk, root_candidates_from, root_candidates}

module _ (m : Dict (List String)) where
  visit-measure :
      (k : String) (w : Walk) (d : String) (n : ℕ)
      → elem d (direct m k) ≡ true
      → length w.queue + unvisited w.visited m ≤ n
      → length (visit w d).queue + unvisited (visit w d).visited m ≤ n
  visit-measure k w d n e h =
      ground (arith, length-append w.queue (d ∷ []), unvisited-visit d k w.visited m)

  -- The dependencies of a service that was left are all visited.
  abbrev Left : Walk → String → Type 0
  Left w v = (u : String) → elem u (direct m v) ≡ true → elem u w.visited ≡ true

  record IsWalking (w : Walk) : Type 0 where
    closed : (v : String) → elem v w.visited ≡ true → (elem v w.queue ≡ true) ⊎ Left w v
    kept : (v : String) → elem v w.visited ≡ true → elem v w.candidates ≡ true

  scan-visited :
      (ds : List String) (w : Walk) (v : String)
      → elem v w.visited ≡ true
      → elem v (walk_scan ds w).visited ≡ true
  unfolding walk_scan
  scan-visited [] w v h = h
  scan-visited (d ∷ ds) w v h = scan-visited ds (visit w d) v (visit-visited w d v h)

  scan-queue :
      (ds : List String) (w : Walk) (v : String)
      → elem v w.queue ≡ true
      → elem v (walk_scan ds w).queue ≡ true
  unfolding walk_scan
  scan-queue [] w v h = h
  scan-queue (d ∷ ds) w v h = scan-queue ds (visit w d) v (visit-queue w d v h)

  scan-all :
      (ds : List String) (w : Walk) (u : String)
      → elem u ds ≡ true
      → elem u (walk_scan ds w).visited ≡ true
  unfolding walk_scan
  scan-all [] w u h = cc (not-elem-nil u, h)
  scan-all (d ∷ ds) w u h = elim (elem-cons u d ds h) [
    | inl same ↦
        scan-visited ds (visit w d) u
          (subst (λ x. elem x (visit w d).visited ≡ true) same (visit_self w d))
    | inr later ↦ scan-all ds (visit w d) u later
  ]

  scan-new :
      (ds : List String) (w : Walk) (v : String)
      → elem v (walk_scan ds w).visited ≡ true
      → (elem v w.visited ≡ true) ⊎ (elem v (walk_scan ds w).queue ≡ true)
  unfolding walk_scan
  scan-new [] w v h = inl h
  scan-new (d ∷ ds) w v h = elim (scan-new ds (visit w d) v h) [
    | inr waits ↦ inr waits
    | inl before ↦ elim (visit-new w d v before) [
      | inl old ↦ inl old
      | inr added ↦ inr (scan-queue ds (visit w d) v added)
    ]
  ]

  scan-candidates :
      (ds : List String) (w : Walk)
      → ((v : String) → elem v w.visited ≡ true → elem v w.candidates ≡ true)
      → (v : String) → elem v (walk_scan ds w).visited ≡ true
      → elem v (walk_scan ds w).candidates ≡ true
  unfolding walk_scan
  scan-candidates [] w k v h = k v h
  scan-candidates (d ∷ ds) w k v h = scan-candidates ds (visit w d) (visit-candidates w d k) v h

  scan-measure :
      (k : String) (ds : List String) (w : Walk) (n : ℕ)
      → ((u : String) → elem u ds ≡ true → elem u (direct m k) ≡ true)
      → length w.queue + unvisited w.visited m ≤ n
      → length (walk_scan ds w).queue + unvisited (walk_scan ds w).visited m ≤ n
  unfolding walk_scan
  scan-measure k [] w n sub h = h
  scan-measure k (d ∷ ds) w n sub h =
      scan-measure k ds (visit w d) n (λ u e. sub u (elem-tail u d ds e))
        (visit-measure k w d n (sub d (elem-head d ds)) h)

  -- One service is taken off the queue.
  step-IsWalking :
      (w : Walk) (current : String) (queue : List String)
      → w.queue ≡ current ∷ queue
      → IsWalking w
      → IsWalking (walk_scan (direct m current) (record w { queue = queue }))
  step-IsWalking w current queue q i =
      let w₁ : Walk = record w { queue = queue } in
      let ds = direct m current in
      record {
        closed = λ v h. elim (scan-new ds w₁ v h) [
          | inr waits ↦ inl waits
          | inl old ↦ elim (i.closed v old) [
            | inr left ↦ inr (λ u e. scan-visited ds w₁ u (left u e))
            | inl waited ↦ elim (elem-cons v current queue (rw q at waited)) [
              | inl now ↦
                  inr
                    (λ u e. scan-all ds w₁ u (subst (λ x. elem u (direct m x) ≡ true) (sym now) e))
              | inr later ↦ inl (scan-queue ds w₁ v later)
            ]
          ]
        ];
        kept = scan-candidates ds w₁ i.kept;
      }

  -- With a round for each waiting service and each unvisited entry, the walk ends with no service
  -- waiting.
  walk-ends :
      (fuel : ℕ) (w : Walk)
      → length w.queue + unvisited w.visited m ≤ fuel
      → IsWalking w
      → IsWalking (walk fuel m w)
        × ((walk fuel m w).queue ≡ [])
        × ((v : String) → elem v w.visited ≡ true → elem v (walk fuel m w).visited ≡ true)
  unfolding walk next_walk
  walk-ends zero w h i = (i, no_length w.queue (omega (arith, h)), λ v e. e)
  walk-ends (suc fuel) w h i = elim (List-cases w.queue) [
    | inl done ↦ rw (done, walk) (i, done, λ v e. e)
    | inr (current, queue, q) ↦
        let w₁ : Walk = record w { queue = queue } in
        let w' = walk_scan (direct m current) w₁ in
        let room : length queue + unvisited w.visited m ≤ fuel =
          omega (arith, h, ap (λ (l : List String). length l) q) in
        let fits = scan-measure current (direct m current) w₁ fuel (λ u e. e) room in
        let (i', ended, grows) = walk-ends fuel w' fits (step-IsWalking w current queue q i) in
        rw (q, walk) (i', ended, λ v e. grows v (scan-visited (direct m current) w₁ v e))
  ]

  -- Where nothing waits, everything on a route from a visited service is visited.
  visited-Route :
      (w : Walk) (s t : String) (p : List String)
      → IsWalking w
      → w.queue ≡ []
      → elem s w.visited ≡ true
      → Route m s t p
      → elem t w.visited ≡ true
  visited-Route w s t p i empty seen (here same _) =
      subst (λ x. elem x w.visited ≡ true) (sym same) seen
  visited-Route w s u q i empty seen (hop {t = t} {p = p} r e _) =
      elim (i.closed t (visited-Route w s t p i empty seen r)) [
        | inl waits ↦ cc (not-elem-nil t, rw empty at waits)
        | inr left ↦ left u e
      ]

start_IsWalking :
    (m : Dict (List String)) (service : String) (candidates : List String)
    → IsWalking m (record {
      queue = service ∷ [];
      visited = service ∷ [];
      candidates = add_key candidates service;
    })
start_IsWalking m service candidates = record {
  closed = λ v h. inl h;
  kept = λ v h. elim (elem-cons v service [] h) [
    | inl same ↦
        subst (λ x. elem x (add_key candidates service) ≡ true) same
          (elem-add_key_self service candidates)
    | inr none_left ↦ cc (not-elem-nil v, none_left)
  ];
}

reached_from :
    (g : Graph) (services candidates : List String) (s t : String) (p : List String)
    → elem s services ≡ true
    → Route g.dependencies s t p
    → elem t (root_candidates_from g services candidates) ≡ true
unfolding root_candidates_from
reached_from g [] candidates s t p listed r = cc (not-elem-nil s, listed)
reached_from g (service ∷ services) candidates s t p listed r =
    let m = g.dependencies in
    let start : Walk = record {
      queue = service ∷ [];
      visited = service ∷ [];
      candidates = add_key candidates service;
    } in
    let fuel = suc (suc (entries m)) in
    elim (elem-cons s service services listed) [
      | inr later ↦ reached_from g services (walk fuel m start).candidates s t p later r
      | inl same ↦
          let (i, ended, grows) =
            walk-ends m fuel start (omega (arith, unvisited-le-entries (service ∷ []) m))
              (start_IsWalking m service candidates) in
          let seen =
            grows s (subst (λ x. elem x (service ∷ []) ≡ true) same (elem-head service [])) in
          root_candidates_from-keeps g t services (walk fuel m start).candidates
            (inl (i.kept t (visited-Route m (walk fuel m start) s t p i ended seen r)))
    ]

-- The candidates for a root are complete: a service that a route of direct dependencies reaches from
-- one of the services is among them.
pub root_candidates-Route :
    (g : Graph) (services : List String) (s t : String) (p : List String)
    → elem s services ≡ true
    → Route g.dependencies s t p
    → elem t (root_candidates g services) ≡ true
unfolding root_candidates
root_candidates-Route g services s t p listed r =
    rw elem-sort_strings (reached_from g services [] s t p listed r)
