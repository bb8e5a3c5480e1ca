-- ===== src/Topology/Path/Shortest.antt =====
-- `(*Graph).Path` of internal/topology/graph.go finds a path whenever there is one, and none that
-- it finds is longer than any other.
use argus.Base.{
  ℕ, zero, suc, ◌+◌, ◌≤◌, ◌<◌, String, ◌≡◌, ◌≢◌, refl, sym, ap, false, some, List, [], ◌∷◌, length,
  length-append, All, arith, Dict, elem, elem-head, elem-cons, not-elem-cons, not-elem-nil, str_eq,
  str_eq-ne, Bool-cases, ◌⊎◌, inl, inr,
}
use argus.Topology.{ServicePath, Graph, Candidate, direct, scan, search_path, entries, path}
use argus.Topology.Route.{Route, here, hop, Route-length-pos}
use argus.Topology.Path.Fuel.{unvisited, unvisited-le-entries, scan-Shrinks}
use argus.Topology.Path.Split.{Scan-cases}
use argus.Topology.Path.Layers.{HasLength, Head, Layers-Head, Queued}
use argus.Topology.Path.Search.{IsVisited, Done, Exact, Search, scan-Search}

module _ (m : Dict (List String)) (s dependency : String) where
  -- What holds when the outer loop tests its queue: the next candidate's path has length k.
  record Frontier (k : ℕ) (queue : List Candidate) (visited : List String) : Type 0 where
    source : IsVisited m s dependency visited s
    near :
        (t : String) (p : List String)
        → Route m s t p
        → length p ≤ k
        → IsVisited m s dependency visited t
    closed :
        (v : String)
        → IsVisited m s dependency visited v
        → Queued v queue ⊎ Done m s dependency visited v
    missing : elem dependency visited ≡ false
    exact : All (Exact m s dependency) queue
    head : Head k queue

  Frontier-Search :
      (k : ℕ) (c : Candidate) (queue : List Candidate) (visited : List String)
      → Frontier k (c ∷ queue) visited
      → Search m s dependency k c.service (direct m c.service) queue visited
  Frontier-Search k c queue visited h = record {
    source = h.source;
    near = h.near;
    closed = λ v e. elim (h.closed v e) [
      | inl (inl same) ↦ inl (sym same)
      | inl (inr waits) ↦ inr (inl waits)
      | inr done ↦ inr (inr done)
    ];
    expanding = λ u e. inr e;
    missing = h.missing;
    exact = h.exact.1;
    layers = h.head.1;
  }

  -- A queued service is no nearer than its candidate says.
  Queued-far :
      (k : ℕ) (v : String) (queue : List Candidate) (p : List String)
      → Queued v queue
      → All (Exact m s dependency) queue
      → All (HasLength k) queue
      → Route m s v p
      → k ≤ length p
  Queued-far k v [] p q exact len r = elim q [ ]
  Queued-far k v (c ∷ queue) p (inl e) exact len r = rw (← len.0) (exact.0 p (rw e r))
  Queued-far k v (c ∷ queue) p (inr q) exact len r = Queued-far k v queue p q exact.1 len.1 r

  -- Once all candidates have length k + 1, the services at that distance are visited too.
  near-next :
      (k : ℕ) (queue : List Candidate) (visited : List String)
      → IsVisited m s dependency visited s
      → ((t : String) (p : List String)
          → Route m s t p
          → length p ≤ k
          → IsVisited m s dependency visited t)
      → ((v : String)
          → IsVisited m s dependency visited v
          → Queued v queue ⊎ Done m s dependency visited v)
      → All (Exact m s dependency) queue
      → All (HasLength (suc k)) queue
      → (t : String) (p : List String) → Route m s t p
      → length p ≤ suc k
      → IsVisited m s dependency visited t
  near-next k queue visited source near closed exact len t p (here e f) bound = rw e source
  near-next k queue visited source near closed exact len t p (hop {t = v} {u = u} {p = q} r e f)
        bound =
      let shorter : length q ≤ k = omega (arith, ap length f, length-append q (u ∷ [])) in
      elim (closed v (near v q r shorter)) [
        | inl waits ↦ absurd (omega (arith, Queued-far (suc k) v queue q waits exact len r))
        | inr done ↦ done u e
      ]

  Search-Frontier :
      (k : ℕ) (current : String) (queue : List Candidate) (visited : List String)
      → Search m s dependency k current [] queue visited
      → (j : ℕ) × Frontier j queue visited
  Search-Frontier k current queue visited h =
      let closed : (v : String)
          → IsVisited m s dependency visited v
          → Queued v queue ⊎ Done m s dependency visited v =
        λ v e. elim (h.closed v e) [
          | inl is_current ↦ inr (λ u d. elim (h.expanding u (rw is_current at d)) [
            | inl old ↦ old
            | inr listed ↦ cc (not-elem-nil u)
          ])
          | inr rest ↦ rest
        ] in
      elim (Layers-Head k queue h.layers) [
        | inl head ↦ (
          k,
          record {
            source = h.source;
            near = h.near;
            closed = closed;
            missing = h.missing;
            exact = h.exact;
            head = head;
          },
        )
        | inr (all, head) ↦ (
          suc k,
          record {
            source = h.source;
            near = near-next k queue visited h.source h.near closed h.exact all;
            closed = closed;
            missing = h.missing;
            exact = h.exact;
            head = head;
          },
        )
      ]

  -- With nothing left to expand, every service that a route leads to is visited.
  all-IsVisited :
      (visited : List String)
      → IsVisited m s dependency visited s
      → ((v : String) → IsVisited m s dependency visited v → Done m s dependency visited v)
      → {t : String} {p : List String} → Route m s t p
      → IsVisited m s dependency visited t
  all-IsVisited visited source done (here e f) = rw e source
  all-IsVisited visited source done (hop {t = v} {u = u} r e f) =
      done v (all-IsVisited visited source done r) u e

  start_Frontier :
      str_eq s dependency ≡ false → Frontier 1 (record { service = s; path = s ∷ [] } ∷ []) (s ∷ [])
  start_Frontier differ = record {
    source = elem-head s [];
    near = λ t p r bound. near_start t p r bound;
    closed = λ v e. elim (elem-cons v s [] e) [
      | inl same ↦ inl (inl same)
      | inr absent ↦ cc (not-elem-nil v)
    ];
    missing = not-elem-cons dependency s [] differ (not-elem-nil dependency);
    exact = ((λ p r. Route-length-pos r), tt);
    head = (refl, tt);
  }
    where
      near_start :
          (t : String) (p : List String)
          → Route m s t p
          → length p ≤ 1
          → IsVisited m s dependency (s ∷ []) t
      near_start t p (here e f) bound = rw e (elem-head s [])
      near_start t p (hop {u = u} {p = q} r e f) bound =
          absurd (omega (arith, ap length f, length-append q (u ∷ []), Route-length-pos r))

  search_path-shortest :
      (fuel k : ℕ) (queue : List Candidate) (visited p : List String)
      → Frontier k queue visited
      → length queue + unvisited visited m < fuel
      → Route m s dependency p
      → (q : List String) × (search_path fuel m dependency queue visited ≡ some q)
        × (length q ≤ length p)
  unfolding search_path
  search_path-shortest zero k queue visited p h f r = elim f [ ]
  search_path-shortest (suc fuel) k [] visited p h f r =
      let done : (v : String) → IsVisited m s dependency visited v → Done m s dependency visited v =
        λ v e. elim (h.closed v e) [ inl waits ↦ elim waits [ ] | inr d ↦ d ] in
      cc (h.missing, all-IsVisited visited h.source done r)
  search_path-shortest (suc fuel) k (c ∷ queue) visited p h f r =
      let nexts = direct m c.service in
      let result = scan dependency c.path nexts visited queue in
      let kept =
        scan-Search m s dependency k c nexts queue visited h.head.0
          (Frontier-Search k c queue visited h) in
      let smaller =
        scan-Shrinks m c.service dependency c.path nexts visited queue
          (length queue + unvisited visited m) (λ u e. e) (omega arith) in
      elim (Scan-cases result) [
        | inl (q, e) ↦ (q, rw (e, search_path) refl, (rw e at kept) p r)
        | inr (visited', queue', e) ↦
            let (j, next) = Search-Frontier k c.service queue' visited' (rw e at kept) in
            let fits = rw e at smaller in
            let (q, found_q, short) =
              search_path-shortest fuel j queue' visited' p next (omega arith) r in
            (q, rw (e, search_path) found_q, short)
      ]

-- `Path` is total and optimal on named services: whenever a route of direct dependencies leads from
-- the service to the dependency it returns a path, and that path is at most as long as the route.
pub path-shortest :
    (g : Graph) (service dependency : String) (p : List String)
    → service ≢ ""
    → dependency ≢ ""
    → Route g.dependencies service dependency p
    → (q : ServicePath) × (path g service dependency ≡ some q) × (length q.services ≤ length p)
unfolding path
path-shortest g service dependency p named_s named_d r =
    let m = g.dependencies in
    elim (Bool-cases (str_eq service dependency)) [
      | inl same ↦ (
        record { from = service; to = dependency; services = service ∷ [] },
        rw (str_eq-ne service "" named_s, str_eq-ne dependency "" named_d, same),
        Route-length-pos r,
      )
      | inr differ ↦
          let (q, e, short) =
            search_path-shortest m service dependency (suc (suc (entries m))) 1
              (record { service = service; path = service ∷ [] } ∷ []) (service ∷ []) p
              (start_Frontier m service dependency differ)
              (omega (arith, unvisited-le-entries (service ∷ []) m)) r in
          (
            record { from = service; to = dependency; services = q },
            rw (str_eq-ne service "" named_s, str_eq-ne dependency "" named_d, differ, e),
            short,
          )
    ]
