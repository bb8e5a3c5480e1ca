-- ===== src/Topology/Path/Search.antt =====
-- The inner loop of `(*Graph).Path` in internal/topology/graph.go and the distances from the start.
use argus.Base.{
  ℕ, suc, ◌≤◌, String, ◌≡◌, true, false, List, [], ◌∷◌, ◌++◌, length, length-append, All,
  All-append, arith, Dict, elem, elem-head, elem-tail, elem-cons, not-elem-cons, leb, leb-le,
  str_eq, Bool-cases, ◌⊎◌, inl, inr,
}
use argus.Topology.{Candidate, Scan, found, go_on, direct, scan}
use argus.Topology.Route.{Route}
use argus.Topology.Path.Layers.{
  Layers, Layers-append, Queued, Queued-append_left, Queued-append_end,
}

module _ (m : Dict (List String)) (s dependency : String) where
  abbrev pub IsVisited : List String → String → Type 0
  IsVisited visited v = elem v visited ≡ true

  -- Every direct dependency of the service is visited.
  abbrev pub Done : List String → String → Type 0
  Done visited v = (u : String) → elem u (direct m v) ≡ true → IsVisited visited u

  -- No route to the candidate's service is shorter than the candidate's path.
  abbrev pub Exact : Candidate → Type 0
  Exact c = (p : List String) → Route m s c.service p → length c.path ≤ length p

  -- What holds between two rounds of either loop: `current` is the service that is being expanded
  -- and `nexts` its dependencies that are still to be looked at.
  pub record Search (k : ℕ) (current : String) (nexts : List String) (queue : List Candidate)
      (visited : List String) : Type 0 where
    pub source : IsVisited visited s
    pub near : (t : String) (p : List String) → Route m s t p → length p ≤ k → IsVisited visited t
    pub closed :
        (v : String) → IsVisited visited v → (v ≡ current) ⊎ (Queued v queue ⊎ Done visited v)
    pub expanding :
        (u : String)
        → elem u (direct m current) ≡ true
        → IsVisited visited u ⊎ (elem u nexts ≡ true)
    pub missing : elem dependency visited ≡ false
    pub exact : All Exact queue
    pub layers : Layers k queue

  Visited_eq : (vs : List String) (a b : String) → IsVisited vs a → a ≡ b → IsVisited vs b
  Visited_eq vs a b e p = rw (← p) e

  Done-visit : (v x : String) (visited : List String) → Done visited v → Done (x ∷ visited) v
  Done-visit v x visited d u e = elem-tail u x visited (d u e)

  -- A service that is not visited is farther than k from s.
  far :
      (k : ℕ) (visited : List String) (t : String) (p : List String)
      → ((p : List String) → Route m s t p → length p ≤ k → IsVisited visited t)
      → elem t visited ≡ false
      → Route m s t p
      → suc k ≤ length p
  far k visited t p near new r = elim (Bool-cases (leb (length p) k)) [
    | inl short ↦ cc (near p r (leb-le (length p) k short))
    | inr long ↦ ground arith
  ]

  Search-skip :
      (k : ℕ) (current next : String) (rest : List String) (queue : List Candidate)
      (visited : List String)
      → IsVisited visited next
      → Search k current (next ∷ rest) queue visited
      → Search k current rest queue visited
  Search-skip k current next rest queue visited seen h = record {
    source = h.source;
    near = h.near;
    closed = h.closed;
    expanding = λ u e. elim (h.expanding u e) [
      | inl old ↦ inl old
      | inr listed ↦ elim (elem-cons u next rest listed) [
        | inl same ↦ inl (Visited_eq visited next u seen same)
        | inr later ↦ inr later
      ]
    ];
    missing = h.missing;
    exact = h.exact;
    layers = h.layers;
  }

  module _ (k : ℕ) (current next : String) (rest : List String) (queue : List Candidate)
      (visited new_path : List String) (new : elem next visited ≡ false)
      (h : Search k current (next ∷ rest) queue visited) where
    abbrev entered : Candidate
    entered = record { service = next; path = new_path }

    visit-closed :
        (v : String)
        → IsVisited (next ∷ visited) v
        → (v ≡ current) ⊎ (Queued v (queue ++ entered ∷ []) ⊎ Done (next ∷ visited) v)
    visit-closed v e = elim (elem-cons v next visited e) [
      | inl same ↦ inr (inl (rw (← same) (Queued-append_end entered queue)))
      | inr old ↦ elim (h.closed v old) [
        | inl is_current ↦ inl is_current
        | inr (inl waits) ↦ inr (inl (Queued-append_left v queue (entered ∷ []) waits))
        | inr (inr done) ↦ inr (inr (Done-visit v next visited done))
      ]
    ]

    visit-expanding :
        (u : String)
        → elem u (direct m current) ≡ true
        → IsVisited (next ∷ visited) u ⊎ (elem u rest ≡ true)
    visit-expanding u e = elim (h.expanding u e) [
      | inl old ↦ inl (elem-tail u next visited old)
      | inr listed ↦ elim (elem-cons u next rest listed) [
        | inl same ↦ inl (Visited_eq (next ∷ visited) next u (elem-head next visited) same)
        | inr later ↦ inr later
      ]
    ]

    Search-visit :
        str_eq next dependency ≡ false
        → length new_path ≡ suc k
        → Search k current rest (queue ++ entered ∷ []) (next ∷ visited)
    Search-visit miss len = record {
      source = elem-tail s next visited h.source;
      near = λ t p r e. elem-tail t next visited (h.near t p r e);
      closed = visit-closed;
      expanding = visit-expanding;
      missing = not-elem-cons dependency next visited miss h.missing;
      exact =
          All-append Exact queue (entered ∷ []) h.exact
            ((λ p r. rw len (far k visited next p (h.near next) new r)), tt);
      layers = Layers-append k queue (entered ∷ []) h.layers (len, tt);
    }

  -- What the inner loop leaves, or a path that no route undercuts.
  abbrev pub ScanSearch : ℕ → String → Scan → Type 0
  ScanSearch k current (found q) = (p : List String) → Route m s dependency p → length q ≤ length p
  ScanSearch k current (go_on visited queue) = Search k current [] queue visited

  pub scan-Search :
      (k : ℕ) (current : Candidate) (nexts : List String) (queue : List Candidate)
      (visited : List String)
      → length current.path ≡ k
      → Search k current.service nexts queue visited
      → ScanSearch k current.service (scan dependency current.path nexts visited queue)
  unfolding scan
  scan-Search k current [] queue visited len h = h
  scan-Search k current (next ∷ rest) queue visited len h =
      let new_path = current.path ++ next ∷ [] in
      let new_len : length new_path ≡ suc k =
        omega (arith, length-append current.path (next ∷ [])) in
      elim (Bool-cases (elem next visited)) [
        | inl seen ↦ rw seen (
            scan-Search k current rest queue visited len
              (Search-skip k current.service next rest queue visited seen h))
        | inr new ↦ elim (Bool-cases (str_eq next dependency)) [
          | inl hit ↦
              rw (new, hit)
                (λ p r. rw new_len (far k visited dependency p (h.near dependency) h.missing r))
          | inr miss ↦
              rw (new, miss)
                (scan-Search k current rest
                  (queue ++ record { service = next; path = new_path } ∷ []) (next ∷ visited) len
                  (Search-visit k current.service next rest queue visited new_path new h miss
                    new_len))
        ]
      ]
