-- ===== src/Topology/Path/Layers.antt =====
-- The queue of the breadth-first search of `(*Graph).Path` in internal/topology/graph.go: the
-- lengths of its paths are k, ..., k, k + 1, ..., k + 1.
use argus.Base.{
  ℕ, suc, ◌≡◌, refl, String, List, [], ◌∷◌, ◌++◌, length, All, All-append, ◌⊎◌, inl, inr,
}
use argus.Topology.{Candidate}

abbrev pub HasLength : ℕ → Candidate → Type 0
HasLength n c = length c.path ≡ n

abbrev pub Layers : ℕ → List Candidate → Type 0
Layers k [] = Unit
Layers k (c ∷ queue) =
    (HasLength k c × Layers k queue) ⊎ (HasLength (suc k) c × All (HasLength (suc k)) queue)

-- The candidate that is taken next has length k.
abbrev pub Head : ℕ → List Candidate → Type 0
Head k [] = Unit
Head k (c ∷ queue) = HasLength k c × Layers k queue

pub Layers-append :
    (k : ℕ) (queue added : List Candidate)
    → Layers k queue
    → All (HasLength (suc k)) added
    → Layers k (queue ++ added)
Layers-append k [] [] h a = tt
Layers-append k [] (c ∷ added) h a = inr a
Layers-append k (c ∷ queue) added (inl (e, rest)) a = inl (e, Layers-append k queue added rest a)
Layers-append k (c ∷ queue) added (inr (e, rest)) a =
    inr (e, All-append (HasLength (suc k)) queue added rest a)

Layers-of_All : (k : ℕ) (queue : List Candidate) → All (HasLength k) queue → Layers k queue
Layers-of_All k [] h = tt
Layers-of_All k (c ∷ queue) h = inl (h.0, Layers-of_All k queue h.1)

-- After the last candidate of length k, all that are left have length k + 1.
pub Layers-Head :
    (k : ℕ) (queue : List Candidate)
    → Layers k queue
    → Head k queue ⊎ (All (HasLength (suc k)) queue × Head (suc k) queue)
Layers-Head k [] h = inl tt
Layers-Head k (c ∷ queue) (inl h) = inl h
Layers-Head k (c ∷ queue) (inr (e, rest)) = inr ((e, rest), (e, Layers-of_All (suc k) queue rest))

-- A service waits in the queue.
abbrev pub Queued : String → List Candidate → Type 0
Queued v [] = ⊥
Queued v (c ∷ queue) = (c.service ≡ v) ⊎ Queued v queue

pub Queued-append_left :
    (v : String) (queue added : List Candidate) → Queued v queue → Queued v (queue ++ added)
Queued-append_left v [] added h = elim h [ ]
Queued-append_left v (c ∷ queue) added (inl e) = inl e
Queued-append_left v (c ∷ queue) added (inr h) = inr (Queued-append_left v queue added h)

pub Queued-append_end :
    (c : Candidate) (queue : List Candidate) → Queued c.service (queue ++ c ∷ [])
Queued-append_end c [] = inl refl
Queued-append_end c (d ∷ queue) = inr (Queued-append_end c queue)
