-- ===== src/Jobs/Repeating.antt =====
-- What was proposed before: the idempotency keys of `Propose` in internal/remediation/service.go.
use argus.Base.{
  ℕ, ◌==◌, String, ◌≡◌, refl, ap, Bool, false, Option, none, List, [], ◌∷◌, arith, Dict,
  str_eq_refl, inl, inr,
}
use argus.Base.Result.{err}
use argus.Actions.{Value}
use argus.Approvals.{Event, Detail, count_where}
use argus.Policy.{Engine, IncidentInput}
use argus.Rca.{Candidate}
use argus.Jobs.{Action, World, create_failed}
use argus.Jobs.Proposals.{
  Workflow, count_recent, clashes, build_idempotency_key, new_action, assess, create_remediation,
  create_tx, propose_new, propose_one, propose_all, propose, find_active,
}
use argus.Jobs.Batches.{Among}

clashes-Among :
    (a b : Action) (rows : List Action)
    → Among b rows
    → b.idempotency_key ≡ a.idempotency_key
    → (count_where (clashes a) rows == 0) ≡ false
unfolding count_where
clashes-Among a b [] there same = elim there [ ]
clashes-Among a b (x ∷ rest) (inl e) same =
    rw (e, same) (ground (arith, str_eq_refl a.idempotency_key))
clashes-Among a b (x ∷ rest) (inr there) same = ground (arith, clashes-Among a b rest there same)

create_remediation-clash :
    (a : Action) (rows : List Action)
    → (count_where (clashes a) rows == 0) ≡ false
    → create_remediation a rows ≡ err create_failed
unfolding create_remediation
create_remediation-clash a rows h = rw h refl

module _ {L Q S : Type 0} (write : Event → L → Option L) (digest : Dict Value → String)
    (same : Dict Value → Dict Value → Bool) (engine : Engine) (approvals : Option (Workflow L Q S))
    (actor role : String) (incident : IncidentInput) (now : ℕ) where
  create_tx-clash :
      (a : Action) (details : Dict Detail) (w : World L Q)
      → create_remediation a w.actions ≡ err create_failed
      → create_tx write actor a details w ≡ err create_failed
  unfolding create_tx
  create_tx-clash a details w made = rw made refl

  propose_one-clashes :
      (id : String) (c : Candidate) (w : World L Q) (s : S)
      → let r = assess digest same engine actor role incident now id c w.actions in
        create_remediation r.0 w.actions ≡ err create_failed
        → find_active same incident.id c w.actions ≡ none
        → propose_one write digest same engine approvals actor role incident now id c (w, s)
          ≡ ((w, s), err create_failed)
  unfolding propose_one propose_new
  propose_one-clashes id c w s made over =
      let r = assess digest same engine actor role incident now id c w.actions in
      rw (over, propose_one, create_tx-clash r.0 r.1 w made, propose_new) refl

  propose_all-stops :
      (id : String) (c : Candidate) (rest : List (String × Candidate)) (p : World L Q × S)
      → propose_one write digest same engine approvals actor role incident now id c p
        ≡ (p, err create_failed)
      → propose_all write digest same engine approvals actor role incident now ((id, c) ∷ rest) p
        ≡ (p, err create_failed)
  unfolding propose_all
  propose_all-stops id c rest p stops =
      rw (stops, propose_all) (ap (λ r. (r.0, err create_failed)) stops)

  -- A proposal takes its key from the number of proposals of the last ten minutes. So where a first
  -- proposal for the same incident, action, target and parameters is over, and no such row is of the
  -- last ten minutes, a new one has the key of the first: `Propose` fails and changes nothing.
  pub propose-clashes :
      (id : String) (c : Candidate) (rest : List (String × Candidate)) (b : Action)
      (p : World L Q × S)
      → Among b p.0.actions
      → b.idempotency_key
        ≡ build_idempotency_key digest incident.id c.action_type c.target 1 c.parameters
      → find_active same incident.id c p.0.actions ≡ none
      → count_recent same incident.id c now p.0.actions ≡ 0
      → propose write digest same engine approvals actor role incident now ((id, c) ∷ rest) p
        ≡ (p, err create_failed)
  unfolding propose assess new_action
  propose-clashes id c rest b (w, s) there key over none_recent =
      let a = (assess digest same engine actor role incident now id c w.actions).0 in
      let made : create_remediation a w.actions ≡ err create_failed =
        create_remediation-clash a w.actions
          (clashes-Among a b w.actions there (rw none_recent key)) in
      let stops = propose_one-clashes id c w s made over in
      let ends = propose_all-stops id c rest (w, s) stops in
      rw (ends, propose) (ap (λ r. (r.0, err create_failed)) ends)
