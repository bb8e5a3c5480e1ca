-- ===== src/System.antt =====
-- The approval service and the jobs on one database: internal/approvals and internal/remediation read
-- and write the same rows of remediation_actions, and the same ledger.
pub mod Shared
pub mod Born
pub mod Lives
use argus.Base.{ℕ, String, true, false, Option, List, [], ◌∷◌, map}
use argus.Base.Result.{Result, ok, err}
use argus.Actions.{get_or}
use argus.Approvals.{Request, Remediation, Event, Database}
use argus.Approvals.Rows.{Keyed}
use argus.Approvals.Service.{Service, Proposal, request_approval}
use argus.Approvals.Steps.{request_approval-Follows}
use argus.Policy.{IncidentInput}
use argus.Jobs.{Action, World}
use argus.Jobs.Moves.{view}
use argus.Jobs.Proposals.{Workflow}

-- The table of approval requests, with its primary key.
abbrev pub Requests : Type 0
Requests = (rows : List Request) × Keyed rows

-- What the approval store sees.
abbrev pub database : {L Q : Type 0} → World L Q × Requests → Database L
database (w, requests) = record {
  requests = requests.0;
  remediations = map view w.actions;
  ledger = w.ledger;
}

-- The columns that the approval store writes.
unfoldable pub write_back : List Action → List Remediation → List Action
write_back [] rows = []
write_back (a ∷ rest) [] = a ∷ rest
write_back (a ∷ rest) (r ∷ rows) =
    record a { status = r.status; approved_by = get_or r.approved_by "" } ∷ write_back rest rows

-- The tables after an operation of the approval service.
abbrev pub absorb :
    {L Q : Type 0} → (db : Database L) → Keyed db.requests → World L Q → World L Q × Requests
absorb db keyed w = (
  record w { actions = write_back w.actions db.remediations; ledger = db.ledger },
  (db.requests, keyed),
)

-- What `RequestApproval` takes from the incident and the remediation.
unfoldable pub proposal_of : IncidentInput → Action → Proposal
proposal_of incident a = record {
  remediation_id = a.id;
  incident_id = incident.id;
  action_type = a.action_type;
  target = a.target;
  parameters = a.parameters;
  risk = a.risk;
  proposed_by = a.proposed_by;
}

module _ {L Q : Type 0} (write : Event → L → Option L) where
  -- The approval service as the workflow of `Propose`: `fresh` draws the identifier of a request, and
  -- `notify` is what its notification ends with.
  unfoldable pub asks :
      Service → (Action → String) → (Action → Option String) → ℕ → Workflow L Q Requests
  unfolding proposal_of
  asks s fresh notify now incident a (w, requests) =
      let p = proposal_of incident a in
      let db = database (w, requests) in
      let r = request_approval write s (fresh a) p (notify a) now db in
      let kept = request_approval-Follows write s (fresh a) p (notify a) now db requests.1 in
      (absorb r.0 kept.keyed w, elim r.1 [ ok stored ↦ true | err e ↦ false ])
