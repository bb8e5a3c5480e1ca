-- ===== src/Jobs/Proposals.antt =====
-- `Propose` of internal/remediation/service.go; its statements are in Rows. Metrics are left out, and
-- so are foreign keys and errors of the database itself. All happens at one time, and nothing else
-- meanwhile.
mod Rows
unfoldable pub use Rows.*
use argus.Base.{
  ℕ, ◌+◌, ◌*◌, ◌==◌, String, Bool, true, false, not, ◌&&◌, ◌||◌, Option, none, some, List, [], ◌∷◌,
  ◌++◌, Dict, elem, str_eq, ltb, leb, decimal, if◌then◌else◌,
}
use argus.Base.Int.{pos}
use argus.Base.Result.{Result, ok, err, ◌>>=◌}
use argus.Actions.{Value, int, bool, other}
use argus.Approvals.{Event, Detail, state_of, word, flag, number, count_where}
use argus.Remediation.States.{
  State, policy_blocked, awaiting_approval, approved, rejected, succeeded, failed, timed_out,
  cancelled,
}
use argus.Incidents.{Status, transition_incident}
use argus.Policy.{Engine, Input, IncidentInput, Decision, evaluate}
use argus.Rca.{Candidate}
use argus.Jobs.{Action, World, JobError, create_failed, approval_failed, approvals_unavailable}
use argus.Jobs.Outbox.{second, write_entry, record_entry, ◌^++◌}
use argus.Jobs.Execution.{is_awaiting}

-- The approval workflow on a state S of its own: what `RequestApproval` does, and whether it succeeded.
abbrev pub Workflow : Type 0 → Type 0 → Type 0 → Type 0
Workflow L Q S = IncidentInput → Action → World L Q × S → (World L Q × S) × Bool

-- The row of a new proposal, from what the table says.
unfoldable pub assess :
    (Dict Value → String)
    → (Dict Value → Dict Value → Bool)
    → Engine
    → String
    → String
    → IncidentInput
    → ℕ
    → String
    → Candidate
    → List Action
    → Action × Dict Detail
unfolding new_action decision_details
assess digest same engine actor role incident now id c rows =
    let recent = count_recent same incident.id c now rows in
    let failures = count_failed same incident.id c rows in
    let d = evaluate engine (input_of actor role incident c recent failures) in
    (
      new_action digest id actor incident c d recent failures now,
      decision_details d failures recent,
    )

-- The transaction of a new proposal.
unfoldable pub create_tx :
    {L Q : Type 0}
    → (Event → L → Option L)
    → String
    → Action
    → Dict Detail
    → World L Q
    → Result JobError (World L Q)
unfolding create_remediation write_entry proposed_event
create_tx write actor a details w = create_remediation a w.actions >>= λ rows.
    write_entry write (proposed_event actor a details) (record w { actions = rows })

module _ {L Q S : Type 0} (approvals : Option (Workflow L Q S)) (incident : IncidentInput) where
  -- `RequestApproval`
  unfoldable pub ask : Action → World L Q × S → (World L Q × S) × Result JobError Action
  ask a p = elim approvals [
    | none ↦ (p, err approvals_unavailable)
    | some request ↦
        let r = request incident a p in if r.1 then (r.0, ok a) else (r.0, err approval_failed)
  ]

  -- `if existing.Status == StateAwaitingApproval && s.approvals != nil`
  unfoldable pub ask_again : Action → World L Q × S → (World L Q × S) × Result JobError Action
  unfolding ask
  ask_again a p = elim approvals [
    | none ↦ (p, ok a)
    | some request ↦ if is_awaiting a.status then ask a p else (p, ok a)
  ]

unfoldable pub any_awaiting : List Action → Bool
any_awaiting [] = false
any_awaiting (a ∷ rest) = is_awaiting a.status || any_awaiting rest

-- The incident moves on, if the life cycle allows it.
unfoldable pub advance_incident : {L Q : Type 0} → String → ℕ → List Action → World L Q → World L Q
unfolding any_awaiting
advance_incident incident_id now [] w = w
advance_incident incident_id now (a ∷ rest) w =
    let status : Status =
      if any_awaiting (a ∷ rest) then Status.awaiting_approval else Status.remediation_proposed in
    record w { incidents = (transition_incident incident_id status now w.incidents).0 }

module _ {L Q S : Type 0} (write : Event → L → Option L) (digest : Dict Value → String)
    (same : Dict Value → Dict Value → Bool) (engine : Engine) (approvals : Option (Workflow L Q S))
    (actor role : String) (incident : IncidentInput) (now : ℕ) where
  -- A proposal that is there already.
  unfoldable pub reuse : Action → World L Q × S → (World L Q × S) × Result JobError Action
  unfolding ask_again record_entry proposal_reused_event
  reuse a p =
      let asked = ask_again approvals incident a p in
      elim asked.1 [
        | err e ↦ (asked.0, err e)
        | ok b ↦ ((record_entry write (proposal_reused_event actor a) asked.0.0, asked.0.1), ok a)
      ]

  -- A new proposal.
  unfoldable pub propose_new :
      String → Candidate → World L Q × S → (World L Q × S) × Result JobError Action
  unfolding assess create_tx ask
  propose_new id c (w, s) =
      let (a, details) = assess digest same engine actor role incident now id c w.actions in
      elim (create_tx write actor a details w) [
        | err e ↦ ((w, s), err e)
        | ok w' ↦ if is_awaiting a.status then ask approvals incident a (w', s) else ((w', s), ok a)
      ]

  -- The body of the loop.
  unfoldable pub propose_one :
      String → Candidate → World L Q × S → (World L Q × S) × Result JobError Action
  unfolding reuse propose_new
  propose_one id c p = elim (find_active same incident.id c p.0.actions) [
    | some a ↦ reuse a p
    | none ↦ propose_new id c p
  ]

  -- The loop, over the candidates with the identifiers that `common.NewID` makes; an error ends it.
  unfoldable pub propose_all :
      List (String × Candidate) → World L Q × S → (World L Q × S) × Result JobError (List Action)
  unfolding propose_one
  propose_all [] p = (p, ok [])
  propose_all ((id, c) ∷ rest) p =
      let one = propose_one id c p in
      let others = propose_all rest one.0 in
      elim one.1 [
        | err e ↦ (one.0, err e)
        | ok a ↦ elim others.1 [
          | err e ↦ (others.0, err e)
          | ok actions ↦ (others.0, ok (a ∷ actions))
        ]
      ]

  -- `Propose`
  unfoldable pub propose :
      List (String × Candidate) → World L Q × S → (World L Q × S) × Result JobError (List Action)
  unfolding propose_all advance_incident
  propose candidates p =
      let r = propose_all candidates p in
      elim r.1 [
        | err e ↦ (r.0, err e)
        | ok actions ↦ ((advance_incident incident.id now actions r.0.0, r.0.1), ok actions)
      ]
