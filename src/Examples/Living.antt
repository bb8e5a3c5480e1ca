-- ===== src/Examples/Living.antt =====
-- A run of internal/remediation and internal/approvals on one database: two remediations are proposed,
-- one is approved by a human, and both are executed.
use argus.Base.{
  ℕ, String, ◌≡◌, refl, false, Option, none, List, [], ◌∷◌, All, map, lookup, elem, codes, split_at,
  decimal, decimal_before, str_eq, sort_strings, trim_space, equal_fold,
}
use argus.Approvals.{Database, count_where, update_where, find_request, find_by_remediation}
use argus.Approvals.Store.{
  create, decide, decide_tx, write_audit, write_audits, verdict, decided_events, has_key,
}
use argus.Approvals.Sweep.{mark_notification}
use argus.Actions.{
  effective_risk, risk, rank, is_registered, validate, validate_keys, missing, parameter, integer,
  valid_dns_label,
}
use argus.Policy.{evaluate, by_risk}
use argus.Remediation.States.{approved, queued, require_transition, is_terminal_state}
use argus.Incidents.{
  transition_incident, find_incident, update_status, allowed_from, allowed_among, can_transition,
  is_closed,
}
use argus.Approvals.Service.{
  Service, decide_request, request_approval, notified, new_request, normalize_decision,
  validate_decision, validate_separation,
}
use argus.Approvals.Steps.{Step-Follows}
use argus.Approvals.Steps
use argus.Remediation.States.Lifecycle.{HandedOut}
use argus.Jobs.{Message, World}
use argus.Jobs.Store.{find_action, mark_queued, row_where}
use argus.Jobs.Outbox.{
  enqueue, has_dispatch, reservation_event_id, new_dispatch, publish_due, publish_batch, due_batch,
  select_due, sort_pending, insert_pending, is_due, write_entry, record_entry,
}
use argus.Jobs.Execution.{
  local_executor, execute_remediation, execute_read, reserve_tx, refuse_execution,
}
use argus.Jobs.Proposals.{
  propose, propose_all, propose_one, propose_new, reuse, ask, create_tx, create_remediation, assess,
  new_action, first_non_empty_risk, proposed_status, advance_incident, any_awaiting, find_active,
  build_idempotency_key,
}
use argus.Jobs.Steps.{executed}
use argus.Workers.Handlers.{default_handlers}
use argus.Workers.ControlState.Once.{no_faults}
use argus.System.{Requests, database, absorb, asks, proposal_of, write_back}
use argus.System.Born.{IsAuthorised}
use argus.System.Lives.{
  Life, WasApproved, begin, then_step, proposed, decided, worked, Life-IsAuthorised,
}
use argus.Examples.Proposing.{counting, digest, same, engine, incident, empty_world, candidates}

abbrev accept : Message → List Message → List Message × Option String
accept m q = (m ∷ q, none)

abbrev service : Service
service = record {
  timeout = 900000000000;
  escalate_after = 450000000000;
  allow_self = false;
  transport = "slack";
}

abbrev first : World ℕ (List Message) × Requests
first = (empty_world, ([], tt))

abbrev after_proposal : World ℕ (List Message) × Requests
after_proposal =
    (propose counting digest same engine
      (Option.some (asks counting service (λ a. "apr1") (λ a. none) 100)) "ana" "operator" incident
      100 candidates first).0

abbrev decision : Database ℕ
decision =
    (decide_request counting service "apr1" "ben" "user" "approve" "safe" "api" 200
      (database after_proposal)).0

abbrev chosen : Steps.Step counting (database after_proposal) decision
chosen = Steps.decided service "apr1" "ben" "user" "approve" "safe" "api" 200

abbrev after_decision : World ℕ (List Message) × Requests
after_decision =
    absorb decision
      (Step-Follows counting (database after_proposal) decision after_proposal.1.1 chosen).keyed
      after_proposal.0

abbrev after_execution : World ℕ (List Message)
after_execution =
    (execute_remediation counting accept local_executor "evt1" 50 "ana" false "rem2" 300
      after_decision.0).0

abbrev life :
    Life counting accept (default_handlers no_faults) first (after_execution, after_decision.1)
life =
    then_step
      (then_step
        (then_step begin (
          proposed digest same engine service (λ a. "apr1") (λ a. none) "ana" "operator" incident
            100 candidates))
        (decided decision chosen))
      (worked after_execution (executed local_executor "evt1" 50 "ana" false "rem2" 300 refl))

Life-IsAuthorised_example :
    All
      (λ b.
        HandedOut b.status
        → IsAuthorised (WasApproved counting accept (default_handlers no_faults) life) b)
      after_execution.actions
Life-IsAuthorised_example =
    Life-IsAuthorised counting accept (default_handlers no_faults) first
      (after_execution, after_decision.1) refl life

-- The human's decision let the second one be queued.
lived_states : map (λ a. a.status) after_execution.actions ≡ approved ∷ queued ∷ []
unfolding propose propose_all propose_one propose_new reuse ask create_tx create_remediation assess
    new_action build_idempotency_key first_non_empty_risk proposed_status write_entry find_active
    advance_incident any_awaiting transition_incident find_incident update_status allowed_from
    allowed_among can_transition sort_strings evaluate by_risk effective_risk risk rank
    is_registered validate validate_keys missing parameter integer valid_dns_label lookup elem
    split_at asks proposal_of write_back request_approval create notified mark_notification
    find_by_remediation has_key decide_request normalize_decision validate_decision
    validate_separation find_request decide decide_tx write_audit write_audits verdict
    decided_events new_request trim_space equal_fold execute_remediation execute_read reserve_tx
    refuse_execution mark_queued row_where enqueue has_dispatch reservation_event_id publish_due
    publish_batch due_batch select_due sort_pending insert_pending is_due update_where count_where
    find_action require_transition is_terminal_state is_closed record_entry codes decimal
    decimal_before str_eq new_dispatch
lived_states = refl
