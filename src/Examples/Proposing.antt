-- ===== src/Examples/Proposing.antt =====
-- Runs of `Propose` in internal/remediation/service.go.
use argus.Base.{
  ℕ, ◌+◌, ◌*◌, String, ◌≡◌, refl, Bool, true, false, Option, none, some, List, [], ◌∷◌, map, Dict,
  lookup, elem, codes, split_at, decimal, decimal_before, str_eq, inl, sort_strings,
}
use argus.Base.Int.{pos}
use argus.Base.Result.{err}
use argus.Actions.{
  Value, int, collect_diagnostics, resize_connection_pool, effective_risk, risk, rank,
  is_registered, validate, validate_keys, missing, parameter, integer, valid_dns_label,
}
use argus.Approvals.{Event, count_where}
use argus.Remediation.States.{approved, awaiting_approval, failed}
use argus.Policy.{Engine, IncidentInput, evaluate, by_risk}
use argus.Rca.{Candidate}
use argus.Incidents.{
  Status, transition_incident, find_incident, update_status, allowed_from, allowed_among,
  can_transition,
}
use argus.Jobs.{Action, World, Message, create_failed}
use argus.Jobs.Outbox.{second, write_entry}
use argus.Jobs.Proposals.{
  Workflow, propose, propose_all, propose_one, propose_new, reuse, ask, create_tx,
  create_remediation, assess, new_action, first_non_empty_risk, proposed_status, advance_incident,
  any_awaiting, find_active, build_idempotency_key,
}
use argus.Jobs.Proposing.{Proposes, propose-Proposes}
use argus.Jobs.Repeating.{propose-clashes}

abbrev pub counting : Event → ℕ → Option ℕ
counting event n = some (n + 1)

-- A digest that tells no parameters apart, and an approval workflow that counts its requests.
abbrev pub digest : Dict Value → String
digest parameters = "5e1f"

abbrev pub same : Dict Value → Dict Value → Bool
same a b = true

abbrev workflow : Workflow ℕ (List Message) ℕ
workflow i a (w, n) = ((w, n + 1), true)

abbrev pub engine : Engine
engine = record { environments = "local" ∷ [] }

abbrev pub incident : IncidentInput
incident = record {
  id = "inc1";
  severity = "critical";
  service = "payments-api";
  environment = "local";
}

abbrev diagnosis : Candidate
diagnosis = record {
  action_type = collect_diagnostics;
  target = "payments-api";
  parameters = [];
  risk = "low";
  requires_approval = false;
}

abbrev resize : Candidate
resize = record {
  action_type = resize_connection_pool;
  target = "payments-api";
  parameters = ("size", int (pos 20)) ∷ [];
  risk = "medium";
  requires_approval = true;
}

abbrev pub empty_world : World ℕ (List Message)
empty_world = record {
  actions = [];
  dispatches = [];
  incidents =
      record { id = "inc1"; status = Status.rca_generated; updated_at = 5; resolved_at = none }
      ∷ [];
  heartbeats = [];
  ledger = 0;
  stream = [];
}

abbrev pub candidates : List (String × Candidate)
candidates = ("rem1", diagnosis) ∷ ("rem2", resize) ∷ []

propose-Proposes_example :
    let r =
      propose counting digest same engine
        (some workflow)
        "ana"
        "operator"
        incident
        100
        candidates
        (empty_world, 0) in
    Proposes same [] r.0.0.actions
propose-Proposes_example =
    propose-Proposes same counting digest engine (some workflow) "ana" "operator" incident 100
      candidates (empty_world, 0) (λ i a p. refl)

-- The diagnosis is approved at once, the resize waits, and one approval is asked for.
proposed_states :
    let r =
      propose counting digest same engine
        (some workflow)
        "ana"
        "operator"
        incident
        100
        candidates
        (empty_world, 0) in
    (map (λ a. a.status) r.0.0.actions ≡ approved ∷ awaiting_approval ∷ [])
    × (map (λ i. i.status) r.0.0.incidents ≡ Status.awaiting_approval ∷ [])
    × (r.0.1 ≡ 1)
unfolding propose propose_all propose_one propose_new reuse ask create_tx create_remediation assess
    new_action build_idempotency_key first_non_empty_risk proposed_status write_entry find_active
    count_where advance_incident any_awaiting transition_incident find_incident update_status
    allowed_from allowed_among can_transition sort_strings evaluate by_risk effective_risk risk rank
    is_registered validate validate_keys missing parameter integer valid_dns_label lookup elem codes
    split_at decimal decimal_before str_eq
proposed_states = (refl, refl, refl)

-- A resize that failed an hour ago.
abbrev failed_resize : Action
failed_resize = record {
  id = "rem2";
  incident_id = "inc1";
  action_type = resize_connection_pool;
  target = "payments-api";
  parameters = ("size", int (pos 20)) ∷ [];
  status = failed;
  risk = "medium";
  idempotency_key = "inc1_resize_connection_pool_payments-api_1_5e1f";
  proposed_by = "ana";
  approved_by = "ben";
  policy_decision = [];
  dry_run = false;
  attempt = 1;
  max_attempts = 1;
  queued_at = some 200;
  started_at = some 300;
  completed_at = some 400;
  result = none;
  error = "control state";
  created_at = 100;
}

abbrev failed_world : World ℕ (List Message)
failed_world = record empty_world { actions = failed_resize ∷ [] }

propose-clashes_example :
    propose counting digest same engine
      (some workflow)
      "ana"
      "operator"
      incident
      (3600 * second)
      (("rem3", resize) ∷ [])
      (failed_world, 0)
    ≡ ((failed_world, 0), err create_failed)
propose-clashes_example =
    propose-clashes counting digest same engine (some workflow) "ana" "operator" incident
      (3600 * second) "rem3" resize [] failed_resize (failed_world, 0) (inl refl)
      (unfold build_idempotency_key decimal decimal_before in refl)
      (unfold find_active str_eq in refl) (unfold count_where str_eq in refl)
