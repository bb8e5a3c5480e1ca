-- ===== src/Jobs/Proposals/Rows.antt =====
-- The row of a proposal and its entries in internal/remediation/service.go, and the statements of
-- internal/incidents/store.go that `Propose` makes.
use argus.Base.{
  ℕ, ◌+◌, ◌*◌, ◌==◌, String, Bool, true, false, not, ◌&&◌, ◌||◌, Option, none, some, List, [], ◌∷◌,
  ◌++◌, Dict, elem, str_eq, ltb, leb, decimal, if◌then◌else◌,
}
use argus.Base.Int.{pos}
use argus.Base.Result.{Result, ok, err}
use argus.Actions.{Value, int, bool, other}
use argus.Approvals.{Event, Detail, state_of, word, flag, number, count_where}
use argus.Remediation.States.{
  State, policy_blocked, awaiting_approval, approved, rejected, succeeded, failed, timed_out,
  cancelled,
}
use argus.Policy.{Input, IncidentInput, Decision}
use argus.Rca.{Candidate}
use argus.Jobs.{Action, JobError, create_failed}
use argus.Jobs.Outbox.{second, ◌^++◌}

-- `status NOT IN (...)` of `FindActiveRemediationByAction`
abbrev pub is_active : State → Bool
is_active policy_blocked = false
is_active rejected = false
is_active succeeded = false
is_active failed = false
is_active timed_out = false
is_active cancelled = false
is_active _ = true

-- `status IN ('failed', 'timed_out')`
abbrev pub is_failure : State → Bool
is_failure failed = true
is_failure timed_out = true
is_failure _ = false

-- `created_at >= now() - interval '10 minutes'`
abbrev pub in_last_10m : ℕ → Action → Bool
in_last_10m now a = leb now (a.created_at + 600 * second)

-- `firstNonEmptyRisk`
unfoldable pub first_non_empty_risk : String → String → String
first_non_empty_risk risk other_risk =
    if not (str_eq risk "")
    then risk
    else if not (str_eq other_risk "")
    then other_risk
    else "medium"

-- `BuildIdempotencyKey`; `digest` is the hash of the parameters' JSON, in hex.
unfoldable pub build_idempotency_key :
    (Dict Value → String) → String → String → String → ℕ → Dict Value → String
build_idempotency_key digest incident_id action_type target attempt parameters =
    let base = incident_id ^++ "_" ^++ action_type ^++ "_" ^++ target ^++ "_" ^++ decimal attempt in
    elim parameters [ [] ↦ base | p ∷ rest ↦ base ^++ "_" ^++ digest (p ∷ rest) ]

-- The `switch` on the decision.
unfoldable pub proposed_status : Decision → State
proposed_status d =
    if d.allow then if d.requires_approval then awaiting_approval else approved else policy_blocked

-- `PolicyDecision`; the text of the reason is `other`.
unfoldable pub policy_decision : Decision → ℕ → ℕ → Dict Value
policy_decision d failures recent =
    ("allow", bool d.allow)
    ∷ ("requires_approval", bool d.requires_approval)
    ∷ ("reason", other)
    ∷ ("max_attempts", int (pos d.max_attempts))
    ∷ ("failed_attempts", int (pos failures))
    ∷ ("same_action_10m", int (pos recent))
    ∷ []

abbrev pub input_of : String → String → IncidentInput → Candidate → ℕ → ℕ → Input
input_of actor role incident c recent failures = record {
  actor = record { id = actor; role = role };
  incident = incident;
  remediation = record {
    action = c.action_type;
    target = c.target;
    risk = c.risk;
    dry_run = true;
    parameters = c.parameters;
  };
  history = record { same_action_last_10m = recent; failed_attempts = failures };
}

-- The row of a proposal.
unfoldable pub new_action :
    (Dict Value → String)
    → String
    → String
    → IncidentInput
    → Candidate
    → Decision
    → ℕ
    → ℕ
    → ℕ
    → Action
unfolding proposed_status build_idempotency_key first_non_empty_risk policy_decision
new_action digest id actor incident c d recent failures now = record {
  id = id;
  incident_id = incident.id;
  action_type = c.action_type;
  target = c.target;
  parameters = c.parameters;
  status = proposed_status d;
  risk = first_non_empty_risk d.risk c.risk;
  idempotency_key =
      build_idempotency_key digest incident.id c.action_type c.target (recent + 1) c.parameters;
  proposed_by = actor;
  approved_by = "";
  policy_decision = policy_decision d failures recent;
  dry_run = true;
  attempt = recent + 1;
  max_attempts = d.max_attempts;
  queued_at = none;
  started_at = none;
  completed_at = none;
  result = none;
  error = "";
  created_at = now;
}

-- The unique columns.
abbrev pub clashes : Action → Action → Bool
clashes a b = str_eq b.id a.id || str_eq b.idempotency_key a.idempotency_key

-- `CreateRemediation`, which fails on a unique column or on the check of the risk.
unfoldable pub create_remediation : Action → List Action → Result JobError (List Action)
create_remediation a rows =
    if not (count_where (clashes a) rows == 0) || not (elem a.risk ("low" ∷ "medium" ∷ "high" ∷ []))
    then err create_failed
    else ok (rows ++ a ∷ [])

-- `PolicyDecision` as the metadata of the entry; the text of the reason is `nil`.
unfoldable pub decision_details : Decision → ℕ → ℕ → Dict Detail
decision_details d failures recent =
    ("allow", flag d.allow)
    ∷ ("requires_approval", flag d.requires_approval)
    ∷ ("reason", Detail.nil)
    ∷ ("max_attempts", number d.max_attempts)
    ∷ ("failed_attempts", number failures)
    ∷ ("same_action_10m", number recent)
    ∷ []

unfoldable pub proposed_event : String → Action → Dict Detail → Event
proposed_event actor a details = record {
  actor_id = actor;
  actor_type = "user";
  action = "remediation.proposed";
  resource_type = "remediation";
  resource_id = a.id;
  before_state = [];
  after_state =
      ("status", state_of a.status)
      ∷ ("risk", word a.risk)
      ∷ ("idempotency_key", word a.idempotency_key)
      ∷ [];
  metadata = details;
}

unfoldable pub proposal_reused_event : String → Action → Event
proposal_reused_event actor a = record {
  actor_id = actor;
  actor_type = "user";
  action = "remediation.proposal_reused";
  resource_type = "remediation";
  resource_id = a.id;
  before_state = [];
  after_state = ("status", state_of a.status) ∷ ("idempotency_key", word a.idempotency_key) ∷ [];
  metadata = [];
}

-- `parameters = $4::jsonb`, of PostgreSQL.
module _ (same : Dict Value → Dict Value → Bool) where
  -- The row is about what the candidate proposes.
  abbrev pub about : String → Candidate → Action → Bool
  about incident_id c a =
      str_eq a.incident_id incident_id
      && str_eq a.action_type c.action_type
      && str_eq a.target c.target
      && same a.parameters c.parameters

  -- `FindActiveRemediationByAction`: the newest.
  unfoldable pub find_active : String → Candidate → List Action → Option Action
  find_active incident_id c [] = none
  find_active incident_id c (a ∷ rest) =
      let others = find_active incident_id c rest in
      if about incident_id c a && is_active a.status
      then elim others [
        | none ↦ some a
        | some b ↦ if ltb a.created_at b.created_at then some b else some a
      ]
      else others

  -- `CountRecentSimilarRemediations`
  abbrev pub count_recent : String → Candidate → ℕ → List Action → ℕ
  count_recent incident_id c now = count_where (λ a. about incident_id c a && in_last_10m now a)

  -- `CountFailedRemediations`
  abbrev pub count_failed : String → Candidate → List Action → ℕ
  count_failed incident_id c = count_where (λ a. about incident_id c a && is_failure a.status)
