-- ===== src/Jobs/Execution/Entries.antt =====
-- The executors of internal/remediation/executor.go, and the guards and entries of
-- internal/remediation/service.go.
use argus.Base.{
  String, Bool, true, false, not, Option, none, some, List, [], ◌∷◌, Dict, if◌then◌else◌,
}
use argus.Base.Result.{Result, err}
use argus.Actions.{Value}
use argus.Approvals.{Event, Detail, state_of, word, flag, values}
use argus.Remediation.States.{
  State, awaiting_approval, approved, queued, running, succeeded, cancelled, is_terminal_state,
  require_transition,
}
use argus.Incidents.{Incident, find_incident, is_closed}
use argus.Jobs.{
  Action, JobError, requires_approval, not_executable, incident_not_found, incident_closed,
  invalid_transition,
}

-- `ExecutionOutcome`
pub record ExecutionOutcome : Type 0 where
  pub status : State
  pub result : Option (Dict Value)

-- `Executor`: its name, whether its work goes through the outbox, and what a call ends with.
pub record Executor : Type 0 where
  pub name : String
  pub is_queued : Bool
  pub run : Action → Incident → Bool → Result String ExecutionOutcome

-- `LocalExecutor`
abbrev pub local_executor : Executor
local_executor = record {
  name = "local";
  is_queued = true;
  run = λ a i dry_run. err "the local executor dispatches through the remediation outbox";
}

abbrev event_of : String → String → String → String → Dict Detail → Dict Detail → Event
event_of actor actor_type action id before_state after_state = record {
  actor_id = actor;
  actor_type = actor_type;
  action = action;
  resource_type = "remediation";
  resource_id = id;
  before_state = before_state;
  after_state = after_state;
  metadata = [];
}

-- `remediation.Status == StateSucceeded || ... StateQueued || ... StateRunning`
abbrev pub is_underway : State → Bool
is_underway succeeded = true
is_underway queued = true
is_underway running = true
is_underway _ = false

abbrev pub is_awaiting : State → Bool
is_awaiting awaiting_approval = true
is_awaiting _ = false

abbrev pub none? : {A : Type 0} → Option A → Bool
none? none = true
none? (some a) = false

unfoldable pub reused_event : String → Action → Event
reused_event actor a =
    event_of actor "user" "remediation.execution_reused" a.id []
      (("status", state_of a.status) ∷ ("idempotency_key", word a.idempotency_key) ∷ [])

unfoldable pub requested_event : String → Bool → Executor → Action → Option String → Event
requested_event actor dry_run exec a dispatch_id =
    event_of actor "user" "remediation.execute_requested" a.id (("status", state_of a.status) ∷ [])
      (("status", state_of queued)
        ∷ ("dry_run", flag dry_run)
        ∷ ("executor", word exec.name)
        ∷ elim dispatch_id [ none ↦ [] | some id ↦ ("dispatch_id", word id) ∷ [] ])

unfoldable pub failed_event : String → Action → String → Event
failed_event actor a error =
    event_of actor "user" "remediation.dispatch_failed" a.id (("status", state_of queued) ∷ [])
      (("status", state_of approved) ∷ ("error", word error) ∷ [])

abbrev pub detail_of : Option (Dict Value) → Detail
detail_of none = Detail.nil
detail_of (some m) = values m

unfoldable pub outcome_event : String → Executor → Action → String → ExecutionOutcome → Event
outcome_event actor exec a action outcome =
    event_of actor "user" action a.id (("status", state_of queued) ∷ []) (
      ("status", state_of outcome.status)
      ∷ ("executor", word exec.name)
      ∷ ("result", detail_of outcome.result)
      ∷ [])

unfoldable pub cancelled_event : String → Action → Event
cancelled_event actor a =
    event_of actor "user" "remediation.cancelled" a.id (("status", state_of a.status) ∷ [])
      (("status", state_of cancelled) ∷ [])

-- The guards of `Execute` on the row and its incident; none where it goes on.
unfoldable pub refuse_execution : Action → List Incident → Option JobError
refuse_execution a incidents =
    if is_awaiting a.status
    then some requires_approval
    else if is_terminal_state a.status
    then some not_executable
    else if not (none? (require_transition a.status queued))
    then some invalid_transition
    else elim (find_incident a.incident_id incidents) [
      | none ↦ some incident_not_found
      | some i ↦ if is_closed i.status then some incident_closed else none
    ]
