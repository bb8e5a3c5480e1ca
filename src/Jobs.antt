-- ===== src/Jobs.antt =====
-- The jobs of remediations: the rows that internal/incidents/store.go, internal/remediation and
-- internal/workers/runner.go share. A time is a number of nanoseconds. The ledger and JetStream are
-- parameters, since the code only calls their `WriteTx` and `Publish`.
pub mod Store
pub mod Outbox
pub mod Reconcile
pub mod Execution
pub mod Runner
pub mod Proposals
pub mod Moves
pub mod Follows
pub mod Publishing
pub mod Working
pub mod Handling
pub mod Steps
pub mod Settled
pub mod Answered
pub mod Delays
pub mod Batches
pub mod Sending
pub mod Reserving
pub mod Late
pub mod Stuck
pub mod Verdicts
pub mod Twins
pub mod Proposing
pub mod Repeating
use argus.Base.{ℕ, String, Bool, Option, none, some, List, Dict}
use argus.Base.Result.{Result, ok, err}
use argus.Actions.{Value}
use argus.Remediation.States.{State}
use argus.Incidents.{Incident}
use argus.Approvals.{Event}

-- `RemediationAction`. A `result` is none where the column holds JSON null.
pub record Action : Type 0 where
  pub id : String
  pub incident_id : String
  pub action_type : String
  pub target : String
  pub parameters : Dict Value
  pub status : State
  pub risk : String
  pub idempotency_key : String
  pub proposed_by : String
  pub approved_by : String
  pub policy_decision : Dict Value
  pub dry_run : Bool
  pub attempt : ℕ
  pub max_attempts : ℕ
  pub queued_at : Option ℕ
  pub started_at : Option ℕ
  pub completed_at : Option ℕ
  pub result : Option (Dict Value)
  pub error : String
  pub created_at : ℕ

-- `DispatchExecute` and the other two, which are all that the column admits.
pub data Reason : Type 0 where
  execute redispatch replay : Reason

-- `queue.Event` with its payload; the type, the producer and the executor are fixed.
pub record Message : Type 0 where
  pub event_id : String
  pub occurred_at : ℕ
  pub idempotency_key : String
  pub remediation_id : String
  pub incident_id : String
  pub dry_run : Bool

pub data DispatchState : Type 0 where
  pending published skipped : DispatchState

-- A row of `remediation_dispatches`.
pub record Dispatch : Type 0 where
  pub id : String
  pub remediation_id : String
  pub reason : Reason
  pub event : Message
  pub state : DispatchState
  pub attempts : ℕ
  pub last_error : Option String
  pub next_attempt_at : ℕ
  pub published_at : Option ℕ
  pub created_at : ℕ

-- A row of `worker_heartbeats`.
pub record Heartbeat : Type 0 where
  pub worker_id : String
  pub last_heartbeat_at : ℕ
  pub supported_actions : List String

-- The tables, the audit ledger L and the stream Q.
pub record World (L Q : Type 0) : Type 0 where
  pub actions : List Action
  pub dispatches : List Dispatch
  pub incidents : List Incident
  pub heartbeats : List Heartbeat
  pub ledger : L
  pub stream : Q

pub data JobError : Type 0 where
  not_found not_dispatchable enqueue_failed audit_failed state_changed : JobError
  requires_approval not_executable incident_not_found incident_closed no_reservation : JobError
  approvals_unavailable invalid_transition : JobError
  unknown_outcome create_failed approval_failed : JobError
  executor_failed : String → JobError

-- A transaction: it is rolled back on an error.
abbrev pub commit {ℓ} :
    {L Q : Type 0} {A : Type ℓ}
    → World L Q
    → Result JobError (World L Q × A)
    → World L Q × Result JobError A
commit w (ok (w', a)) = (w', ok a)
commit w (err e) = (w, err e)
