-- ===== src/Approvals/Service.antt =====
-- The approval service: internal/approvals/service.go. What a notification ends with is an argument,
-- and metrics and logs are left out.
use argus.Base.{
  ℕ, ◌+◌, ◌/◌, String, Bool, not, ◌&&◌, ◌||◌, Option, none, some, List, [], ◌∷◌, Dict, str_eq, leb,
  ◌==◌, codes, trim_space, equal_fold, if◌then◌else◌,
}
use argus.Base.Result.{Result, ok, err}
use argus.Actions.{Value}
use argus.Approvals.{
  RequestStatus, Request, Event, ApprovalError, not_found, bad_decision, no_approver, no_reason,
  self_approval, Database, find_request, find_by_remediation,
}
use argus.Approvals.Store.{decision_approve, decision_deny, create, decide}
use argus.Approvals.Sweep.{
  cancel_by_remediation, mark_notification, due_escalations, mark_escalated, expire_due,
}

-- The fields of `Service` that the operations read; times in nanoseconds.
pub record Service : Type 0 where
  pub timeout : ℕ
  pub escalate_after : ℕ
  pub allow_self : Bool
  pub transport : String

-- The defaults of `NewService`: 15 minutes, and half of the timeout; 0 stands for a duration that is
-- not positive.
unfoldable pub new_service : ℕ → ℕ → Bool → String → Service
new_service timeout escalate_after allow_self transport =
    let t = if timeout == 0 then 900000000000 else timeout in
    record {
      timeout = t;
      escalate_after =
          if escalate_after == 0 || leb t escalate_after then t / 2 else escalate_after;
      allow_self = allow_self;
      transport = transport;
    }

-- What a proposal gives a request.
pub record Proposal : Type 0 where
  pub remediation_id : String
  pub incident_id : String
  pub action_type : String
  pub target : String
  pub parameters : Dict Value
  pub risk : String
  pub proposed_by : String

unfoldable pub new_request : Service → String → Proposal → ℕ → Request
new_request s id p now = record {
  id = id;
  remediation_id = p.remediation_id;
  incident_id = p.incident_id;
  action_type = p.action_type;
  target = p.target;
  parameters = p.parameters;
  risk = p.risk;
  status = RequestStatus.pending;
  requested_by = p.proposed_by;
  requested_at = now;
  escalates_at = now + s.escalate_after;
  expires_at = now + s.timeout;
  escalated_at = none;
  decided_at = none;
  decided_by = "";
  decision_reason = "";
  decision_source = "";
  notification_status = "pending";
  notification_attempts = 0;
  last_notification_error = "";
  created_at = now;
  updated_at = now;
}

-- `strings.ToLower(strings.TrimSpace(decision))`, for what becomes of it: only the two decisions are
-- told from other texts.
unfoldable pub normalize_decision : String → String
normalize_decision decision =
    let trimmed = trim_space decision in
    if equal_fold (codes trimmed) (codes decision_approve)
    then decision_approve
    else if equal_fold (codes trimmed) (codes decision_deny)
    then decision_deny
    else trimmed

-- `validateDecision`; nil is none.
unfoldable pub validate_decision : String → String → String → Option ApprovalError
validate_decision decision reason actor =
    if not (str_eq decision decision_approve) && not (str_eq decision decision_deny)
    then some bad_decision
    else if str_eq (trim_space actor) "" || str_eq actor "system"
    then some no_approver
    else if str_eq (trim_space reason) ""
    then some no_reason
    else none

-- `validateSeparation`; nil is none.
unfoldable pub validate_separation : String → String → Bool → Option ApprovalError
validate_separation requested_by actor allow_self =
    if not allow_self && equal_fold (codes (trim_space requested_by)) (codes (trim_space actor))
    then some self_approval
    else none

-- What follows the notification: an error text, or none when it was delivered.
unfoldable pub notified :
    {L : Type 0} → Service → Option String → ℕ → Request → Database L → Database L × Request
notified s (some message) now r db = (mark_notification r.id "failed" message now db, r)
notified s none now r db =
    let status = if str_eq s.transport "disabled" then "disabled" else "delivered" in
    (
      mark_notification r.id status "" now db,
      record r {
        notification_status = status;
        notification_attempts = r.notification_attempts + 1;
      },
    )

abbrev pub or_refuse {ℓ} :
    {L : Type 0}
    → {A : Type ℓ} → Database L
    → Option ApprovalError
    → Database L × Result ApprovalError A
    → Database L × Result ApprovalError A
or_refuse db none next = next
or_refuse db (some e) next = (db, err e)

module _ {L : Type 0} (write : Event → L → Option L) where
  -- `RequestApproval`, with the identifier that it draws.
  unfoldable pub request_approval :
      Service
      → String
      → Proposal
      → Option String
      → ℕ
      → Database L
      → Database L × Result ApprovalError Request
  request_approval s id p notification now db =
      let created = create write (new_request s id p now) db in
      elim created.1 [
        | err e ↦ (created.0, err e)
        | ok stored ↦
            let done = notified s notification now stored created.0 in
            if not (str_eq stored.id id) then (created.0, ok stored) else (done.0, ok done.1)
      ]

  -- `Service.Decide`
  unfoldable pub decide_request :
      Service
      → String
      → String
      → String
      → String
      → String
      → String
      → ℕ
      → Database L
      → Database L × Result ApprovalError Request
  decide_request s id actor actor_type text reason source now db =
      let decision = normalize_decision text in
      or_refuse db (validate_decision decision (trim_space reason) actor)
        (elim (find_request id db.requests) [
          | none ↦ (db, err not_found)
          | some r ↦
              or_refuse db (validate_separation r.requested_by actor s.allow_self)
                (decide write id actor actor_type decision (trim_space reason) source now db)
        ])

  -- `Service.DecideByRemediation`
  unfoldable pub decide_by_remediation :
      Service
      → String
      → String
      → String
      → String
      → String
      → ℕ
      → Database L
      → Database L × Result ApprovalError Request
  decide_by_remediation s remediation_id actor actor_type decision reason now db =
      elim (find_by_remediation remediation_id db.requests) [
        | none ↦ (db, err not_found)
        | some r ↦ decide_request s r.id actor actor_type decision reason "api" now db
      ]

  -- `Service.CancelByRemediation`
  unfoldable pub cancel_request :
      String → String → String → ℕ → Database L → Database L × Result ApprovalError Request
  cancel_request remediation_id actor reason now db =
      if str_eq (trim_space actor) ""
      then (db, err no_approver)
      else cancel_by_remediation write remediation_id actor (trim_space reason) now db

  -- The loop of `processDue` over the escalations: `notify` is what the notification of each ends with.
  unfoldable pub escalate_all :
      (Request → Option String) → ℕ → List Request → Database L → Database L
  escalate_all notify now [] db = db
  escalate_all notify now (r ∷ rs) db = elim (notify r) [
    | some message ↦
        escalate_all notify now rs (mark_notification r.id "escalation_failed" message now db)
    | none ↦ escalate_all notify now rs (mark_escalated write r now db).0
  ]

  -- `processDue`
  unfoldable pub process_due : (Request → Option String) → ℕ → Database L → Database L
  unfolding escalate_all
  process_due notify now db =
      let expired = (expire_due write now 100 db).0 in
      escalate_all notify now (due_escalations now 100 expired) expired
