-- ===== src/Approvals/Store.antt =====
-- The operations of the approval store: internal/approvals/store.go.
use argus.Base.{
  ℕ, String, Bool, false, not, ◌&&◌, ◌||◌, Option, none, some, List, [], ◌∷◌, ◌++◌, str_eq, ltb,
  ◌==◌, if◌then◌else◌,
}
use argus.Base.Result.{Result, ok, err, ◌>>=◌, or_err}
use argus.Remediation.States.{State, approved, rejected, timed_out, awaiting_approval}
use argus.Approvals.{
  RequestStatus, Request, Remediation, status_of, state_of, word, time, values, Event,
  ApprovalError, not_found, already_decided, request_expired, insert_failed, not_awaiting,
  audit_failed, Database, is_pending, is_awaiting, update_where, count_where, find_request,
  find_by_remediation, transact,
}

-- `DecisionApprove` and `DecisionDeny`
abbrev pub decision_approve : String
decision_approve = "approve"

abbrev pub decision_deny : String
decision_deny = "deny"

abbrev controller : String
controller = "approval-controller"

abbrev pub has_id : String → Request → Bool
has_id id r = str_eq r.id id

abbrev pub is_pending_id : String → Request → Bool
is_pending_id id r = str_eq r.id id && is_pending r.status

-- `WHERE id = $1 AND status = 'awaiting_approval'`
abbrev pub is_awaiting_id : String → Remediation → Bool
is_awaiting_id id a = str_eq a.id id && is_awaiting a.status

abbrev pub set_decision : RequestStatus → ℕ → String → String → String → Request → Request
set_decision status now actor reason source r = record r {
  status = status;
  decided_at = some now;
  decided_by = actor;
  decision_reason = reason;
  decision_source = source;
  updated_at = now;
}

abbrev pub set_expired : ℕ → Request → Request
set_expired now r = record r { status = RequestStatus.expired; updated_at = now }

-- `SET status = $2`, and for a decision `approved_by = NULLIF($3, '')` too.
abbrev pub set_state : State → Remediation → Remediation
set_state status a = record a { status = status }

abbrev pub set_verdict : State → Option String → Remediation → Remediation
set_verdict status approved_by a = record a { status = status; approved_by = approved_by }

-- The conflict of an `INSERT` with the primary key.
unfoldable pub has_key : String → List Request → Bool
has_key id [] = false
has_key id (r ∷ rs) = str_eq r.id id || has_key id rs

unfoldable pub requested_event : Request → Event
requested_event r = record {
  actor_id = r.requested_by;
  actor_type = "user";
  action = "approval.requested";
  resource_type = "approval_request";
  resource_id = r.id;
  before_state = [];
  after_state =
      ("status", status_of r.status)
      ∷ ("remediation_id", word r.remediation_id)
      ∷ ("action_type", word r.action_type)
      ∷ ("target", word r.target)
      ∷ ("parameters", values r.parameters)
      ∷ ("risk", word r.risk)
      ∷ ("expires_at", time r.expires_at)
      ∷ [];
  metadata = [];
}

unfoldable pub expired_events : Request → ℕ → Event × Event
expired_events r now = (
  record {
    actor_id = controller;
    actor_type = "system";
    action = "approval.expired";
    resource_type = "approval_request";
    resource_id = r.id;
    before_state = ("status", status_of RequestStatus.pending) ∷ [];
    after_state = ("status", status_of RequestStatus.expired) ∷ ("expired_at", time now) ∷ [];
    metadata = ("remediation_id", word r.remediation_id) ∷ [];
  },
  record {
    actor_id = controller;
    actor_type = "system";
    action = "remediation.approval_timed_out";
    resource_type = "remediation";
    resource_id = r.remediation_id;
    before_state = ("status", state_of awaiting_approval) ∷ [];
    after_state = ("status", state_of timed_out) ∷ ("approval_request_id", word r.id) ∷ [];
    metadata = [];
  },
)

-- The two `UPDATE` statements of an expiry.
abbrev pub expired_rows : {L : Type 0} → Request → ℕ → Database L → Database L
expired_rows r now db = record db {
  requests = update_where (is_pending_id r.id) (set_expired now) db.requests;
  remediations =
      update_where (is_awaiting_id r.remediation_id) (set_state timed_out) db.remediations;
}

-- What a decision makes of the request and of the remediation.
unfoldable pub verdict : String → RequestStatus × State
verdict decision =
    if str_eq decision decision_approve
    then (RequestStatus.approved, approved)
    else (RequestStatus.denied, rejected)

unfoldable pub decided_events : Request → String → String → String → String → String → Event × Event
decided_events r actor actor_type decision reason source =
    let approves = str_eq decision decision_approve in
    (
      record {
        actor_id = actor;
        actor_type = actor_type;
        action = if approves then "approval.approved" else "approval.denied";
        resource_type = "approval_request";
        resource_id = r.id;
        before_state = ("status", status_of RequestStatus.pending) ∷ [];
        after_state =
            ("status", status_of (verdict decision).0)
            ∷ ("remediation_id", word r.remediation_id)
            ∷ ("remediation_status", state_of (verdict decision).1)
            ∷ ("decided_by", word actor)
            ∷ ("reason", word reason)
            ∷ ("source", word source)
            ∷ [];
        metadata = [];
      },
      record {
        actor_id = actor;
        actor_type = actor_type;
        action = if approves then "remediation.approved" else "remediation.rejected";
        resource_type = "remediation";
        resource_id = r.remediation_id;
        before_state = ("status", state_of awaiting_approval) ∷ [];
        after_state =
            ("status", state_of (verdict decision).1)
            ∷ ("approval_request_id", word r.id)
            ∷ ("decision_reason", word reason)
            ∷ ("decision_source", word source)
            ∷ [];
        metadata = [];
      },
    )

-- `approved_by`: NULL if the decision is no approval or the actor is empty.
abbrev pub approver : String → String → Option String
approver decision actor =
    if str_eq decision decision_approve && not (str_eq actor "") then some actor else none

-- The two `UPDATE` statements of a decision.
abbrev pub decided_rows :
    {L : Type 0} → Request → String → String → String → String → ℕ → Database L → Database L
decided_rows r actor decision reason source now db = record db {
  requests =
      update_where (has_id r.id) (set_decision (verdict decision).0 now actor reason source)
        db.requests;
  remediations =
      update_where (is_awaiting_id r.remediation_id)
        (set_verdict (verdict decision).1 (approver decision actor)) db.remediations;
}

abbrev pub after_expiry :
    {L : Type 0}
    → Database L
    → Result ApprovalError (Database L)
    → Database L × Result ApprovalError Request
after_expiry db (ok db') = (db', err request_expired)
after_expiry db (err e) = (db, err e)

module _ {L : Type 0} (write : Event → L → Option L) where
  -- `writeAuditTx`
  unfoldable pub write_audit : Event → Database L → Result ApprovalError (Database L)
  write_audit event db = do
    ledger ← or_err audit_failed (write event db.ledger)
    ok (record db { ledger = ledger })

  -- The two entries that follow an update of both tables.
  unfoldable pub write_audits : Event × Event → Database L → Result ApprovalError (Database L)
  write_audits events db = do db' ← write_audit events.0 db; write_audit events.1 db'

  -- `Create`: an insertion that fails leaves the search for another request of the remediation.
  unfoldable pub create : Request → Database L → Database L × Result ApprovalError Request
  unfolding has_key
  create request db = elim (find_by_remediation request.remediation_id db.requests) [
    | some existing ↦ (db, ok existing)
    | none ↦
        if has_key request.id db.requests
        then (db, err insert_failed)
        else transact db (do
          db' ←
              write_audit (requested_event request)
                (record db { requests = db.requests ++ request ∷ [] })
          ok (db', request))
  ]

  -- `expireTx`, with `expireRemediationAndAudit`
  unfoldable pub expire_tx : Request → ℕ → Database L → Result ApprovalError (Database L)
  expire_tx r now db = write_audits (expired_events r now) (expired_rows r now db)

  -- The transaction of `Decide`, after the checks of the status and of the time.
  unfoldable pub decide_tx :
      Request
      → String
      → String
      → String
      → String
      → String
      → ℕ
      → Database L
      → Result ApprovalError (Database L × Request)
  decide_tx r actor actor_type decision reason source now db =
      let rows = decided_rows r actor decision reason source now db in
      if not (count_where (is_awaiting_id r.remediation_id) db.remediations == 1)
      then err not_awaiting
      else do
        db' ← write_audits (decided_events r actor actor_type decision reason source) rows
        ok (db', set_decision (verdict decision).0 now actor reason source r)

  -- `Decide`
  unfoldable pub decide :
      String
      → String
      → String
      → String
      → String
      → String
      → ℕ
      → Database L
      → Database L × Result ApprovalError Request
  decide id actor actor_type decision reason source now db = elim (find_request id db.requests) [
    | none ↦ (db, err not_found)
    | some r ↦
        if not (is_pending r.status)
        then (db, err already_decided)
        else if not (ltb now r.expires_at)
        then after_expiry db (expire_tx r now db)
        else transact db (decide_tx r actor actor_type decision reason source now db)
  ]
