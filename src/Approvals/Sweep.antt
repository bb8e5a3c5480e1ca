-- ===== src/Approvals/Sweep.antt =====
-- Cancellation, notification, escalation and expiry: internal/approvals/store.go.
use argus.Base.{
  ℕ, ◌+◌, String, Bool, true, false, not, ◌&&◌, Option, none, some, List, [], ◌∷◌, take, str_eq,
  ltb, leb, ◌==◌, if◌then◌else◌,
}
use argus.Base.Result.{Result, ok, err, ◌>>=◌}
use argus.Remediation.States.{cancelled, awaiting_approval}
use argus.Approvals.{
  RequestStatus, Request, status_of, state_of, word, time, nil, Event, ApprovalError, not_found,
  already_decided, not_awaiting, Database, is_pending, update_where, count_where,
  find_by_remediation, transact,
}
use argus.Approvals.Store.{
  has_id, is_pending_id, is_awaiting_id, set_decision, set_state, write_audit, write_audits,
  expire_tx, set_expired,
}

abbrev is_none {ℓ} : {A : Type ℓ} → Option A → Bool
is_none none = true
is_none (some a) = false

-- `WHERE status = 'pending' AND expires_at <= $1`
abbrev pub is_due : ℕ → Request → Bool
is_due now r = is_pending r.status && leb r.expires_at now

-- `WHERE status = 'pending' AND escalated_at IS NULL AND escalates_at <= $1`
abbrev pub is_escalation_due : ℕ → Request → Bool
is_escalation_due now r = is_pending r.status && (is_none r.escalated_at && leb r.escalates_at now)

unfoldable pub select_where {ℓ} : {A : Type ℓ} → (A → Bool) → List A → List A
select_where p [] = []
select_where p (x ∷ xs) = let rest = select_where p xs in if p x then x ∷ rest else rest

-- `ORDER BY` a time.
unfoldable pub insert_by : (Request → ℕ) → Request → List Request → List Request
insert_by key r [] = r ∷ []
insert_by key r (s ∷ rs) = if ltb (key s) (key r) then s ∷ insert_by key r rs else r ∷ s ∷ rs

unfoldable pub sort_by : (Request → ℕ) → List Request → List Request
unfolding insert_by
sort_by key [] = []
sort_by key (r ∷ rs) = insert_by key r (sort_by key rs)

-- `DueEscalations`
unfoldable pub due_escalations : {L : Type 0} → ℕ → ℕ → Database L → List Request
unfolding sort_by select_where
due_escalations now limit db =
    take limit (sort_by (λ r. r.escalates_at) (select_where (is_escalation_due now) db.requests))

-- The query of `ExpireDue`.
unfoldable pub due_expiries : {L : Type 0} → ℕ → ℕ → Database L → List Request
unfolding sort_by select_where
due_expiries now limit db =
    take limit (sort_by (λ r. r.expires_at) (select_where (is_due now) db.requests))

-- `CountPending`
unfoldable pub count_pending : {L : Type 0} → Database L → ℕ
unfolding count_where
count_pending db = count_where (λ r. is_pending r.status) db.requests

-- `MarkNotification`
unfoldable pub mark_notification :
    {L : Type 0} → String → String → String → ℕ → Database L → Database L
mark_notification id status message now db = record db {
  requests =
      update_where (has_id id)
        (λ r. record r {
          notification_status = status;
          notification_attempts = r.notification_attempts + 1;
          last_notification_error = message;
          updated_at = now;
        })
        db.requests;
}

unfoldable pub cancelled_events : Request → String → String → Event × Event
cancelled_events r actor reason = (
  record {
    actor_id = actor;
    actor_type = "user";
    action = "approval.cancelled";
    resource_type = "approval_request";
    resource_id = r.id;
    before_state = ("status", status_of RequestStatus.pending) ∷ [];
    after_state = ("status", status_of RequestStatus.cancelled) ∷ ("reason", word reason) ∷ [];
    metadata = ("remediation_id", word r.remediation_id) ∷ [];
  },
  record {
    actor_id = actor;
    actor_type = "user";
    action = "remediation.cancelled";
    resource_type = "remediation";
    resource_id = r.remediation_id;
    before_state = ("status", state_of awaiting_approval) ∷ [];
    after_state = ("status", state_of cancelled) ∷ ("approval_request_id", word r.id) ∷ [];
    metadata = [];
  },
)

-- The two `UPDATE` statements of a cancellation.
abbrev pub cancelled_rows : {L : Type 0} → Request → String → String → ℕ → Database L → Database L
cancelled_rows r actor reason now db = record db {
  requests =
      update_where (has_id r.id) (set_decision RequestStatus.cancelled now actor reason "api")
        db.requests;
  remediations =
      update_where (is_awaiting_id r.remediation_id) (set_state cancelled) db.remediations;
}

unfoldable pub escalated_event : Request → ℕ → Event
escalated_event r now = record {
  actor_id = "approval-controller";
  actor_type = "system";
  action = "approval.escalated";
  resource_type = "approval_request";
  resource_id = r.id;
  before_state = ("status", status_of RequestStatus.pending) ∷ ("escalated_at", nil) ∷ [];
  after_state = ("status", status_of RequestStatus.pending) ∷ ("escalated_at", time now) ∷ [];
  metadata = ("remediation_id", word r.remediation_id) ∷ [];
}

-- `status = 'pending' AND escalated_at IS NULL`
abbrev pub may_escalate : String → Request → Bool
may_escalate id r = str_eq r.id id && (is_pending r.status && is_none r.escalated_at)

module _ {L : Type 0} (write : Event → L → Option L) where
  -- The transaction of `CancelByRemediation`, of a pending request.
  unfoldable pub cancel_tx :
      Request → String → String → ℕ → Database L → Result ApprovalError (Database L × Request)
  cancel_tx r actor reason now db =
      if not (count_where (is_awaiting_id r.remediation_id) db.remediations == 1)
      then err not_awaiting
      else do
        db' ←
            write_audits write (cancelled_events r actor reason)
              (cancelled_rows r actor reason now db)
        ok (db', set_decision RequestStatus.cancelled now actor reason "api" r)

  -- `CancelByRemediation`
  unfoldable pub cancel_by_remediation :
      String → String → String → ℕ → Database L → Database L × Result ApprovalError Request
  cancel_by_remediation remediation_id actor reason now db =
      elim (find_by_remediation remediation_id db.requests) [
        | none ↦ (db, err not_found)
        | some r ↦
            if not (is_pending r.status)
            then (db, err already_decided)
            else transact db (cancel_tx r actor reason now db)
      ]

  -- `MarkEscalated`
  unfoldable pub mark_escalated : Request → ℕ → Database L → Database L × Result ApprovalError Bool
  mark_escalated r now db =
      let updated : Database L = record db {
        requests =
            update_where (may_escalate r.id)
              (λ x. record x { escalated_at = some now; updated_at = now }) db.requests;
      } in
      if count_where (may_escalate r.id) db.requests == 0
      then (db, ok false)
      else transact db (do db' ← write_audit write (escalated_event r now) updated; ok (db', true))

  -- `expire`
  unfoldable pub expire : Request → ℕ → Database L → Database L × Result ApprovalError Bool
  expire r now db =
      if count_where (is_pending_id r.id) db.requests == 0
      then (db, ok false)
      else transact db (do db' ← expire_tx write r now db; ok (db', true))

  -- The loop of `ExpireDue`: an error ends it, what was expired before stays so.
  unfoldable pub expire_all :
      ℕ → List Request → Database L → Database L × List Request × Option ApprovalError
  expire_all now [] db = (db, [], none)
  expire_all now (r ∷ rs) db =
      let step = expire r now db in
      let rest = expire_all now rs step.0 in
      elim step.1 [
        | err e ↦ (step.0, [], some e)
        | ok true ↦ (rest.0, set_expired now r ∷ rest.1, rest.2)
        | ok false ↦ rest
      ]

  -- `ExpireDue`
  unfoldable pub expire_due : ℕ → ℕ → Database L → Database L × List Request × Option ApprovalError
  expire_due now limit db = expire_all now (due_expiries now limit db) db
