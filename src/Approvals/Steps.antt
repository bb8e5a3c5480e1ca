-- ===== src/Approvals/Steps.antt =====
-- Sequences of operations of internal/approvals/service.go.
use argus.Base.{
  ℕ, String, Option, none, some, List, [], ◌∷◌, str_eq, trim_space, Bool-cases, Option-cases, inl,
  inr,
}
use argus.Base.Result.{Result, err, Result-cases}
use argus.Approvals.{Request, Event, ApprovalError, Database, find_request, find_by_remediation}
use argus.Approvals.Store.{create, decide}
use argus.Approvals.Sweep.{mark_notification, mark_escalated, due_expiries, expire_due}
use argus.Approvals.Service.{
  Service, Proposal, new_request, normalize_decision, validate_separation, notified,
  request_approval, decide_request, decide_by_remediation, cancel_request, escalate_all,
  process_due, or_refuse,
}
use argus.Approvals.Rows.{Keyed}
use argus.Approvals.Final.{Follows, Follows-refl, Follows-trans}
use argus.Approvals.Operations.{decide-Follows, cancel-Follows, create-Follows}
use argus.Approvals.Sweeping.{mark_notification-Follows, mark_escalated-Follows, expire_all-Follows}

-- One operation of the service, from a database to the next.
pub data Step {L : Type 0} (write : Event → L → Option L) (db : Database L)
    : Database L → Type 0 where
  requested :
      (s : Service) (id : String) (p : Proposal) (notification : Option String) (now : ℕ)
      → Step write db (request_approval write s id p notification now db).0
  decided :
      (s : Service) (id actor actor_type decision reason source : String) (now : ℕ)
      → Step write db (decide_request write s id actor actor_type decision reason source now db).0
  decided_by_remediation :
      (s : Service) (remediation_id actor actor_type decision reason : String) (now : ℕ)
      → Step write db
          (decide_by_remediation write s remediation_id actor actor_type decision reason now db).0
  cancelled :
      (remediation_id actor reason : String) (now : ℕ)
      → Step write db (cancel_request write remediation_id actor reason now db).0
  swept :
      (notify : Request → Option String) (now : ℕ) → Step write db (process_due write notify now db)

-- Any number of operations, in any order.
pub data Run {L : Type 0} (write : Event → L → Option L) (db : Database L)
    : Database L → Type 0 where
  stay : Run write db db
  then_step : {b c : Database L} → Run write db b → Step write b c → Run write db c

module _ {L : Type 0} (write : Event → L → Option L) where
  or_refuse-Follows :
      (db : Database L) (refusal : Option ApprovalError)
      (next : Database L × Result ApprovalError Request)
      → Keyed db.requests
      → Follows db next.0
      → Follows db (or_refuse db refusal next).0
  or_refuse-Follows db none next k f = f
  or_refuse-Follows db (some e) next k f = Follows-refl db k

  decide_request-Follows :
      (s : Service) (id actor actor_type decision reason source : String) (now : ℕ)
      (db : Database L)
      → Keyed db.requests
      → Follows db (decide_request write s id actor actor_type decision reason source now db).0
  unfolding decide_request
  decide_request-Follows s id actor actor_type decision reason source now db k =
      or_refuse-Follows db _ _ k (found_or_not)
    where
      found_or_not :
          Follows db
            (elim (find_request id db.requests)
              as (λ x. Database L × Result ApprovalError Request) [
                | none ↦ (db, err ApprovalError.not_found)
                | some r ↦ or_refuse db (validate_separation r.requested_by actor s.allow_self) (
                    decide write id actor actor_type
                      (normalize_decision decision)
                      (trim_space reason)
                      source
                      now
                      db)
              ]).0
      found_or_not = elim (Option-cases (find_request id db.requests)) [
        | inl absent ↦ rw absent (Follows-refl db k)
        | inr (r, found) ↦ rw found (
            or_refuse-Follows db _ _ k (
              decide-Follows write id actor actor_type (normalize_decision decision)
                (trim_space reason) source now db k))
      ]

  decide_by_remediation-Follows :
      (s : Service) (remediation_id actor actor_type decision reason : String) (now : ℕ)
      (db : Database L)
      → Keyed db.requests
      → Follows db
          (decide_by_remediation write s remediation_id actor actor_type decision reason now db).0
  unfolding decide_by_remediation
  decide_by_remediation-Follows s remediation_id actor actor_type decision reason now db k =
      elim (Option-cases (find_by_remediation remediation_id db.requests)) [
        | inl absent ↦ rw (absent, decide_by_remediation) (Follows-refl db k)
        | inr (r, found) ↦
            rw (found, decide_by_remediation)
              (decide_request-Follows s r.id actor actor_type decision reason "api" now db k)
      ]

  cancel_request-Follows :
      (remediation_id actor reason : String) (now : ℕ) (db : Database L)
      → Keyed db.requests
      → Follows db (cancel_request write remediation_id actor reason now db).0
  unfolding cancel_request
  cancel_request-Follows remediation_id actor reason now db k =
      elim (Bool-cases (str_eq (trim_space actor) "")) [
        | inl unnamed ↦ rw (unnamed, cancel_request) (Follows-refl db k)
        | inr named ↦
            rw (named, cancel_request)
              (cancel-Follows write remediation_id actor (trim_space reason) now db k)
      ]

  notified-Follows :
      (s : Service) (notification : Option String) (now : ℕ) (r : Request) (db : Database L)
      → Keyed db.requests
      → Follows db (notified s notification now r db).0
  unfolding notified
  notified-Follows s (some message) now r db k =
      mark_notification-Follows write r.id "failed" message now db k
  notified-Follows s none now r db k = mark_notification-Follows write r.id _ "" now db k

  pub request_approval-Follows :
      (s : Service) (id : String) (p : Proposal) (notification : Option String) (now : ℕ)
      (db : Database L)
      → Keyed db.requests
      → Follows db (request_approval write s id p notification now db).0
  unfolding request_approval
  request_approval-Follows s id p notification now db k =
      let created = create write (new_request s id p now) db in
      let one = create-Follows write (new_request s id p now) db k in
      elim (Result-cases created.1) [
        | inr (bad, e) ↦ rw (e, request_approval) one
        | inl (stored, e) ↦ elim (Bool-cases (str_eq stored.id id)) [
          | inr other ↦ rw (e, other, request_approval) one
          | inl own ↦
              rw (e, own, request_approval)
                (Follows-trans db created.0 _ one
                  (notified-Follows s notification now stored created.0 one.keyed))
        ]
      ]

  escalate_all-Follows :
      (notify : Request → Option String) (now : ℕ) (rs : List Request) (db : Database L)
      → Keyed db.requests
      → Follows db (escalate_all write notify now rs db)
  unfolding escalate_all
  escalate_all-Follows notify now [] db k = Follows-refl db k
  escalate_all-Follows notify now (r ∷ rs) db k = elim (Option-cases (notify r)) [
    | inr (message, e) ↦
        let one = mark_notification-Follows write r.id "escalation_failed" message now db k in
        rw (e, escalate_all)
          (Follows-trans db _ _ one (
            escalate_all-Follows notify now rs
              (mark_notification r.id "escalation_failed" message now db) one.keyed))
    | inl e ↦
        let one = mark_escalated-Follows write r now db k in
        rw (e, escalate_all)
          (Follows-trans db _ _ one
            (escalate_all-Follows notify now rs (mark_escalated write r now db).0 one.keyed))
  ]

  process_due-Follows :
      (notify : Request → Option String) (now : ℕ) (db : Database L)
      → Keyed db.requests
      → Follows db (process_due write notify now db)
  unfolding process_due expire_due
  process_due-Follows notify now db k =
      let one = expire_all-Follows write now (due_expiries now 100 db) db k in
      Follows-trans db _ _ one (escalate_all-Follows notify now _ _ one.keyed)

  pub Step-Follows : (db db' : Database L) → Keyed db.requests → Step write db db' → Follows db db'
  Step-Follows db _ k (requested s id p notification now) =
      request_approval-Follows s id p notification now db k
  Step-Follows db _ k (decided s id actor actor_type decision reason source now) =
      decide_request-Follows s id actor actor_type decision reason source now db k
  Step-Follows db _ k
        (decided_by_remediation s remediation_id actor actor_type decision reason now) =
      decide_by_remediation-Follows s remediation_id actor actor_type decision reason now db k
  Step-Follows db _ k (cancelled remediation_id actor reason now) =
      cancel_request-Follows remediation_id actor reason now db k
  Step-Follows db _ k (swept notify now) = process_due-Follows notify now db k

  -- Decisions are final: whatever operations run in whatever order on a database with unique
  -- request identifiers, the identifiers stay unique, a request that is approved, denied, expired or
  -- cancelled keeps that status, and every remediation moves along allowed transitions only.
  pub Run-Follows : (db db' : Database L) → Keyed db.requests → Run write db db' → Follows db db'
  Run-Follows db _ k stay = Follows-refl db k
  Run-Follows db _ k (then_step {b = b} {c = c} run one) =
      let before = Run-Follows db b k run in
      Follows-trans db b c before (Step-Follows b c before.keyed one)
