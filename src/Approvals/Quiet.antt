-- ===== src/Approvals/Quiet.antt =====
-- The operations of internal/approvals that approve no remediation: requests, cancellations,
-- escalations, expiries and decisions that fail.
use argus.Base.{
  ℕ, String, ◌≡◌, refl, ◌∙◌, true, false, Option, none, some, List, [], ◌∷◌, arith, str_eq,
  trim_space, ltb, ◌==◌, Bool-cases, Option-cases, inl, inr,
}
use argus.Base.Result.{Result, ok, err, Result-cases}
use argus.Remediation.States.{timed_out, cancelled}
use argus.Approvals.{
  Request, Event, ApprovalError, Database, is_pending, update_where, count_where, find_request,
  find_by_remediation, transact,
}
use argus.Approvals.Store.{
  is_awaiting_id, is_pending_id, create, write_audit, write_audits, expired_events, expired_rows,
  expire_tx, after_expiry, decide_tx, decide,
}
use argus.Approvals.Sweep.{
  mark_notification, may_escalate, mark_escalated, escalated_event, expire, expire_all, expire_due,
  cancelled_events, cancelled_rows, cancel_tx, cancel_by_remediation,
}
use argus.Approvals.Service.{
  Service, Proposal, new_request, notified, request_approval, cancel_request, escalate_all,
  process_due, decide_request, normalize_decision, validate_decision, validate_separation,
}
use argus.Approvals.Final.{write_audit-same, write_audits-same}
use argus.Approvals.Operations.{bound_ok}
use argus.Approvals.Approved.{Quiet, Quiet-refl, Quiet-same, Quiet-trans, Quiet-update_where}

module _ {L : Type 0} (write : Event → L → Option L) where
  transact-Quiet :
      {A : Type 0} (db : Database L) (t : Result ApprovalError (Database L × A))
      → ((db' : Database L) (a : A) → t ≡ ok (db', a) → Quiet db.remediations db'.remediations)
      → Quiet db.remediations (transact db t).0.remediations
  transact-Quiet db (ok (db', a)) f = f db' a refl
  transact-Quiet db (err e) f = Quiet-refl db.remediations

  create-remediations :
      (r : Request) (db : Database L) → (create write r db).0.remediations ≡ db.remediations
  unfolding create write_audit
  create-remediations r db = ground arith

  notified-remediations :
      (s : Service) (notification : Option String) (now : ℕ) (r : Request) (db : Database L)
      → (notified s notification now r db).0.remediations ≡ db.remediations
  unfolding notified mark_notification
  notified-remediations s none now r db = refl
  notified-remediations s (some message) now r db = refl

  -- `RequestApproval` leaves the table of remediations alone.
  pub request_approval-remediations :
      (s : Service) (id : String) (p : Proposal) (notification : Option String) (now : ℕ)
      (db : Database L)
      → (request_approval write s id p notification now db).0.remediations ≡ db.remediations
  unfolding request_approval
  request_approval-remediations s id p notification now db =
      let created = create write (new_request s id p now) db in
      let same = create-remediations (new_request s id p now) db in
      elim (Result-cases created.1) [
        | inr (bad, e) ↦ rw (e, request_approval) same
        | inl (stored, e) ↦ elim (Bool-cases (str_eq stored.id id)) [
          | inr other ↦ rw (e, other, request_approval) same
          | inl own ↦
              rw (e, own, request_approval)
                (notified-remediations s notification now stored created.0 ∙ same)
        ]
      ]

  pub request_approval-Quiet :
      (s : Service) (id : String) (p : Proposal) (notification : Option String) (now : ℕ)
      (db : Database L)
      → Quiet db.remediations (request_approval write s id p notification now db).0.remediations
  request_approval-Quiet s id p notification now db =
      Quiet-same db.remediations _ (request_approval-remediations s id p notification now db)

  expire_tx-Quiet :
      (r : Request) (now : ℕ) (db db' : Database L)
      → expire_tx write r now db ≡ ok db'
      → Quiet db.remediations db'.remediations
  unfolding expire_tx
  expire_tx-Quiet r now db db' h =
      let same = write_audits-same write (expired_events r now) (expired_rows r now db) db' h in
      rw same.1
        (Quiet-update_where (is_awaiting_id r.remediation_id) timed_out db.remediations (λ l. l))

  expire-Quiet :
      (r : Request) (now : ℕ) (db : Database L)
      → Quiet db.remediations (expire write r now db).0.remediations
  unfolding expire
  expire-Quiet r now db = elim (Bool-cases (count_where (is_pending_id r.id) db.requests == 0)) [
    | inl nothing ↦ rw (nothing, expire) (Quiet-refl db.remediations)
    | inr something ↦
        rw (something, expire)
          (transact-Quiet db _
            (λ db' b h. expire_tx-Quiet r now db db' (bound_ok write _ true b db' h)))
  ]

  expire_all-Quiet :
      (now : ℕ) (rs : List Request) (db : Database L)
      → Quiet db.remediations (expire_all write now rs db).0.remediations
  unfolding expire_all
  expire_all-Quiet now [] db = Quiet-refl db.remediations
  expire_all-Quiet now (r ∷ rs) db =
      let one = expire-Quiet r now db in
      let rest = expire_all-Quiet now rs (expire write r now db).0 in
      let all = Quiet-trans db.remediations (expire write r now db).0.remediations _ one rest in
      elim (Result-cases (expire write r now db).1) [
        | inr (bad, e) ↦ rw (e, expire_all) one
        | inl (true, e) ↦ rw (e, expire_all) all
        | inl (false, e) ↦ rw (e, expire_all) all
      ]

  mark_escalated-Quiet :
      (r : Request) (now : ℕ) (db : Database L)
      → Quiet db.remediations (mark_escalated write r now db).0.remediations
  unfolding mark_escalated
  mark_escalated-Quiet r now db =
      elim (Bool-cases (count_where (may_escalate r.id) db.requests == 0)) [
        | inl nothing ↦ rw (nothing, mark_escalated) (Quiet-refl db.remediations)
        | inr something ↦
            rw (something, mark_escalated)
              (transact-Quiet db _ (λ db' b h.
                Quiet-same db.remediations db'.remediations
                  (write_audit-same write (escalated_event r now) rows db' (
                    bound_ok write (write_audit write (escalated_event r now) rows) true b db'
                      h)).1))
      ]
    where
      rows : Database L
      rows = record db {
        requests =
            update_where (may_escalate r.id)
              (λ x. record x { escalated_at = some now; updated_at = now }) db.requests;
      }

  escalate_all-Quiet :
      (notify : Request → Option String) (now : ℕ) (rs : List Request) (db : Database L)
      → Quiet db.remediations (escalate_all write notify now rs db).remediations
  unfolding escalate_all mark_notification
  escalate_all-Quiet notify now [] db = Quiet-refl db.remediations
  escalate_all-Quiet notify now (r ∷ rs) db = elim (Option-cases (notify r)) [
    | inr (message, e) ↦
        rw (e, escalate_all)
          (escalate_all-Quiet notify now rs
            (mark_notification r.id "escalation_failed" message now db))
    | inl e ↦
        rw (e, escalate_all)
          (Quiet-trans db.remediations (mark_escalated write r now db).0.remediations _
            (mark_escalated-Quiet r now db)
            (escalate_all-Quiet notify now rs (mark_escalated write r now db).0))
  ]

  pub process_due-Quiet :
      (notify : Request → Option String) (now : ℕ) (db : Database L)
      → Quiet db.remediations (process_due write notify now db).remediations
  unfolding process_due expire_due
  process_due-Quiet notify now db =
      Quiet-trans db.remediations (expire_due write now 100 db).0.remediations _
        (expire_all-Quiet now _ db) (escalate_all-Quiet notify now _ _)

  cancel_tx-Quiet :
      (r : Request) (actor reason : String) (now : ℕ) (db db' : Database L) (r' : Request)
      → cancel_tx write r actor reason now db ≡ ok (db', r')
      → Quiet db.remediations db'.remediations
  unfolding cancel_tx
  cancel_tx-Quiet r actor reason now db db' r' h =
      let rows = cancelled_rows r actor reason now db in
      let events = cancelled_events r actor reason in
      elim (Result-cases (write_audits write events rows)) [
        | inr (bad, e) ↦ absurd (ground arith)
        | inl (d, e) ↦
            let same_d : d ≡ db' = ground arith in
            let same = write_audits-same write events rows d e in
            rw (← same_d, same.1)
              (Quiet-update_where (is_awaiting_id r.remediation_id) cancelled db.remediations
                (λ l. l))
      ]

  cancel-Quiet :
      (remediation_id actor reason : String) (now : ℕ) (db : Database L)
      → Quiet db.remediations
          (cancel_by_remediation write remediation_id actor reason now db).0.remediations
  unfolding cancel_by_remediation
  cancel-Quiet remediation_id actor reason now db =
      elim (Option-cases (find_by_remediation remediation_id db.requests)) [
        | inl absent ↦ rw (absent, cancel_by_remediation) (Quiet-refl db.remediations)
        | inr (r, found) ↦ elim (Bool-cases (is_pending r.status)) [
          | inr done ↦ rw (found, done, cancel_by_remediation) (Quiet-refl db.remediations)
          | inl waits ↦
              rw (found, waits, cancel_by_remediation)
                (transact-Quiet db _ (λ db' r'. cancel_tx-Quiet r actor reason now db db' r'))
        ]
      ]

  pub cancel_request-Quiet :
      (remediation_id actor reason : String) (now : ℕ) (db : Database L)
      → Quiet db.remediations
          (cancel_request write remediation_id actor reason now db).0.remediations
  unfolding cancel_request
  cancel_request-Quiet remediation_id actor reason now db =
      elim (Bool-cases (str_eq (trim_space actor) "")) [
        | inl unnamed ↦ rw (unnamed, cancel_request) (Quiet-refl db.remediations)
        | inr named ↦
            rw (named, cancel_request)
              (cancel-Quiet remediation_id actor (trim_space reason) now db)
      ]

  after_expiry-Quiet :
      (r : Request) (now : ℕ) (db : Database L)
      → Quiet db.remediations (after_expiry db (expire_tx write r now db)).0.remediations
  after_expiry-Quiet r now db = elim (Result-cases (expire_tx write r now db)) [
    | inl (db', e) ↦ rw e (expire_tx-Quiet r now db db' e)
    | inr (bad, e) ↦ rw e (Quiet-refl db.remediations)
  ]

  transact-err :
      {A : Type 0} (db : Database L) (t : Result ApprovalError (Database L × A)) (e : ApprovalError)
      → (transact db t).1 ≡ err e
      → Quiet db.remediations (transact db t).0.remediations
  transact-err db (ok (d, a)) e h = cc
  transact-err db (err f) e h = Quiet-refl db.remediations

  decide-Quiet :
      (id actor actor_type decision reason source : String) (now : ℕ) (db : Database L)
      (e : ApprovalError)
      → (decide write id actor actor_type decision reason source now db).1 ≡ err e
      → Quiet db.remediations
          (decide write id actor actor_type decision reason source now db).0.remediations
  unfolding decide
  decide-Quiet id actor actor_type decision reason source now db e h =
      elim (Option-cases (find_request id db.requests)) [
        | inl absent ↦ rw (absent, decide) (Quiet-refl db.remediations)
        | inr (r, found) ↦ elim (Bool-cases (is_pending r.status)) [
          | inr done ↦ rw (found, done, decide) (Quiet-refl db.remediations)
          | inl waits ↦ elim (Bool-cases (ltb now r.expires_at)) [
            | inr late ↦ rw (found, waits, late, decide) (after_expiry-Quiet r now db)
            | inl in_time ↦
                rw (found, waits, in_time, decide)
                  (transact-err db
                    (decide_tx write r actor actor_type decision reason source now db) e
                    (rw (found, waits, in_time, decide) at h))
          ]
        ]
      ]

  -- A decision that fails approves nothing.
  pub decide_request-Quiet :
      (s : Service) (id actor actor_type text reason source : String) (now : ℕ) (db : Database L)
      (e : ApprovalError)
      → (decide_request write s id actor actor_type text reason source now db).1 ≡ err e
      → Quiet db.remediations
          (decide_request write s id actor actor_type text reason source now db).0.remediations
  unfolding decide_request
  decide_request-Quiet s id actor actor_type text reason source now db e h =
      let decision = normalize_decision text in
      elim (Option-cases (validate_decision decision (trim_space reason) actor)) [
        | inr (refusal, bad) ↦ rw (bad, decide_request) (Quiet-refl db.remediations)
        | inl valid ↦ elim (Option-cases (find_request id db.requests)) [
          | inl absent ↦ rw (valid, absent, decide_request) (Quiet-refl db.remediations)
          | inr (r, found) ↦
              elim (Option-cases (validate_separation r.requested_by actor s.allow_self)) [
                | inr (refusal, own) ↦
                    rw (valid, found, own, decide_request) (Quiet-refl db.remediations)
                | inl apart ↦
                    rw (valid, found, apart, decide_request)
                      (decide-Quiet id actor actor_type decision (trim_space reason) source now db e
                        (rw (valid, found, apart, decide_request) at h))
              ]
        ]
      ]
