-- ===== src/Approvals/Operations.antt =====
-- Each operation of internal/approvals/store.go takes back no decision.
use argus.Base.{
  ℕ, String, ◌≡◌, refl, true, false, Option, none, some, [], ◌∷◌, ◌++◌, arith, ltb, Bool-cases,
  Option-cases, inl, inr,
}
use argus.Base.Result.{Result, ok, err, ◌>>=◌, Result-cases}
use argus.Remediation.States.{awaiting_approval, cancelled, require_transition, can_transition}
use argus.Approvals.{
  RequestStatus, Request, Event, ApprovalError, Database, is_pending, find_request,
  find_by_remediation, transact,
}
use argus.Approvals.Store.{
  has_id, set_decision, set_state, set_verdict, has_key, write_audit, write_audits, decided_rows,
  approver, create, expire_tx, verdict, decide_tx, decide, requested_event, decided_events,
  after_expiry,
}
use argus.Approvals.Sweep.{cancelled_rows, cancel_tx, cancel_by_remediation, cancelled_events}
use argus.Approvals.Rows.{
  Keyed, Moved-refl, Moved-update_where, Keyed-append, find_request-append, find_request-id,
  find_by_remediation-find_request,
}
use argus.Approvals.Final.{
  Follows, Follows-refl, Harmless-has_id, updated_rows, write_audit-same, write_audits-same,
  expire_tx-Follows,
}

to_verdict :
    (decision : String)
    → {L : Type 0} (write : Event → L → Option L)
    → require_transition awaiting_approval (verdict decision).1 ≡ none
unfolding verdict require_transition can_transition
to_verdict decision write = ground arith

to_cancelled : require_transition awaiting_approval cancelled ≡ none
unfolding require_transition can_transition
to_cancelled = refl

module _ {L : Type 0} (write : Event → L → Option L) where
  -- A transaction leads on from the database if it does when it succeeds.
  pub transact-Follows :
      {A : Type 0} (db : Database L) (t : Result ApprovalError (Database L × A))
      → Keyed db.requests
      → ((db' : Database L) (a : A) → t ≡ ok (db', a) → Follows db db')
      → Follows db (transact db t).0
  transact-Follows db (ok (db', a)) k f = f db' a refl
  transact-Follows db (err e) k f = Follows-refl db k

  pub bound_ok :
      {A : Type 0} (t : Result ApprovalError (Database L)) (a a' : A) (db' : Database L)
      → ◌>>=◌ {B = Database L × A} t (λ (d : Database L). ok (d, a)) ≡ ok (db', a')
      → t ≡ ok db'
  bound_ok (ok d) a a' db' h = cc
  bound_ok (err e) a a' db' h = cc

  decide_tx-Follows :
      (r : Request) (actor actor_type decision reason source : String) (now : ℕ)
      (db db' : Database L) (r' : Request)
      → Keyed db.requests
      → find_request r.id db.requests ≡ some r
      → is_pending r.status ≡ true
      → decide_tx write r actor actor_type decision reason source now db ≡ ok (db', r')
      → Follows db db'
  unfolding decide_tx
  decide_tx-Follows r actor actor_type decision reason source now db db' r' k found waits h =
      let rows = decided_rows r actor decision reason source now db in
      let events = decided_events r actor actor_type decision reason source in
      elim (Result-cases (write_audits write events rows)) [
        | inr (bad, e) ↦ absurd (ground arith)
        | inl (d, e) ↦
            let same_d : d ≡ db' = ground arith in
            let same = write_audits-same write events rows d e in
            rw (← same_d) (
              updated_rows db d (has_id r.id)
                (set_decision (verdict decision).0 now actor reason source) k (λ x. refl)
                (Harmless-has_id db.requests r _ found waits) same.0
                (rw same.1 (
                  Moved-update_where r.remediation_id
                    (set_verdict (verdict decision).1 (approver decision actor))
                    (verdict decision).1 db.remediations (λ a. (refl, refl))
                    (to_verdict decision write))))
      ]

  pub decide-Follows :
      (id actor actor_type decision reason source : String) (now : ℕ) (db : Database L)
      → Keyed db.requests
      → Follows db (decide write id actor actor_type decision reason source now db).0
  unfolding decide
  decide-Follows id actor actor_type decision reason source now db k =
      elim (Option-cases (find_request id db.requests)) [
        | inl absent ↦ rw (absent, decide) (Follows-refl db k)
        | inr (r, found) ↦
            let own = rw (← find_request-id id db.requests r found) at found in
            elim (Bool-cases (is_pending r.status)) [
              | inr done ↦ rw (found, done, decide) (Follows-refl db k)
              | inl waits ↦ elim (Bool-cases (ltb now r.expires_at)) [
                | inl in_time ↦
                    rw (found, waits, in_time, decide)
                      (transact-Follows db _ k (λ db' r'.
                        decide_tx-Follows r actor actor_type decision reason source now db db' r' k
                          own waits))
                | inr late ↦ rw (found, waits, late, decide) (expired_first r)
              ]
            ]
      ]
    where
      expired_first : (r : Request) → Follows db (after_expiry db (expire_tx write r now db)).0
      expired_first r = elim (Result-cases (expire_tx write r now db)) [
        | inl (db', e) ↦ rw e (expire_tx-Follows write r now db db' k e)
        | inr (bad, e) ↦ rw e (Follows-refl db k)
      ]

  cancel_tx-Follows :
      (r : Request) (actor reason : String) (now : ℕ) (db db' : Database L) (r' : Request)
      → Keyed db.requests
      → find_request r.id db.requests ≡ some r
      → is_pending r.status ≡ true
      → cancel_tx write r actor reason now db ≡ ok (db', r')
      → Follows db db'
  unfolding cancel_tx
  cancel_tx-Follows r actor reason now db db' r' k found waits h =
      let rows = cancelled_rows r actor reason now db in
      let events = cancelled_events r actor reason in
      elim (Result-cases (write_audits write events rows)) [
        | inr (bad, e) ↦ absurd (ground arith)
        | inl (d, e) ↦
            let same_d : d ≡ db' = ground arith in
            let same = write_audits-same write events rows d e in
            rw (← same_d) (
              updated_rows db d (has_id r.id)
                (set_decision RequestStatus.cancelled now actor reason "api") k (λ x. refl)
                (Harmless-has_id db.requests r _ found waits) same.0
                (rw same.1 (
                  Moved-update_where r.remediation_id (set_state cancelled) cancelled
                    db.remediations (λ a. (refl, refl)) to_cancelled)))
      ]

  pub cancel-Follows :
      (remediation_id actor reason : String) (now : ℕ) (db : Database L)
      → Keyed db.requests
      → Follows db (cancel_by_remediation write remediation_id actor reason now db).0
  unfolding cancel_by_remediation
  cancel-Follows remediation_id actor reason now db k =
      elim (Option-cases (find_by_remediation remediation_id db.requests)) [
        | inl absent ↦ rw (absent, cancel_by_remediation) (Follows-refl db k)
        | inr (r, found) ↦ elim (Bool-cases (is_pending r.status)) [
          | inr done ↦ rw (found, done, cancel_by_remediation) (Follows-refl db k)
          | inl waits ↦
              rw (found, waits, cancel_by_remediation)
                (transact-Follows db _ k (λ db' r'.
                  cancel_tx-Follows r actor reason now db db' r' k
                    (find_by_remediation-find_request remediation_id db.requests r k found) waits))
        ]
      ]

  pub create-Follows :
      (request : Request) (db : Database L)
      → Keyed db.requests
      → Follows db (create write request db).0
  unfolding create
  create-Follows request db k =
      elim (Option-cases (find_by_remediation request.remediation_id db.requests)) [
        | inr (r, found) ↦ rw (found, create) (Follows-refl db k)
        | inl absent ↦ elim (Bool-cases (has_key request.id db.requests)) [
          | inl taken ↦ rw (absent, taken, create) (Follows-refl db k)
          | inr fresh ↦ rw (absent, fresh, create) (inserted fresh)
        ]
      ]
    where
      inserted :
          has_key request.id db.requests ≡ false
          → Follows db
              (transact db (
                write_audit write
                  (requested_event request)
                  (record db { requests = db.requests ++ request ∷ [] })
                >>= λ (d : Database L). ok (d, request))).0
      inserted fresh =
          let rows : Database L = record db { requests = db.requests ++ request ∷ [] } in
          elim (Result-cases (write_audit write (requested_event request) rows)) [
            | inr (bad, e) ↦ rw e (Follows-refl db k)
            | inl (d, e) ↦
                let same = write_audit-same write (requested_event request) rows d e in
                rw e (record {
                  keyed = rw same.0 (Keyed-append db.requests request k fresh);
                  final = λ id r h w.
                      (r, rw same.0 (find_request-append id db.requests request r h), refl);
                  moved = rw same.1 (Moved-refl db.remediations);
                })
          ]
