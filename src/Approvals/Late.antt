-- ===== src/Approvals/Late.antt =====
-- A decision that comes too late: `Decide` of internal/approvals/store.go.
use argus.Base.{ℕ, ◌≤◌, String, ◌≡◌, refl, true, false, Option, some, arith, str_eq_refl, ltb}
use argus.Base.Result.{ok, err}
use argus.Approvals.{
  RequestStatus, Request, Event, request_expired, Database, is_pending, find_request, update_where,
}
use argus.Approvals.Store.{
  is_pending_id, set_expired, write_audit, write_audits, expired_events, expired_rows, expire_tx,
  decide,
}
use argus.Approvals.Rows.{updated, find_request-update_where}
use argus.Approvals.Final.{HasStatus, write_audits-same}

module _ {L : Type 0} (write : Event → L → Option L)
    (audits : (e : Event) (l : L) → (l' : L) × (write e l ≡ some l')) where
  write_audit-goes :
      (e : Event) (db : Database L) → (db' : Database L) × (write_audit write e db ≡ ok db')
  unfolding write_audit
  write_audit-goes e db =
      let (ledger, kept) = audits e db.ledger in
      (record db { ledger = ledger }, rw (kept, write_audit) refl)

  expire_tx-goes :
      (r : Request) (now : ℕ) (db : Database L)
      → (db' : Database L) × (expire_tx write r now db ≡ ok db')
  unfolding expire_tx write_audits
  expire_tx-goes r now db =
      let (one, e) = write_audit-goes (expired_events r now).0 (expired_rows r now db) in
      let (two, e') = write_audit-goes (expired_events r now).1 one in (two, rw e e')

  own_row : (r : Request) → is_pending r.status ≡ true → is_pending_id r.id r ≡ true
  own_row r waits = ground (arith, str_eq_refl r.id)

  -- Too late is too late: while the ledger takes entries, a decision on a pending request at its
  -- expiry time or after returns the error of an expired request, whatever it says, and the request
  -- is then expired.
  pub decide-expired :
      (id actor actor_type decision reason source : String) (now : ℕ) (db : Database L)
      (r : Request)
      → find_request id db.requests ≡ some r
      → is_pending r.status ≡ true
      → r.expires_at ≤ now
      → ((decide write id actor actor_type decision reason source now db).1 ≡ err request_expired)
        × HasStatus id RequestStatus.expired
            (decide write id actor actor_type decision reason source now db).0.requests
  unfolding decide
  decide-expired id actor actor_type decision reason source now db r found waits late =
      let (db', gone) = expire_tx-goes r now db in
      let over : ltb now r.expires_at ≡ false = ground (arith, late) in
      let rows : db'.requests ≡ update_where (is_pending_id r.id) (set_expired now) db.requests =
        unfold expire_tx in
        (write_audits-same write (expired_events r now) (expired_rows r now db) db' gone).0 in
      let shown =
        find_request-update_where (is_pending_id r.id) (set_expired now) (λ x. refl) id db.requests
          r found in
      rw (found, waits, over, gone, decide)
        (
          refl,
          (
            updated (is_pending_id r.id) (set_expired now) r,
            rw rows shown,
            rw (own_row r waits) refl,
          ),
        )
