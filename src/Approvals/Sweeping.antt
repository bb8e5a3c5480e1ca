-- ===== src/Approvals/Sweeping.antt =====
-- The sweep of internal/approvals/store.go takes back no decision.
use argus.Base.{
  ℕ, String, ◌≡◌, refl, true, false, Option, some, List, [], ◌∷◌, arith, ◌==◌, Bool-cases, inl, inr,
}
use argus.Base.Result.{ok, Result-cases}
use argus.Approvals.{Request, Event, Database, update_where, count_where}
use argus.Approvals.Store.{has_id, is_pending_id, write_audit}
use argus.Approvals.Sweep.{
  mark_notification, may_escalate, mark_escalated, expire, expire_all, escalated_event,
}
use argus.Approvals.Rows.{Keyed, Moved-refl}
use argus.Approvals.Final.{
  Follows, Follows-refl, Follows-trans, updated_rows, write_audit-same, expire_tx-Follows,
}
use argus.Approvals.Operations.{transact-Follows, bound_ok}

module _ {L : Type 0} (write : Event → L → Option L) where
  pub mark_notification-Follows :
      (id status message : String) (now : ℕ) (db : Database L)
      → Keyed db.requests
      → Follows db (mark_notification id status message now db)
  unfolding mark_notification
  mark_notification-Follows id status message now db k =
      updated_rows db _ (has_id id) _ k (λ x. refl) (λ i r h w. ground arith) refl
        (Moved-refl db.remediations)

  pub mark_escalated-Follows :
      (r : Request) (now : ℕ) (db : Database L)
      → Keyed db.requests
      → Follows db (mark_escalated write r now db).0
  unfolding mark_escalated
  mark_escalated-Follows r now db k =
      elim (Bool-cases (count_where (may_escalate r.id) db.requests == 0)) [
        | inl nothing ↦ rw (nothing, mark_escalated) (Follows-refl db k)
        | inr something ↦
            rw (something, mark_escalated)
              (transact-Follows write db _ k
                (λ db' b h. escalated db' (bound_ok write _ true b db' h)))
      ]
    where
      rows : Database L
      rows = record db {
        requests =
            update_where (may_escalate r.id)
              (λ x. record x { escalated_at = some now; updated_at = now }) db.requests;
      }

      escalated :
          (db' : Database L)
          → write_audit write (escalated_event r now) rows ≡ ok db'
          → Follows db db'
      escalated db' h =
          let same = write_audit-same write (escalated_event r now) rows db' h in
          updated_rows db db' (may_escalate r.id) _ k (λ x. refl) (λ i x f w. ground arith) same.0
            (rw same.1 (Moved-refl db.remediations))

  pub expire-Follows :
      (r : Request) (now : ℕ) (db : Database L)
      → Keyed db.requests
      → Follows db (expire write r now db).0
  unfolding expire
  expire-Follows r now db k =
      elim (Bool-cases (count_where (is_pending_id r.id) db.requests == 0)) [
        | inl nothing ↦ rw (nothing, expire) (Follows-refl db k)
        | inr something ↦
            rw (something, expire)
              (transact-Follows write db _ k
                (λ db' b h. expire_tx-Follows write r now db db' k (bound_ok write _ true b db' h)))
      ]

  pub expire_all-Follows :
      (now : ℕ) (rs : List Request) (db : Database L)
      → Keyed db.requests
      → Follows db (expire_all write now rs db).0
  unfolding expire_all
  expire_all-Follows now [] db k = Follows-refl db k
  expire_all-Follows now (r ∷ rs) db k =
      let one = expire-Follows r now db k in
      let rest = expire_all-Follows now rs (expire write r now db).0 one.keyed in
      let all = Follows-trans db (expire write r now db).0 _ one rest in
      elim (Result-cases (expire write r now db).1) [
        | inr (bad, e) ↦ rw (e, expire_all) one
        | inl (true, e) ↦ rw (e, expire_all) all
        | inl (false, e) ↦ rw (e, expire_all) all
      ]
