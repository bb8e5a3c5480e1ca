-- ===== src/Jobs/Publishing.antt =====
-- The outbox keeps what every operation keeps: `publish`, `redispatchTx` and `Reconcile` of
-- internal/remediation/dispatch.go.
use argus.Base.{
  ℕ, ◌+◌, String, ◌≡◌, refl, Bool, true, false, Option, some, List, [], ◌∷◌, ◌++◌, arith, Dict, leb,
  Bool-cases, Option-cases, inl, inr,
}
use argus.Base.Result.{Result, ok, err, or_err, Result-cases, bind-ok}
use argus.Actions.{text}
use argus.Approvals.{Event, Detail, number, word}
use argus.Remediation.States.{timed_out, require_transition}
use argus.Jobs.{Action, Reason, redispatch, Message, World, JobError, not_found}
use argus.Jobs.Store.{find_action, complete_remediation}
use argus.Jobs.Outbox.{
  Pending, dispatchable, set_skipped, set_retried, set_published, on_dispatches, publish_batch,
  publish_due, due_batch, redispatch_tx, write_entry, redispatch_now, state_name,
}
use argus.Jobs.Reconcile.{
  Config, Stuck, Outcome, nothing_done, exhaust, resend, settle_one, settle_stuck, find_stuck,
  reconcile_tx, publish_resent, reconcile, require_applied, exhausted_reason, exhausted_event,
}
use argus.Jobs.Follows.{
  Follows, Follows-refl, Follows-trans, on_dispatches-Follows, insert-Follows, complete-Follows,
  write_entry-Follows, stream-Follows,
}

module _ {L Q : Type 0} (publish : Message → Q → Q × Option String) where
  pub publish_batch-Follows :
      (now : ℕ) (batch : List Pending) (w : World L Q)
      → Follows w (publish_batch publish now batch w).0
  unfolding publish_batch
  publish_batch-Follows now [] w = Follows-refl w
  publish_batch-Follows now ((d, status) ∷ rest) w =
      let w' : World L Q = record w { stream = (publish d.event w.stream).0 } in
      let sent = stream-Follows (publish d.event w.stream).0 w in
      elim (Bool-cases (dispatchable status)) [
        | inr no' ↦
            rw (no', publish_batch)
              (Follows-trans (on_dispatches-Follows d.id (set_skipped status) w (λ x. refl))
                (publish_batch-Follows now rest (on_dispatches d.id (set_skipped status) w)))
        | inl yes' ↦ elim (Option-cases (publish d.event w.stream).1) [
          | inr (error, e) ↦
              rw (yes', e, publish_batch)
                (Follows-trans sent (
                  on_dispatches-Follows d.id (set_retried (d.attempts + 1) error now) w'
                    (unfold set_retried in λ x. refl)))
          | inl e ↦
              rw (yes', e, publish_batch)
                (Follows-trans sent (
                  Follows-trans (on_dispatches-Follows d.id (set_published now) w' (λ x. refl))
                    (publish_batch-Follows now rest (on_dispatches d.id (set_published now) w'))))
        ]
      ]

  pub publish_due-Follows :
      (only_id : String) (batch_size now : ℕ) (w : World L Q)
      → Follows w (publish_due publish only_id batch_size now w).0
  unfolding publish_due
  publish_due-Follows only_id batch_size now w =
      publish_batch-Follows now (due_batch only_id batch_size now w) w

module _ {L Q : Type 0} (write : Event → L → Option L) where
  pub redispatch_tx-Follows :
      (fresh id : String) (reason : Reason) (actor actor_type : String) (metadata : Dict Detail)
      (now : ℕ) (w : World L Q) (r : World L Q × String)
      → redispatch_tx write fresh id reason actor actor_type metadata now w ≡ ok r
      → Follows w r.0
  unfolding redispatch_tx
  redispatch_tx-Follows fresh id reason actor actor_type metadata now w r h =
      let (a, found, h1) = bind-ok (or_err not_found (find_action id w.actions)) _ h in
      elim (Bool-cases (dispatchable a.status)) [
        | inr no' ↦ absurd (cc (rw no' at h1))
        | inl yes' ↦
            let h2 = rw yes' at h1 in
            let (rows, inserted, h3) = bind-ok _ _ h2 in
            let (w', written, h4) = bind-ok _ _ h3 in
            let shape : w' ≡ r.0 = ground arith in
            rw (← shape) (
              Follows-trans (insert-Follows w a _ reason now rows inserted)
                (write_entry-Follows write _ (record w { dispatches = rows }) w' written))
      ]

  pub redispatch_now-Follows :
      (publish : Message → Q → Q × Option String) (fresh id : String) (reason : Reason)
      (actor actor_type : String) (metadata : Dict Detail) (batch_size now : ℕ) (w : World L Q)
      → Follows w
          (redispatch_now publish write fresh id reason actor actor_type metadata batch_size now
            w).0
  unfolding redispatch_now
  redispatch_now-Follows publish fresh id reason actor actor_type metadata batch_size now w =
      elim (Result-cases (redispatch_tx write fresh id reason actor actor_type metadata now w)) [
        | inr (e, failed) ↦ rw (failed, redispatch_now) (Follows-refl w)
        | inl ((w', dispatch_id), sent) ↦
            rw (sent, redispatch_now)
              (Follows-trans
                (redispatch_tx-Follows fresh id reason actor actor_type metadata now w
                  (w', dispatch_id) sent)
                (publish_due-Follows publish dispatch_id batch_size now w'))
      ]

require_applied-ok :
    (p : List Action × Bool) (rows : List Action) → require_applied p ≡ ok rows → p.0 ≡ rows
require_applied-ok (rows', true) rows h = ground arith
require_applied-ok (rows', false) rows h = cc

module _ {L Q : Type 0} (write : Event → L → Option L) (fresh : String → String) (c : Config)
    (now : ℕ) where
  exhaust-Follows :
      (s : Stuck) (w w' : World L Q) → exhaust write fresh c now s w ≡ ok w' → Follows w w'
  unfolding exhaust
  exhaust-Follows s w w' h =
      let reason = exhausted_reason s.redispatches in
      let result = some (("reason", text reason) ∷ []) in
      let completed = complete_remediation s.id timed_out result reason now w.actions in
      let (rows, applied, h1) =
        bind-ok (require_applied completed)
          (λ rows. write_entry write (exhausted_event s) (record w { actions = rows })) h in
      Follows-trans
        (rw (← require_applied-ok completed rows applied) (
          complete-Follows s.id timed_out result reason now w
            (unfold require_transition in (refl, refl)) refl))
        (write_entry-Follows write (exhausted_event s) (record w { actions = rows }) w' h1)

  resend-Follows :
      (s : Stuck) (w : World L Q) (r : World L Q × String)
      → resend write fresh c now s w ≡ ok r
      → Follows w r.0
  unfolding resend
  resend-Follows s w r h =
      redispatch_tx-Follows write (fresh s.id) s.id redispatch "" "system"
        (("redispatch", number (s.redispatches + 1))
          ∷ ("max_redispatches", number c.max_redispatches)
          ∷ ("stuck_in", word (state_name s.status))
          ∷ [])
        now w r h

  settle_one-Follows :
      (s : Stuck) (p r : World L Q × Outcome)
      → settle_one write fresh c now s p ≡ ok r
      → Follows p.0 r.0
  unfolding settle_one
  settle_one-Follows s (w, o) r h = elim (Bool-cases s.has_worker) [
    | inr no' ↦
        let h1 = rw no' at h in let shape : w ≡ r.0 = ground arith in rw (← shape) (Follows-refl w)
    | inl yes' ↦
        let h1 = rw yes' at h in
        elim (Bool-cases (leb c.max_redispatches s.redispatches)) [
          | inl spent ↦
              let (w', done', h3) =
                bind-ok (exhaust write fresh c now s w)
                  (λ u. ok (u, record o { exhausted = o.exhausted ++ s.id ∷ [] }))
                  (rw spent at h1) in
              let shape : w' ≡ r.0 = ground arith in rw (← shape) (exhaust-Follows s w w' done')
          | inr left ↦
              let (q, sent, h3) =
                bind-ok (resend write fresh c now s w)
                  (λ u. ok (u.0, record o { redispatched = o.redispatched ++ s.id ∷ [] }))
                  (rw left at h1) in
              let shape : q.0 ≡ r.0 = ground arith in rw (← shape) (resend-Follows s w q sent)
        ]
  ]

  settle_stuck-Follows :
      (found : List Stuck) (p r : World L Q × Outcome)
      → settle_stuck write fresh c now found p ≡ ok r
      → Follows p.0 r.0
  unfolding settle_stuck
  settle_stuck-Follows [] p r h =
      let shape : p.0 ≡ r.0 = ground arith in rw (← shape) (Follows-refl p.0)
  settle_stuck-Follows (s ∷ rest) p r h =
      let (q, one, others) = bind-ok (settle_one write fresh c now s p) _ h in
      Follows-trans (settle_one-Follows s p q one) (settle_stuck-Follows rest q r others)

  reconcile_tx-Follows :
      (locked : Bool) (w : World L Q) → Follows w (reconcile_tx write fresh c now locked w).0
  unfolding reconcile_tx
  reconcile_tx-Follows false w = Follows-refl w
  reconcile_tx-Follows true w =
      elim (Result-cases (settle_stuck write fresh c now (find_stuck c now w) (w, nothing_done))) [
        | inr (e, failed) ↦ rw (failed, reconcile_tx) (Follows-refl w)
        | inl (r, settled) ↦
            rw (settled, reconcile_tx)
              (settle_stuck-Follows (find_stuck c now w) (w, nothing_done) r settled)
      ]

  publish_resent-Follows :
      (publish : Message → Q → Q × Option String) (p : World L Q × Result JobError Outcome)
      → Follows p.0 (publish_resent write fresh c now publish p).0
  unfolding publish_resent
  publish_resent-Follows publish (w, err e) = Follows-refl w
  publish_resent-Follows publish (w, ok o) = cases o.redispatched refl
    where
      cases :
          (ids : List String)
          → o.redispatched ≡ ids
          → Follows w (publish_resent write fresh c now publish (w, ok o)).0
      cases [] e = rw (e, publish_resent) (Follows-refl w)
      cases (id ∷ rest) e =
          rw (e, publish_resent) (publish_due-Follows publish "" c.batch_size now w)

  pub reconcile-Follows :
      (publish : Message → Q → Q × Option String) (locked : Bool) (w : World L Q)
      → Follows w (reconcile write fresh c now publish locked w).0
  unfolding reconcile
  reconcile-Follows publish locked w =
      Follows-trans (reconcile_tx-Follows locked w)
        (publish_resent-Follows publish (reconcile_tx write fresh c now locked w))
