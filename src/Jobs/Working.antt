-- ===== src/Jobs/Working.antt =====
-- Execution and cancellation keep what every operation keeps: internal/remediation/service.go.
use argus.Base.{
  ℕ, String, ◌≡◌, Bool, true, false, Option, none, some, arith, Bool-cases, Option-cases, inl, inr,
}
use argus.Base.Result.{ok, or_err, Result-cases, bind-ok, or_err-ok}
use argus.Approvals.{Event}
use argus.Remediation.States.{cancelled, require_transition}
use argus.Incidents.{Incident, find_incident}
use argus.Jobs.{Action, Message, World, JobError, no_reservation, execute}
use argus.Jobs.Store.{find_action, mark_queued, cancel_remediation}
use argus.Jobs.Outbox.{write_entry, reservation_event_id}
use argus.Jobs.Execution.{
  Executor, is_underway, reserved, reused_event, cancelled_event, reserve_tx, cancel_tx,
  cancel_read, after_refusal, execute_read, execute_remediation, refuse_execution,
}
use argus.Jobs.Follows.{
  Follows, Follows-refl, Follows-trans, cancel-Follows, reserve-Follows, write_entry-Follows,
  record_entry-Follows,
}
use argus.Jobs.Publishing.{publish_due-Follows}

module _ {L Q : Type 0} (write : Event → L → Option L) where
  -- A reservation through the outbox.
  pub reserve_tx-Follows :
      (exec : Executor) (fresh actor : String) (dry_run : Bool) (a : Action) (now : ℕ)
      (w : World L Q) (r : World L Q × Option String)
      → exec.is_queued ≡ true
      → reserve_tx write exec fresh actor dry_run a now w ≡ ok r
      → Follows w r.0 × ((id : String) × (r.1 ≡ some id))
  unfolding reserve_tx
  reserve_tx-Follows exec fresh actor dry_run a now w r outbox h =
      let (rows, q, h1) =
        bind-ok (or_err no_reservation (mark_queued a.id dry_run now w.actions)) _ h in
      let marked = or_err-ok no_reservation (mark_queued a.id dry_run now w.actions) q in
      let h2 = rw outbox at h1 in
      let (ds, inserted, h3) = bind-ok _ _ h2 in
      let (w', written, h4) = bind-ok _ _ h3 in
      let shape : w' ≡ r.0 = ground arith in
      (
        rw (← shape) (
            Follows-trans
              (reserve-Follows w (reserved a dry_run now) _ execute dry_run now rows ds marked
                inserted)
              (write_entry-Follows write _ (record w { actions = rows; dispatches = ds }) w'
                written)),
        (reservation_event_id fresh (reserved a dry_run now), ground arith),
      )

  cancel_tx-Follows :
      (actor : String) (a : Action) (now : ℕ) (w : World L Q) (r : World L Q × Bool)
      → require_transition a.status cancelled ≡ none
      → cancel_tx write actor a now w ≡ ok r
      → Follows w r.0
  unfolding cancel_tx
  cancel_tx-Follows actor a now w r moves h =
      let rows = (cancel_remediation a.id a.status now w.actions).0 in
      let first = cancel-Follows a.id a.status now w moves in
      elim (Bool-cases (cancel_remediation a.id a.status now w.actions).1) [
        | inl yes' ↦
            let (w', written, h1) =
              bind-ok (write_entry write (cancelled_event actor a) (record w { actions = rows }))
                (λ u. ok (u, true)) (rw yes' at h) in
            let shape : w' ≡ r.0 = ground arith in
            rw (← shape) (
              Follows-trans first (
                write_entry-Follows write (cancelled_event actor a) (record w { actions = rows }) w'
                  written))
        | inr no' ↦
            let h1 = rw no' at h in
            let shape : record w { actions = rows } ≡ r.0 = ground arith in rw (← shape) first
      ]

  pub cancel_read-Follows :
      (actor : String) (a : Action) (now : ℕ) (w : World L Q)
      → Follows w (cancel_read write actor a now w).0
  unfolding cancel_read
  cancel_read-Follows actor a now w = elim (Option-cases (require_transition a.status cancelled)) [
    | inr (e, refused) ↦ rw (refused, cancel_read) (Follows-refl w)
    | inl moves ↦ elim (Result-cases (cancel_tx write actor a now w)) [
      | inr (e, failed') ↦ rw (moves, failed', cancel_read) (Follows-refl w)
      | inl ((w', true), e) ↦
          rw (moves, e, cancel_read) (cancel_tx-Follows actor a now w (w', true) moves e)
      | inl ((w', false), e) ↦ elim (Option-cases (find_action a.id w'.actions)) [
        | inl gone ↦
            rw (moves, e, gone, cancel_read) (cancel_tx-Follows actor a now w (w', false) moves e)
        | inr (latest, found) ↦
            rw (moves, e, found, cancel_read) (cancel_tx-Follows actor a now w (w', false) moves e)
      ]
    ]
  ]

  after_refusal-Follows :
      (actor : String) (a : Action) (e : JobError) (w : World L Q)
      → Follows w (after_refusal write actor a e w).0
  unfolding after_refusal
  after_refusal-Follows actor a e w = elim (Option-cases (find_action a.id w.actions)) [
    | inl gone ↦ rw (gone, after_refusal) (Follows-refl w)
    | inr (latest, found) ↦ elim (Bool-cases (is_underway latest.status)) [
      | inl yes' ↦
          rw (found, yes', after_refusal) (record_entry-Follows write (reused_event actor latest) w)
      | inr no' ↦ rw (found, no', after_refusal) (Follows-refl w)
    ]
  ]

  pub execute_read-Follows :
      (publish : Message → Q → Q × Option String) (exec : Executor) (fresh : String)
      (batch_size : ℕ) (actor : String) (dry_run : Bool) (a : Action) (i : Incident) (now : ℕ)
      (w : World L Q)
      → exec.is_queued ≡ true
      → Follows w (execute_read write publish exec fresh batch_size actor dry_run a i now w).0
  unfolding execute_read
  execute_read-Follows publish exec fresh batch_size actor dry_run a i now w outbox =
      elim (Result-cases (reserve_tx write exec fresh actor dry_run a now w)) [
        | inr (e, refused) ↦ rw (refused, execute_read) (after_refusal-Follows actor a e w)
        | inl ((w', id'), reserved') ↦
            let (first, (id, same)) =
              reserve_tx-Follows exec fresh actor dry_run a now w (w', id') outbox reserved' in
            rw (reserved', same, execute_read)
              (Follows-trans first (publish_due-Follows publish id batch_size now w'))
      ]

  pub execute_remediation-Follows :
      (publish : Message → Q → Q × Option String) (exec : Executor) (fresh : String)
      (batch_size : ℕ) (actor : String) (dry_run : Bool) (id : String) (now : ℕ) (w : World L Q)
      → exec.is_queued ≡ true
      → Follows w (execute_remediation write publish exec fresh batch_size actor dry_run id now w).0
  unfolding execute_remediation
  execute_remediation-Follows publish exec fresh batch_size actor dry_run id now w outbox =
      elim (Option-cases (find_action id w.actions)) [
        | inl gone ↦ rw (gone, execute_remediation) (Follows-refl w)
        | inr (a, found) ↦ elim (Bool-cases (is_underway a.status)) [
          | inl yes' ↦
              rw (found, yes', execute_remediation)
                (record_entry-Follows write (reused_event actor a) w)
          | inr no' ↦ elim (Option-cases (refuse_execution a w.incidents)) [
            | inr (e, refused) ↦ rw (found, no', refused, execute_remediation) (Follows-refl w)
            | inl goes ↦ elim (Option-cases (find_incident a.incident_id w.incidents)) [
              | inl lost ↦ rw (found, no', goes, lost, execute_remediation) (Follows-refl w)
              | inr (i, there) ↦
                  rw (found, no', goes, there, execute_remediation)
                    (execute_read-Follows publish exec fresh batch_size actor dry_run a i now w
                      outbox)
            ]
          ]
        ]
      ]
