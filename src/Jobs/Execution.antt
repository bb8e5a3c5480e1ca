-- ===== src/Jobs/Execution.antt =====
-- `Execute` and `Cancel` of internal/remediation/service.go. Metrics are left out, and so are errors
-- of the database itself; a service with a queued executor has a dispatcher. Each part runs at a time of its own and on the world that it finds then,
-- with the row that was read before; what the whole does alone is the composition.
mod Entries
unfoldable pub use Entries.*
use argus.Base.{
  ℕ, String, Bool, true, false, not, Option, none, some, List, [], ◌∷◌, Dict, if◌then◌else◌,
}
use argus.Base.Result.{Result, ok, err, ◌>>=◌, or_err}
use argus.Actions.{Value}
use argus.Approvals.{Event, Detail, state_of, word, flag, values}
use argus.Remediation.States.{
  State, awaiting_approval, approved, queued, running, succeeded, failed, cancelled,
  is_terminal_state, require_transition,
}
use argus.Incidents.{Incident, find_incident, is_closed}
use argus.Jobs.{
  Action, execute, Message, World, JobError, not_found, requires_approval, not_executable,
  incident_not_found, incident_closed, no_reservation, unknown_outcome, executor_failed,
  invalid_transition, state_changed, approvals_unavailable,
}
use argus.Jobs.Store.{
  find_action, cancel_remediation, mark_queued, release_reservation, claim_remediation,
  mark_running, complete_remediation,
}
use argus.Jobs.Outbox.{reservation_event_id, enqueue, write_entry, record_entry, publish_due}
use argus.Jobs.Reconcile.{require_applied}

-- `reserved` with its reservation.
abbrev pub reserved : Action → Bool → ℕ → Action
reserved a dry_run now = record a { queued_at = some now; dry_run = dry_run }

module _ {L Q : Type 0} (write : Event → L → Option L) where
  -- The transaction that reserves the execution, for a row that was read before. It returns the
  -- identifier of the dispatch, if there is one.
  unfoldable pub reserve_tx :
      Executor
      → String
      → String
      → Bool
      → Action
      → ℕ
      → World L Q
      → Result JobError (World L Q × Option String)
  unfolding mark_queued enqueue write_entry reservation_event_id requested_event
  reserve_tx exec fresh actor dry_run a now w =
      or_err no_reservation (mark_queued a.id dry_run now w.actions) >>= λ actions.
      let w' = record w { actions = actions } in
      if exec.is_queued
      then (let id = reservation_event_id fresh (reserved a dry_run now) in
          enqueue (reserved a dry_run now) id execute now w.dispatches >>= λ rows.
          write_entry write (requested_event actor dry_run exec a (some id))
            (record w' { dispatches = rows })
          >>= λ w''. ok (w'', some id))
      else (write_entry write (requested_event actor dry_run exec a none) w' >>= λ w''.
          ok (w'', none))

  -- The transaction that releases the reservation after the executor failed.
  unfoldable pub release_tx : String → Action → String → World L Q → Result JobError (World L Q)
  unfolding release_reservation write_entry failed_event
  release_tx actor a error w =
      write_entry write (failed_event actor a error)
        (record w { actions = release_reservation a.id w.actions })

  -- `applyQueuedOutcome`
  unfoldable pub apply_outcome_tx :
      Executor → String → Action → ExecutionOutcome → ℕ → World L Q → Result JobError (World L Q)
  unfolding mark_running claim_remediation complete_remediation write_entry outcome_event
  apply_outcome_tx exec actor a outcome now w = elim outcome.status [
    | queued ↦ ok w
    | running ↦ require_applied (mark_running a.id outcome.result now w.actions) >>= λ actions.
        write_entry write (outcome_event actor exec a "remediation.running" outcome)
          (record w { actions = actions })
    | succeeded ↦ require_applied (claim_remediation a.id now w.actions) >>= λ claimed.
        require_applied (complete_remediation a.id succeeded outcome.result "" now claimed)
        >>= λ actions.
            write_entry write (outcome_event actor exec a "remediation.completed" outcome)
              (record w { actions = actions })
    | failed ↦
        require_applied (
          complete_remediation a.id failed outcome.result "executor reported failure" now w.actions)
        >>= λ actions.
            write_entry write (outcome_event actor exec a "remediation.failed" outcome)
              (record w { actions = actions })
    | _ ↦ err unknown_outcome
  ]

  -- The transaction of `Cancel`, for a row that was read before; false where it moved on.
  unfoldable pub cancel_tx : String → Action → ℕ → World L Q → Result JobError (World L Q × Bool)
  unfolding cancel_remediation write_entry cancelled_event
  cancel_tx actor a now w =
      let (actions, applied) = cancel_remediation a.id a.status now w.actions in
      if applied
      then (write_entry write (cancelled_event actor a) (record w { actions = actions }) >>= λ w'.
          ok (w', true))
      else ok (record w { actions = actions }, false)

  -- `Cancel` of a row that does not await approval; another is the approval service's.
  unfoldable pub cancel_read :
      String → Action → ℕ → World L Q → World L Q × Result JobError (Unit {0})
  unfolding cancel_tx
  cancel_read actor a now w =
      if not (none? (require_transition a.status cancelled))
      then (w, err invalid_transition)
      else elim (cancel_tx actor a now w) [
        | err e ↦ (w, err e)
        | ok (w', true) ↦ (w', ok tt)
        | ok (w', false) ↦ elim (find_action a.id w'.actions) [
          | none ↦ (w', err not_found)
          | some latest ↦ (w', err state_changed)
        ]
      ]

  -- `Cancel`; `approvals` is `CancelByRemediation` of the approval service, if there is one.
  unfoldable pub cancel_job :
      Option (String → String → World L Q → World L Q × Result JobError (Unit {0}))
      → String
      → String
      → ℕ
      → World L Q
      → World L Q × Result JobError (Unit {0})
  unfolding cancel_read
  cancel_job approvals actor id now w = elim (find_action id w.actions) [
    | none ↦ (w, err not_found)
    | some a ↦
        if is_awaiting a.status
        then elim approvals [
          | none ↦ (w, err approvals_unavailable)
          | some cancel ↦ cancel id actor w
        ]
        else cancel_read actor a now w
  ]

  -- What follows a reservation that failed: another caller may have been faster.
  unfoldable pub after_refusal :
      String → Action → JobError → World L Q → World L Q × Result JobError Bool
  unfolding record_entry reused_event
  after_refusal actor a e w = elim (find_action a.id w.actions) [
    | none ↦ (w, err e)
    | some latest ↦
        if is_underway latest.status
        then (record_entry write (reused_event actor latest) w, ok true)
        else (w, err e)
  ]

  -- What follows a reservation for a synchronous executor.
  unfoldable pub run_reserved :
      Executor
      → String
      → Action
      → Incident
      → Bool
      → ℕ
      → World L Q
      → World L Q × Result JobError Bool
  unfolding release_tx apply_outcome_tx
  run_reserved exec actor a incident dry_run now w = elim (exec.run a incident dry_run) [
    | err error ↦ elim (release_tx actor a error w) [
      | err e ↦ (w, err (executor_failed error))
      | ok w' ↦ (w', err (executor_failed error))
    ]
    | ok outcome ↦ elim (apply_outcome_tx exec actor a outcome now w) [
      | err e ↦ (w, err e)
      | ok w' ↦ (w', ok false)
    ]
  ]

  -- `Execute` of a row that was read; true is a reuse. Its incident is looked up on the way.
  unfoldable pub execute_read :
      (Message → Q → Q × Option String)
      → Executor
      → String
      → ℕ
      → String
      → Bool
      → Action
      → Incident
      → ℕ
      → World L Q
      → World L Q × Result JobError Bool
  unfolding reserve_tx after_refusal run_reserved publish_due
  execute_read publish exec fresh batch_size actor dry_run a incident now w =
      elim (reserve_tx exec fresh actor dry_run a now w) [
        | err e ↦ after_refusal actor a e w
        | ok (w', some id) ↦ ((publish_due publish id batch_size now w').0, ok false)
        | ok (w', none) ↦ run_reserved exec actor (reserved a dry_run now) incident dry_run now w'
      ]

  -- `Execute`
  unfoldable pub execute_remediation :
      (Message → Q → Q × Option String)
      → Executor
      → String
      → ℕ
      → String
      → Bool
      → String
      → ℕ
      → World L Q
      → World L Q × Result JobError Bool
  unfolding record_entry reused_event refuse_execution execute_read
  execute_remediation publish exec fresh batch_size actor dry_run id now w =
      elim (find_action id w.actions) [
        | none ↦ (w, err not_found)
        | some a ↦
            if is_underway a.status
            then (record_entry write (reused_event actor a) w, ok true)
            else elim (refuse_execution a w.incidents) [
              | some e ↦ (w, err e)
              | none ↦ elim (find_incident a.incident_id w.incidents) [
                | none ↦ (w, err incident_not_found)
                | some i ↦ execute_read publish exec fresh batch_size actor dry_run a i now w
              ]
            ]
      ]
