-- ===== src/Jobs/Handling.antt =====
-- The handling of messages keeps what every operation keeps: internal/workers/runner.go.
use argus.Base.{
  ℕ, String, ◌≡◌, refl, Bool, true, false, ◌&&◌, Option, none, arith, Dict, lookup, str_eq, ltb,
  Bool-cases, Option-cases, inl, inr,
}
use argus.Base.Result.{Result, ok, err, Result-cases, bind-ok}
use argus.Actions.{Value}
use argus.Approvals.{Event}
use argus.Remediation.States.{State, succeeded, failed, timed_out, require_transition}
use argus.Jobs.{Action, World, JobError}
use argus.Jobs.Store.{find_action, is_open, is_queued, claim_remediation, complete_remediation}
use argus.Jobs.Outbox.{write_entry}
use argus.Jobs.Runner.{
  Handler, Ending, done, failing, exceeded, Delivery, finish, finish_message, conclude, run_handler,
  claim_and_run, handle_read, handle_message, audit_skip, skipped_event, retry_event,
  conflict_event, completed_event,
}
use argus.Jobs.Moves.{IsEnd}
use argus.Jobs.Follows.{
  Follows, Follows-refl, Follows-trans, claim-Follows, complete-Follows, write_entry-Follows,
  record_entry-Follows,
}

module _ {L Q : Type 0} (write : Event → L → Option L) where
  audit_skip-Follows :
      (id : String) (status : State) (w : World L Q) → Follows w (audit_skip write id status w)
  unfolding audit_skip
  audit_skip-Follows id succeeded w = Follows-refl w
  audit_skip-Follows id status w = record_entry-Follows write (skipped_event id status) w

  finish-Follows :
      (id : String) (status : State) (result : Option (Dict Value)) (error : String) (entry : Event)
      (now : ℕ) (w : World L Q) (r : World L Q × Bool)
      → IsEnd status
      → is_queued status ≡ false
      → finish write id status result error entry now w ≡ ok r
      → Follows w r.0
  unfolding finish
  finish-Follows id status result error entry now w r ends leaves h =
      let done' = complete_remediation id status result error now w.actions in
      let first = complete-Follows id status result error now w ends leaves in
      elim (Bool-cases done'.1) [
        | inl yes' ↦
            let (w', written, h1) =
              bind-ok (write_entry write entry (record w { actions = done'.0 })) (λ u. ok (u, true))
                (rw yes' at h) in
            let shape : w' ≡ r.0 = ground arith in
            rw (← shape) (
              Follows-trans first
                (write_entry-Follows write entry (record w { actions = done'.0 }) w' written))
        | inr no' ↦
            let h1 = rw no' at h in
            let shape : record w { actions = done'.0 } ≡ r.0 = ground arith in rw (← shape) first
      ]

  finish_message-Follows :
      (max_deliver deliveries : ℕ) (id : String) (status : State) (result : Option (Dict Value))
      (error : String) (entry : Event) (now : ℕ) (w : World L Q)
      → IsEnd status
      → is_queued status ≡ false
      → Follows w (finish_message write max_deliver deliveries id status result error entry now w).0
  unfolding finish_message
  finish_message-Follows max_deliver deliveries id status result error entry now w ends leaves =
      elim (Result-cases (finish write id status result error entry now w)) [
        | inr (e, lost) ↦ rw (lost, finish_message) (Follows-refl w)
        | inl (r, recorded) ↦
            rw (recorded, finish_message)
              (finish-Follows id status result error entry now w r ends leaves recorded)
      ]

  conclude-Follows :
      (max_deliver deliveries : ℕ) (a : Action) (ending : Ending) (now : ℕ) (w : World L Q)
      → Follows w (conclude write max_deliver deliveries a ending now w).0
  unfolding conclude require_transition
  conclude-Follows max_deliver deliveries a exceeded now w =
      finish_message-Follows max_deliver deliveries a.id timed_out none _ _ now w (refl, refl) refl
  conclude-Follows max_deliver deliveries a (failing result error) now w =
      elim (Bool-cases (ltb deliveries a.max_attempts && ltb deliveries max_deliver)) [
        | inl again ↦ rw again (record_entry-Follows write (retry_event a.id error deliveries) w)
        | inr no' ↦ rw no' (
            finish_message-Follows max_deliver deliveries a.id failed result error _ now w
              (refl, refl) refl)
      ]
  conclude-Follows max_deliver deliveries a (done result) now w =
      finished (finish write a.id succeeded result "" (completed_event a.id result) now w) refl
    where
      finished :
          (r : Result JobError (World L Q × Bool))
          → finish write a.id succeeded result "" (completed_event a.id result) now w ≡ r
          → Follows w (conclude write max_deliver deliveries a (done result) now w).0
      finished (err e) h = rw (h, conclude) (Follows-refl w)
      finished (ok (w', true)) h =
          rw (h, conclude)
            (finish-Follows a.id succeeded result "" _ now w (w', true) (refl, refl) refl h)
      finished (ok (w', false)) h =
          rw (h, conclude)
            (Follows-trans
              (finish-Follows a.id succeeded result "" _ now w (w', false) (refl, refl) refl h)
              (record_entry-Follows write (conflict_event a.id result) w'))

  module _ {T : Type 0} (before during : World L Q → World L Q)
      (before-Follows : (w : World L Q) → Follows w (before w))
      (during-Follows : (w : World L Q) → Follows w (during w)) where
    claim_and_run-Follows :
        (max_deliver deliveries : ℕ) (h : Handler T) (a : Action) (now : ℕ) (w : World L Q) (t : T)
        → Follows w (claim_and_run write during max_deliver deliveries h a now w t).0.0
    unfolding claim_and_run
    claim_and_run-Follows max_deliver deliveries h a now w t =
        let claimed = claim_remediation a.id now w.actions in
        let w' : World L Q = record w { actions = claimed.0 } in
        elim (Bool-cases claimed.1) [
          | inl yes' ↦ rw yes' (
              Follows-trans (claim-Follows a.id now w) (
                Follows-trans (during-Follows w') (
                  conclude-Follows max_deliver deliveries a (run_handler h a t).1 now (during w'))))
          | inr no' ↦
              rw no' (Follows-trans (claim-Follows a.id now w) (audit_skip-Follows a.id _ w'))
        ]

    handle_read-Follows :
        (max_deliver : ℕ) (handlers : Dict (Handler T)) (deliveries : ℕ) (a : Action) (now : ℕ)
        (w : World L Q) (t : T)
        → Follows w (handle_read write before during max_deliver handlers deliveries a now w t).0.0
    unfolding handle_read require_transition
    handle_read-Follows max_deliver handlers deliveries a now w t =
        elim (Bool-cases (is_open a.status)) [
          | inr no' ↦ rw (no', handle_read) (audit_skip-Follows a.id a.status w)
          | inl yes' ↦ elim (Option-cases (lookup a.action_type handlers)) [
            | inl none' ↦
                rw (yes', none', handle_read)
                  (finish_message-Follows max_deliver deliveries a.id failed none _ _ now w
                    (refl, refl) refl)
            | inr (h, there) ↦ elim (Option-cases (h.validate a)) [
              | inr (error, bad) ↦
                  rw (yes', there, bad, handle_read)
                    (finish_message-Follows max_deliver deliveries a.id failed none error _ now w
                      (refl, refl) refl)
              | inl good ↦
                  rw (yes', there, good, handle_read)
                    (Follows-trans (before-Follows w)
                      (claim_and_run-Follows max_deliver deliveries h a now (before w) t))
            ]
          ]
        ]

    pub handle_message-Follows :
        (max_deliver : ℕ) (handlers : Dict (Handler T)) (d : Delivery) (now : ℕ) (w : World L Q)
        (t : T)
        → Follows w (handle_message write before during max_deliver handlers d now w t).0.0
    unfolding handle_message
    handle_message-Follows max_deliver handlers d now w t = elim (Option-cases d.event) [
      | inl garbled ↦ rw (garbled, handle_message) (Follows-refl w)
      | inr (m, event) ↦ elim (Bool-cases (str_eq m.remediation_id "")) [
        | inl empty ↦ rw (event, empty, handle_message) (Follows-refl w)
        | inr named ↦ elim (Option-cases (find_action m.remediation_id w.actions)) [
          | inl gone ↦ rw (event, named, gone, handle_message) (Follows-refl w)
          | inr (a, found) ↦
              rw (event, named, found, handle_message)
                (handle_read-Follows max_deliver handlers d.deliveries a now w t)
        ]
      ]
    ]
