-- ===== src/Jobs/Answered.antt =====
-- Every message of a remediation is answered: `handleMessage` of internal/workers/runner.go.
use argus.Base.{
  ℕ, String, ◌≡◌, refl, false, Option, none, some, List, [], ◌∷◌, ap, ◌∙◌, arith, Dict, lookup,
  str_eq, str_eq-eq, Bool-cases, Option-cases, inl, inr,
}
use mathlib.Core.Path.{subst}
use argus.Approvals.{Event}
use argus.Remediation.States.{State, succeeded, failed}
use argus.Jobs.{Action, Message, World}
use argus.Jobs.Store.{find_action, is_open, update_one, set_claimed, claim_remediation}
use argus.Jobs.Runner.{
  Handler, Delivery, ack, audit_skip, run_handler, claim_and_run, handle_read, handle_message,
  skipped_event,
}
use argus.Jobs.Settled.{
  Keyed, found_closed, unclaimed, IsHandled, finish_message-IsHandled, conclude-IsHandled,
  record_entry-actions,
}

find_action-id :
    (id : String) (rows : List Action) (a : Action) → find_action id rows ≡ some a → a.id ≡ id
unfolding find_action
find_action-id id [] a h = cc
find_action-id id (x ∷ rest) a h = ground (arith, str_eq-eq x.id id, find_action-id id rest a)

module _ {L Q : Type 0} (write : Event → L → Option L) (during : World L Q → World L Q) where
  audit_skip-actions :
      (id : String) (status : State) (w : World L Q)
      → (audit_skip write id status w).actions ≡ w.actions
  unfolding audit_skip
  audit_skip-actions id succeeded w = refl
  audit_skip-actions id status w = record_entry-actions write (skipped_event id status) w

  claim_and_run-IsHandled :
      {T : Type 0} (max_deliver deliveries : ℕ) (h : Handler T) (a : Action) (now : ℕ)
      (w : World L Q) (t : T)
      → Keyed w.actions
      → let r = claim_and_run write during max_deliver deliveries h a now w t in
        IsHandled max_deliver deliveries a.id (r.0.0, r.1)
  unfolding claim_and_run claim_remediation update_one
  claim_and_run-IsHandled max_deliver deliveries h a now w t k =
      elim (Bool-cases (claim_remediation a.id now w.actions).1) [
        | inl yes' ↦ rw yes' (
            conclude-IsHandled write max_deliver deliveries a (run_handler h a t).1 now
              (during (record w { actions = (claim_remediation a.id now w.actions).0 })))
        | inr no' ↦ rw no' (
            unfold IsHandled in
            rw audit_skip-actions (unclaimed a.id (set_claimed now) w.actions k no'))
      ]

  handle_read-IsHandled :
      {T : Type 0} (before : World L Q → World L Q) (max_deliver : ℕ) (handlers : Dict (Handler T))
      (deliveries : ℕ) (a : Action) (now : ℕ) (w : World L Q) (t : T)
      → Keyed w.actions
      → Keyed (before w).actions
      → find_action a.id w.actions ≡ some a
      → let r = handle_read write before during max_deliver handlers deliveries a now w t in
        IsHandled max_deliver deliveries a.id (r.0.0, r.1)
  unfolding handle_read
  handle_read-IsHandled before max_deliver handlers deliveries a now w t k k' found =
      elim (Bool-cases (is_open a.status)) [
        | inr closed ↦
            rw (closed, handle_read)
              (unfold IsHandled in
                rw audit_skip-actions (found_closed a.id w.actions a k found closed))
        | inl open' ↦ elim (Option-cases (lookup a.action_type handlers)) [
          | inl none' ↦
              rw (open', none', handle_read)
                (finish_message-IsHandled write max_deliver deliveries a.id failed none _ _ now w
                  refl)
          | inr (h, there) ↦ elim (Option-cases (h.validate a)) [
            | inr (error, bad) ↦
                rw (open', there, bad, handle_read)
                  (finish_message-IsHandled write max_deliver deliveries a.id failed none error _
                    now w refl)
            | inl good ↦
                rw (open', there, good, handle_read)
                  (claim_and_run-IsHandled max_deliver deliveries h a now (before w) t k')
          ]
        ]
      ]

  -- A remediation that is closed when it is read is skipped.
  handle_read-closed :
      {T : Type 0} (before : World L Q → World L Q) (max_deliver : ℕ) (handlers : Dict (Handler T))
      (deliveries : ℕ) (a : Action) (now : ℕ) (w : World L Q) (t : T)
      → is_open a.status ≡ false
      → let r = handle_read write before during max_deliver handlers deliveries a now w t in
        (r.1 ≡ ack) × (r.0.1 ≡ t) × (r.0.0.actions ≡ w.actions)
  unfolding handle_read
  handle_read-closed before max_deliver handlers deliveries a now w t closed =
      rw (closed, handle_read) (refl, refl, audit_skip-actions a.id a.status w)

  -- A message about a remediation that exists is acknowledged only when that remediation is no
  -- longer queued or running, or else delivered again after `RetryDelay` while deliveries are left,
  -- or else given up after the last one; whatever others do before the claim, as long as they keep
  -- the identifiers unique, and whatever they do while the handler runs. Where the remediation is no
  -- longer queued or running when it is read, the message is acknowledged, no handler runs, and no
  -- remediation changes.
  pub handle_message-IsHandled :
      {T : Type 0} (before : World L Q → World L Q) (max_deliver : ℕ) (handlers : Dict (Handler T))
      (d : Delivery) (m : Message) (a : Action) (now : ℕ) (w : World L Q) (t : T)
      → Keyed w.actions
      → Keyed (before w).actions
      → d.event ≡ some m
      → str_eq m.remediation_id "" ≡ false
      → find_action m.remediation_id w.actions ≡ some a
      → let r = handle_message write before during max_deliver handlers d now w t in
        IsHandled max_deliver d.deliveries m.remediation_id (r.0.0, r.1)
        × (is_open a.status ≡ false → (r.1 ≡ ack) × (r.0.1 ≡ t) × (r.0.0.actions ≡ w.actions))
  unfolding handle_message
  handle_message-IsHandled before max_deliver handlers d m a now w t k k' event named found =
      let e = find_action-id m.remediation_id w.actions a found in
      let there = ap (λ i. find_action i w.actions) e ∙ found in
      rw (event, named, found, handle_message)
        (
          subst
              (λ i. IsHandled max_deliver d.deliveries i (
                let r =
                  handle_read write before during max_deliver handlers d.deliveries a now w t in
                (r.0.0, r.1)))
              e
              (handle_read-IsHandled before max_deliver handlers d.deliveries a now w t k k' there),
          handle_read-closed before max_deliver handlers d.deliveries a now w t,
        )
