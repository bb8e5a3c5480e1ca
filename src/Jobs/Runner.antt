-- ===== src/Jobs/Runner.antt =====
-- The handling of a message: internal/workers/runner.go from `RetryDelay` to `auditSkip`. Metrics are
-- left out, and so are errors of the database itself; the audit ledger may fail. The text of a
-- timeout does not name the limit.
use argus.Base.{
  ℕ, ◌-◌, ◌*◌, ◌^◌, String, Bool, true, false, not, ◌&&◌, Option, none, some, [], ◌∷◌, Dict, lookup,
  str_eq, ltb, leb, if◌then◌else◌,
}
use argus.Base.Result.{Result, ok, err, ◌>>=◌}
use argus.Actions.{Value}
use argus.Approvals.{Event, Detail, state_of, word, number, time}
use argus.Remediation.States.{State, running, succeeded, failed, timed_out}
use argus.Jobs.{Action, Message, World, JobError}
use argus.Jobs.Store.{find_action, is_open, claim_remediation, complete_remediation}
use argus.Jobs.Outbox.{second, write_entry, record_entry, ◌^++◌}
use argus.Jobs.Execution.{detail_of}

-- How a call of a handler ends: with a result, with an error, or past the job timeout.
pub data Ending : Type 0 where
  done : Option (Dict Value) → Ending
  failing : Option (Dict Value) → String → Ending
  exceeded : Ending

-- `Handler`, on a state T of its own.
pub record Handler (T : Type 0) : Type 0 where
  pub validate : Action → Option String
  pub execute : Action → T → T × Ending
  pub dry_run : Action → T → T × Ending

-- What a message carries, none where it does not decode, and how often it was delivered.
pub record Delivery : Type 0 where
  pub event : Option Message
  pub deliveries : ℕ

pub data DeadReason : Type 0 where
  undecodable_payload missing_remediation_id remediation_not_found retries_exhausted : DeadReason

-- What becomes of a message: `Ack`, `NakWithDelay`, or the dead-letter stream and `Term`.
pub data Disposition : Type 0 where
  ack : Disposition
  nak : ℕ → Disposition
  dead : DeadReason → Disposition

-- `RetryDelay`
unfoldable pub retry_delay : ℕ → ℕ
retry_delay delivery =
    let n = if ltb delivery 1 then 1 else delivery in
    let delay = 2 ^ (n - 1) * second in
    if ltb 7 n then 60 * second else if ltb delay (60 * second) then delay else 60 * second

-- `retryLater`
unfoldable pub retry_later : ℕ → ℕ → Disposition
unfolding retry_delay
retry_later max_deliver deliveries =
    if leb max_deliver deliveries then dead retries_exhausted else nak (retry_delay deliveries)

abbrev system_event : String → String → Dict Detail → Dict Detail → Event
system_event action id after_state metadata = record {
  actor_id = "";
  actor_type = "system";
  action = action;
  resource_type = "remediation";
  resource_id = id;
  before_state = [];
  after_state = after_state;
  metadata = metadata;
}

abbrev ended : State → String → Dict Detail
ended status error = ("status", state_of status) ∷ ("error", word error) ∷ []

unfoldable pub skipped_event : String → State → Event
skipped_event id status =
    system_event "remediation.execution_skipped" id (("status", state_of status) ∷ [])
      (("reason", word "remediation is not queued or running") ∷ [])

unfoldable pub retry_event : String → String → ℕ → Event
unfolding retry_delay
retry_event id error deliveries =
    system_event "remediation.retry_scheduled" id
      (("status", state_of running)
        ∷ ("error", word error)
        ∷ ("delivery_attempt", number deliveries)
        ∷ ("retry_after", time (retry_delay deliveries))
        ∷ [])
      []

unfoldable pub completed_event : String → Option (Dict Value) → Event
completed_event id result =
    system_event "remediation.completed" id
      (("status", state_of succeeded) ∷ ("result", detail_of result) ∷ []) []

unfoldable pub conflict_event : String → Option (Dict Value) → Event
conflict_event id result =
    system_event "remediation.completion_conflict" id (("result", detail_of result) ∷ [])
      (("reason", word "remediation left running before the result was recorded") ∷ [])

abbrev is_succeeded : State → Bool
is_succeeded succeeded = true
is_succeeded _ = false

-- `runHandler`
unfoldable pub run_handler : {T : Type 0} → Handler T → Action → T → T × Ending
run_handler h a t = if a.dry_run then h.dry_run a t else h.execute a t

module _ {L Q : Type 0} (write : Event → L → Option L) where
  -- `auditSkip`
  unfoldable pub audit_skip : String → State → World L Q → World L Q
  unfolding record_entry skipped_event
  audit_skip id status w =
      if is_succeeded status then w else record_entry write (skipped_event id status) w

  -- `finish`: whether the outcome was recorded.
  unfoldable pub finish :
      String
      → State
      → Option (Dict Value)
      → String
      → Event
      → ℕ
      → World L Q
      → Result JobError (World L Q × Bool)
  unfolding complete_remediation write_entry
  finish id status result error entry now w =
      let (actions, applied) = complete_remediation id status result error now w.actions in
      if applied
      then (write_entry write entry (record w { actions = actions }) >>= λ w'. ok (w', true))
      else ok (record w { actions = actions }, false)

  -- `status`, the result and its entry, then `Ack`; the message is retried if it is not recorded.
  unfoldable pub finish_message :
      ℕ
      → ℕ
      → String
      → State
      → Option (Dict Value)
      → String
      → Event
      → ℕ
      → World L Q
      → World L Q × Disposition
  unfolding finish retry_later
  finish_message max_deliver deliveries id status result error entry now w =
      elim (finish id status result error entry now w) [
        | err e ↦ (w, retry_later max_deliver deliveries)
        | ok (w', applied) ↦ (w', ack)
      ]

  -- What follows the handler.
  unfoldable pub conclude : ℕ → ℕ → Action → Ending → ℕ → World L Q → World L Q × Disposition
  unfolding finish_message finish retry_later record_entry retry_event conflict_event
      completed_event retry_delay
  conclude max_deliver deliveries a exceeded now w =
      let reason : String = "handler exceeded the job timeout; outcome unknown, not retried" in
      finish_message max_deliver deliveries a.id timed_out none reason
        (system_event "remediation.timed_out" a.id (ended timed_out reason) []) now w
  conclude max_deliver deliveries a (failing result error) now w =
      if ltb deliveries a.max_attempts && ltb deliveries max_deliver
      then (record_entry write (retry_event a.id error deliveries) w, nak (retry_delay deliveries))
      else finish_message max_deliver deliveries a.id failed result error
          (system_event "remediation.failed" a.id
            (("status", state_of failed)
              ∷ ("error", word error)
              ∷ ("delivery_attempt", number deliveries)
              ∷ [])
            [])
          now w
  conclude max_deliver deliveries a (done result) now w =
      elim (finish a.id succeeded result "" (completed_event a.id result) now w) [
        | err e ↦ (w, retry_later max_deliver deliveries)
        | ok (w', true) ↦ (w', ack)
        | ok (w', false) ↦ (record_entry write (conflict_event a.id result) w', ack)
      ]

  -- From the claim on. What others do while the handler runs is `during`.
  unfoldable pub claim_and_run :
      {T : Type 0}
      → (World L Q → World L Q)
      → ℕ
      → ℕ
      → Handler T
      → Action
      → ℕ
      → World L Q
      → T
      → (World L Q × T) × Disposition
  unfolding claim_remediation audit_skip run_handler conclude
  claim_and_run during max_deliver deliveries h a now w t =
      let (actions, claimed) = claim_remediation a.id now w.actions in
      let w' = record w { actions = actions } in
      if claimed
      then (let (t', ending) = run_handler h a t in
          let (w'', disposition) = conclude max_deliver deliveries a ending now (during w') in
          ((w'', t'), disposition))
      else (let status : State = elim (find_action a.id actions) [
        | none ↦ State.other "unknown"
        | some latest ↦ latest.status
      ] in
          ((audit_skip a.id status w', t), ack))

  -- The message of a row that was read. What others do before the claim is `before`.
  unfoldable pub handle_read :
      {T : Type 0}
      → (World L Q → World L Q)
      → (World L Q → World L Q)
      → ℕ
      → Dict (Handler T)
      → ℕ
      → Action
      → ℕ
      → World L Q
      → T
      → (World L Q × T) × Disposition
  unfolding audit_skip finish_message claim_and_run
  handle_read before during max_deliver handlers deliveries a now w t =
      if not (is_open a.status)
      then ((audit_skip a.id a.status w, t), ack)
      else elim (lookup a.action_type handlers) [
        | none ↦
            let reason : String = "no handler registered for " ^++ a.action_type in
            let (w', disposition) =
              finish_message max_deliver deliveries a.id failed none reason
                (system_event "remediation.failed" a.id (ended failed reason) []) now w in
            ((w', t), disposition)
        | some h ↦ elim (h.validate a) [
          | some error ↦
              let (w', disposition) =
                finish_message max_deliver deliveries a.id failed none error
                  (system_event "remediation.validation_failed" a.id (ended failed error) []) now
                  w in
              ((w', t), disposition)
          | none ↦ claim_and_run during max_deliver deliveries h a now (before w) t
        ]
      ]

  -- `handleMessage`
  unfoldable pub handle_message :
      {T : Type 0}
      → (World L Q → World L Q)
      → (World L Q → World L Q)
      → ℕ
      → Dict (Handler T)
      → Delivery
      → ℕ
      → World L Q
      → T
      → (World L Q × T) × Disposition
  unfolding handle_read
  handle_message before during max_deliver handlers d now w t = elim d.event [
    | none ↦ ((w, t), dead undecodable_payload)
    | some m ↦
        if str_eq m.remediation_id ""
        then ((w, t), dead missing_remediation_id)
        else elim (find_action m.remediation_id w.actions) [
          | none ↦ ((w, t), dead remediation_not_found)
          | some a ↦ handle_read before during max_deliver handlers d.deliveries a now w t
        ]
  ]
