-- ===== src/Jobs/Outbox.antt =====
-- The outbox: internal/remediation/dispatch.go, but for `Reconcile`. Metrics and logs are left out,
-- and so are encoding errors and errors of the database itself.
use argus.Base.{
  ℕ, ◌+◌, ◌-◌, ◌*◌, ◌^◌, String, Bool, true, false, not, ◌&&◌, ◌||◌, Option, none, some, List, [],
  ◌∷◌, ◌++◌, take, Dict, insert, str_eq, ltb, leb, decimal, if◌then◌else◌,
}
use Prim.Native.String
use argus.Base.Result.{Result, ok, err, ◌>>=◌, or_err}
use argus.Approvals.{Event, Detail, state_of, word, update_where, count_where}
use argus.Remediation.States.{State}
use argus.Jobs.{
  Action, Reason, execute, redispatch, replay, Message, DispatchState, pending, published, skipped,
  Dispatch, World, JobError, not_found, not_dispatchable, enqueue_failed, audit_failed,
}
use argus.Jobs.Store.{find_action, is_open}

abbrev pub second : ℕ
second = 1000000000

infixl 65 ◌^++◌
abbrev pub ◌^++◌ : String → String → String
s ^++ t = String.◌++◌ s t

abbrev pub reason_name : Reason → String
reason_name execute = "execute"
reason_name redispatch = "redispatch"
reason_name replay = "replay"

-- `reservationEventID`; `fresh` is the identifier that `common.NewID` makes.
unfoldable pub reservation_event_id : String → Action → String
reservation_event_id fresh a = elim a.queued_at [
  | none ↦ fresh
  | some t ↦ a.idempotency_key ^++ "@" ^++ decimal t
]

-- `Job`
unfoldable pub job : Action → String → ℕ → Message
job a dispatch_id now = record {
  event_id = dispatch_id;
  occurred_at = now;
  idempotency_key = a.idempotency_key;
  remediation_id = a.id;
  incident_id = a.incident_id;
  dry_run = a.dry_run;
}

unfoldable pub has_dispatch : String → List Dispatch → Bool
has_dispatch id [] = false
has_dispatch id (d ∷ rest) = str_eq d.id id || has_dispatch id rest

-- The row that `Enqueue` inserts, with the defaults of the table.
unfoldable pub new_dispatch : Action → String → Reason → ℕ → Dispatch
unfolding job
new_dispatch a dispatch_id reason now = record {
  id = dispatch_id;
  remediation_id = a.id;
  reason = reason;
  event = job a dispatch_id now;
  state = pending;
  attempts = 0;
  last_error = none;
  next_attempt_at = now;
  published_at = none;
  created_at = now;
}

-- `Enqueue`: the insertion fails where the identifier is taken.
unfoldable pub enqueue :
    Action → String → Reason → ℕ → List Dispatch → Result JobError (List Dispatch)
enqueue a dispatch_id reason now rows =
    if has_dispatch dispatch_id rows
    then err enqueue_failed
    else ok (rows ++ new_dispatch a dispatch_id reason now ∷ [])

-- `dispatchBackoff`
unfoldable pub dispatch_backoff : ℕ → ℕ
dispatch_backoff attempts =
    let n = if ltb attempts 1 then 1 else attempts in
    let delay = second * 2 ^ (if ltb (n - 1) 5 then n - 1 else 5) in
    if ltb delay (30 * second) then delay else 30 * second

-- `Dispatchable`
abbrev pub dispatchable : State → Bool
dispatchable = is_open

abbrev pub is_pending : DispatchState → Bool
is_pending pending = true
is_pending _ = false

-- `d.state = 'pending' AND d.next_attempt_at <= now() AND ($1 = '' OR d.id = $1)`
unfoldable pub is_due : String → ℕ → Dispatch → Bool
is_due only_id now d =
    is_pending d.state && leb d.next_attempt_at now && (str_eq only_id "" || str_eq d.id only_id)

-- `pendingDispatch`: a row and the status of its remediation.
abbrev pub Pending : Type 0
Pending = Dispatch × State

-- `JOIN ... WHERE`
unfoldable pub select_due : String → ℕ → List Action → List Dispatch → List Pending
unfolding is_due
select_due only_id now actions [] = []
select_due only_id now actions (d ∷ rest) =
    let others = select_due only_id now actions rest in
    if is_due only_id now d
    then elim (find_action d.remediation_id actions) [
      | none ↦ others
      | some a ↦ (d, a.status) ∷ others
    ]
    else others

-- `ORDER BY d.created_at`
unfoldable pub insert_pending : Pending → List Pending → List Pending
insert_pending p [] = p ∷ []
insert_pending p (q ∷ rest) =
    if ltb q.0.created_at p.0.created_at then q ∷ insert_pending p rest else p ∷ q ∷ rest

unfoldable pub sort_pending : List Pending → List Pending
unfolding insert_pending
sort_pending [] = []
sort_pending (p ∷ rest) = insert_pending p (sort_pending rest)

abbrev pub with_id : String → Dispatch → Bool
with_id id d = str_eq d.id id

abbrev pub state_name : State → String
state_name State.proposed = "proposed"
state_name State.policy_blocked = "policy_blocked"
state_name State.awaiting_approval = "awaiting_approval"
state_name State.approved = "approved"
state_name State.rejected = "rejected"
state_name State.queued = "queued"
state_name State.running = "running"
state_name State.succeeded = "succeeded"
state_name State.failed = "failed"
state_name State.timed_out = "timed_out"
state_name State.cancelled = "cancelled"
state_name (State.other s) = s

abbrev pub set_skipped : State → Dispatch → Dispatch
set_skipped status d = record d {
  state = skipped;
  last_error = some ("remediation is " ^++ state_name status);
}

unfoldable pub set_retried : ℕ → String → ℕ → Dispatch → Dispatch
unfolding dispatch_backoff
set_retried attempts error now d = record d {
  attempts = attempts;
  last_error = some error;
  next_attempt_at = now + dispatch_backoff attempts;
}

abbrev pub set_published : ℕ → Dispatch → Dispatch
set_published now d = record d {
  state = published;
  published_at = some now;
  attempts = d.attempts + 1;
  last_error = none;
}

abbrev pub on_dispatches : {L Q : Type 0} → String → (Dispatch → Dispatch) → World L Q → World L Q
on_dispatches id f w = record w { dispatches = update_where (with_id id) f w.dispatches }

-- `metadata["dispatch_id"] = dispatchID` and `metadata["reason"] = reason`.
unfoldable pub redispatched_event :
    String → Reason → String → String → State → String → Dict Detail → Event
redispatched_event id reason actor actor_type status dispatch_id metadata = record {
  actor_id = actor;
  actor_type = actor_type;
  action = "remediation.redispatched";
  resource_type = "remediation";
  resource_id = id;
  before_state = ("status", state_of status) ∷ [];
  after_state = ("status", state_of status) ∷ [];
  metadata =
      insert "reason" (word (reason_name reason))
        (insert "dispatch_id" (word dispatch_id) metadata);
}

abbrev pub of_remediation : String → Dispatch → Bool
of_remediation id d = str_eq d.remediation_id id

unfoldable pub redispatch_id : String → Action → Reason → ℕ → String
unfolding reservation_event_id
redispatch_id fresh a reason count =
    reservation_event_id fresh a ^++ "#" ^++ reason_name reason ^++ "-" ^++ decimal (count + 1)

module _ {L Q : Type 0} (write : Event → L → Option L) where
  -- `audit.WriteTx`
  unfoldable pub write_entry : Event → World L Q → Result JobError (World L Q)
  write_entry event w = do
    ledger ← or_err audit_failed (write event w.ledger)
    ok (record w { ledger = ledger })

  -- `auditor.Record`, whose failure the code ignores.
  unfoldable pub record_entry : Event → World L Q → World L Q
  record_entry event w = elim (write event w.ledger) [
    | none ↦ w
    | some ledger ↦ record w { ledger = ledger }
  ]

  -- `redispatchTx`
  unfoldable pub redispatch_tx :
      String
      → String
      → Reason
      → String
      → String
      → Dict Detail
      → ℕ
      → World L Q
      → Result JobError (World L Q × String)
  unfolding enqueue write_entry redispatch_id redispatched_event
  redispatch_tx fresh id reason actor actor_type metadata now w =
      or_err not_found (find_action id w.actions) >>= λ a.
      if not (dispatchable a.status)
      then err not_dispatchable
      else let dispatch_id =
          redispatch_id fresh a reason (count_where (of_remediation id) w.dispatches) in
        enqueue a dispatch_id reason now w.dispatches >>= λ rows.
        write_entry (redispatched_event id reason actor actor_type a.status dispatch_id metadata)
          (record w { dispatches = rows })
        >>= λ w'. ok (w', dispatch_id)

-- `ORDER BY ... LIMIT $2`
unfoldable pub due_batch : {L Q : Type 0} → String → ℕ → ℕ → World L Q → List Pending
unfolding select_due sort_pending
due_batch only_id batch_size now w =
    take batch_size (sort_pending (select_due only_id now w.actions w.dispatches))

-- `Publish` on the stream, with the text of its error; it may fail after the stream took the event.
module _ {L Q : Type 0} (publish : Message → Q → Q × Option String) where
  -- The loop over the batch: the first failure ends it.
  unfoldable pub publish_batch : ℕ → List Pending → World L Q → World L Q × ℕ
  publish_batch now [] w = (w, 0)
  publish_batch now ((d, status) ∷ rest) w =
      let w' = record w { stream = (publish d.event w.stream).0 } in
      let after_skip = publish_batch now rest (on_dispatches d.id (set_skipped status) w) in
      let after_publish = publish_batch now rest (on_dispatches d.id (set_published now) w') in
      if not (dispatchable status) then after_skip else elim (publish d.event w.stream).1 [
        | some error ↦ (on_dispatches d.id (set_retried (d.attempts + 1) error now) w', 0)
        | none ↦ (after_publish.0, after_publish.1 + 1)
      ]

  -- `publish`, and with "" for the identifier `PublishPending`.
  unfoldable pub publish_due : String → ℕ → ℕ → World L Q → World L Q × ℕ
  unfolding publish_batch due_batch
  publish_due only_id batch_size now w = publish_batch now (due_batch only_id batch_size now w) w

  -- `Redispatch`
  unfoldable pub redispatch_now :
      (Event → L → Option L)
      → String
      → String
      → Reason
      → String
      → String
      → Dict Detail
      → ℕ
      → ℕ
      → World L Q
      → World L Q × Result JobError String
  unfolding redispatch_tx publish_due
  redispatch_now write fresh id reason actor actor_type metadata batch_size now w =
      elim (redispatch_tx write fresh id reason actor actor_type metadata now w) [
        | err e ↦ (w, err e)
        | ok (w', dispatch_id) ↦ ((publish_due dispatch_id batch_size now w').0, ok dispatch_id)
      ]
