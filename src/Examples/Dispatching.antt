-- ===== src/Examples/Dispatching.antt =====
-- Runs of internal/remediation/service.go, internal/remediation/dispatch.go and
-- internal/workers/runner.go: a feature flag is turned off.
use argus.Base.{
  ℕ, ◌+◌, ◌*◌, ◌≤◌, ◌⊎◌, length, String, ◌≡◌, refl, Bool, false, true, Option, none, some, List, [],
  ◌∷◌, ◌++◌, All, lookup, insert, str_eq, elem, codes, split_at,
}
use argus.Actions.{Value, bool, validate, validate_keys, missing, valid_dns_label, parameter}
use argus.Approvals.{Event}
use argus.Remediation.States.{approved, queued, running}
use argus.Incidents.{Incident, Status}
use argus.Jobs.{Action, Message, Dispatch, World, published, execute}
use argus.Jobs.Store.{find_action}
use argus.Jobs.Outbox.{job, second, new_dispatch, due_batch, publish_due, dispatch_backoff}
use argus.Jobs.Reconcile.{default_config, reconcile_tx, Outcome}
use argus.Jobs.Execution.{local_executor, reserved, execute_remediation}
use argus.Jobs.Runner.{Delivery, ack, handle_message, done, retry_delay}
use argus.Jobs.Moves.{Advances}
use argus.Jobs.Follows.{Outboxed}
use argus.Jobs.Steps.{stay, then_step, executed, Run-Outboxed}
use argus.Jobs.Settled.{IsHandled}
use argus.Jobs.Answered.{handle_message-IsHandled}
use argus.Jobs.Delays.{least, delays-double}
use argus.Jobs.Batches.{Among}
use argus.Jobs.Sending.{IsDue, IsReady, Sends, to_send, publish_due-Sends}
use argus.Workers.ControlState.{
  Tables, state_result, apply_once, apply_tx, apply_new, settle, stored, call, current_state,
  decode_column, is_target, find_state, find_receipt, merge_state, assign_all,
}
use argus.Workers.ControlState.Once.{no_faults, handle_all}
use argus.Workers.Handlers.{
  flag_toggle, execute_typed, validate_typed_request, result_map, ending_of, default_handlers,
}
use argus.Workers.Handlers.Repeats.{redelivery-keeps}

-- A ledger that counts its entries, and a stream that takes every event.
abbrev counting : Event → ℕ → Option ℕ
counting event n = some (n + 1)

abbrev accept : Message → List Message → List Message × Option String
accept m q = (q ++ m ∷ [], none)

abbrev flag_off : Action
flag_off = record {
  id = "rem1";
  incident_id = "inc1";
  action_type = "toggle_feature_flag";
  target = "payments-api/checkout-v2";
  parameters = ("enabled", bool false) ∷ [];
  status = approved;
  risk = "medium";
  idempotency_key = "key1";
  proposed_by = "ana";
  approved_by = "ben";
  policy_decision = [];
  dry_run = true;
  attempt = 1;
  max_attempts = 2;
  queued_at = none;
  started_at = none;
  completed_at = none;
  result = none;
  error = "";
  created_at = 10;
}

abbrev incident : Incident
incident = record {
  id = "inc1";
  status = Status.remediation_proposed;
  updated_at = 5;
  resolved_at = none;
}

abbrev world : World ℕ (List Message)
world = record {
  actions = flag_off ∷ [];
  dispatches = [];
  incidents = incident ∷ [];
  heartbeats = [];
  ledger = 0;
  stream = [];
}

-- The world after the execution was asked for.
abbrev executed_world : World ℕ (List Message)
executed_world =
    (execute_remediation counting accept local_executor "evt1" 50 "ana" false "rem1" 100 world).0

Run-Outboxed_example : Outboxed executed_world × Advances world.actions executed_world.actions
Run-Outboxed_example =
    Run-Outboxed counting accept (default_handlers no_faults) world executed_world
      (then_step stay (executed local_executor "evt1" 50 "ana" false "rem1" 100 refl))
      ((λ q. cc), tt)

delays-double_example :
    (dispatch_backoff 4 ≡ least 8 30 * second) × (retry_delay 4 ≡ least 8 60 * second)
delays-double_example = delays-double 3

-- The world of the reservation, before its job is sent.
abbrev queued_row : Action
queued_row = record flag_off { status = queued; queued_at = some 100; dry_run = false }

abbrev reserved_world : World ℕ (List Message)
reserved_world = record world {
  actions = queued_row ∷ [];
  dispatches = new_dispatch (reserved flag_off false 100) "key1@100" execute 100 ∷ [];
  ledger = 1;
}

publish_due-Sends_example :
    let batch = due_batch "" 50 100 reserved_world in
    All (IsDue "" 100 reserved_world.actions) batch
    × ((d : Dispatch) (a : Action)
        → Among d reserved_world.dispatches
        → IsReady "" 100 d
        → find_action d.remediation_id reserved_world.actions ≡ some a
        → Among (d, a.status) batch
          ⊎ ((length batch ≡ 50) × All (λ q. q.0.created_at ≤ d.created_at) batch))
    × Sends accept (to_send batch) reserved_world.stream (
      (publish_due accept "" 50 100 reserved_world).0.stream,
      (publish_due accept "" 50 100 reserved_world).1,
    )
publish_due-Sends_example = publish_due-Sends accept "" 50 100 reserved_world

-- The first delivery of the job.
abbrev sent : Message
sent = job queued_row "key1@100" 100

abbrev delivery : Delivery
delivery = record { event = some sent; deliveries = 1 }

abbrev no_tables : Tables Value
no_tables = record { states = []; receipts = [] }

abbrev stays : World ℕ (List Message) → World ℕ (List Message)
stays w = w

handle_message-IsHandled_example :
    let r =
      handle_message counting stays stays 5
        (default_handlers no_faults)
        delivery
        200
        reserved_world
        no_tables in
    IsHandled 5 1 "rem1" (r.0.0, r.1)
    × (◌≡◌ {A = Bool} true false
        → (r.1 ≡ ack) × (r.0.1 ≡ no_tables) × (r.0.0.actions ≡ reserved_world.actions))
unfolding job
handle_message-IsHandled_example =
    handle_message-IsHandled counting stays stays 5 (default_handlers no_faults) delivery sent
      queued_row 200 reserved_world no_tables (refl, tt) (refl, tt) refl (unfold str_eq in refl)
      (unfold find_action str_eq in refl)

toggled :
    (execute_typed no_faults "toggle_feature_flag" flag_toggle queued_row no_tables).1
    ≡ done (
        some (
          result_map (
            state_result "execute" "feature_flag" "payments-api/checkout-v2" []
              (("enabled", bool false) ∷ [])
              false
              (some "key1"))))
unfolding execute_typed flag_toggle validate_typed_request validate validate_keys missing parameter
    lookup elem codes split_at valid_dns_label str_eq ending_of apply_once apply_tx apply_new settle
    stored call current_state decode_column is_target find_state find_receipt merge_state assign_all
    insert state_result
toggled = refl

-- The row and the tables when the message comes again, since its first success was not recorded.
abbrev running_row : Action
running_row = record queued_row { status = running; started_at = some 200 }

redelivery-keeps_example :
    let later =
      handle_all []
        (execute_typed no_faults "toggle_feature_flag" flag_toggle queued_row no_tables).0 in
    (handle_message counting stays stays 5
      (default_handlers no_faults)
      delivery
      300
      (record reserved_world { actions = running_row ∷ [] })
      later).0.1
    ≡ later
unfolding job default_handlers
redelivery-keeps_example =
    redelivery-keeps counting stays stays 5 (default_handlers no_faults) delivery sent queued_row
      running_row no_faults "toggle_feature_flag" "toggle_feature_flag" flag_toggle flag_toggle []
      300 (record reserved_world { actions = running_row ∷ [] }) no_tables _ toggled refl refl
      (unfold find_action str_eq in refl) (unfold lookup str_eq in refl)

-- The job was sent and no worker took it; another worker is there.
abbrev lost_world : World ℕ (List Message)
lost_world = record reserved_world {
  dispatches =
      record (new_dispatch (reserved flag_off false 100) "key1@100" execute 100) {
        state = published;
        published_at = some 100;
      }
      ∷ [];
  heartbeats =
      record {
        worker_id = "w1";
        last_heartbeat_at = 5000 * second;
        supported_actions = "toggle_feature_flag" ∷ [];
      }
      ∷ [];
}

abbrev late : ℕ
late = 5000 * second

abbrev resent_world : World ℕ (List Message)
resent_world = (reconcile_tx counting (λ id. "evt2") default_config late true lost_world).0

abbrev outcome : Outcome
outcome = record { redispatched = "rem1" ∷ []; exhausted = []; waiting_for_worker = [] }
