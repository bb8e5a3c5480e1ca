-- ===== src/Jobs/Reconcile.antt =====
-- `Reconcile` of internal/remediation/dispatch.go, and the configuration of the dispatcher. The poll
-- intervals and the timeout of a publish are left out, as are metrics and logs.
use argus.Base.{
  ℕ, zero, suc, ◌+◌, ◌*◌, String, Bool, true, false, not, ◌&&◌, ◌||◌, Option, none, some, List, [],
  ◌∷◌, ◌++◌, take, elem, ltb, leb, decimal, if◌then◌else◌,
}
use argus.Base.Result.{Result, ok, err, ◌>>=◌}
use argus.Actions.{text}
use argus.Approvals.{Event, state_of, word, number, count_where}
use argus.Remediation.States.{State, queued, running, timed_out}
use argus.Jobs.{
  Action, Reason, redispatch, Message, Dispatch, Heartbeat, World, JobError, state_changed,
}
use argus.Jobs.Store.{complete_remediation}
use argus.Jobs.Outbox.{
  second, state_name, of_remediation, is_pending, write_entry, redispatch_tx, publish_due, ◌^++◌,
}

-- `DispatcherConfig`; a field that is not positive is 0.
pub record Config : Type 0 where
  pub batch_size : ℕ
  pub redispatch_after : ℕ
  pub max_redispatches : ℕ
  pub running_stale_after : ℕ
  pub worker_live_window : ℕ

-- `DefaultDispatcherConfig`
abbrev pub default_config : Config
default_config = record {
  batch_size = 50;
  redispatch_after = 600 * second;
  max_redispatches = 3;
  running_stale_after = 900 * second;
  worker_live_window = 60 * second;
}

abbrev or_default : ℕ → ℕ → ℕ
or_default zero d = d
or_default (suc n) d = suc n

-- `NewDispatcher`
unfoldable pub with_defaults : Config → Config
with_defaults c = record {
  batch_size = or_default c.batch_size default_config.batch_size;
  redispatch_after = or_default c.redispatch_after default_config.redispatch_after;
  max_redispatches = or_default c.max_redispatches default_config.max_redispatches;
  running_stale_after = or_default c.running_stale_after default_config.running_stale_after;
  worker_live_window = or_default c.worker_live_window default_config.worker_live_window;
}

abbrev pub is_redispatch : Reason → Bool
is_redispatch redispatch = true
is_redispatch _ = false

abbrev pub later : ℕ → Option ℕ → Option ℕ
later t none = some t
later t (some u) = if ltb t u then some u else some t

-- `max(x.created_at)` of the dispatches with another reason; none is '-infinity'.
unfoldable pub last_request : String → List Dispatch → Option ℕ
last_request id [] = none
last_request id (d ∷ rest) =
    let last = last_request id rest in
    if of_remediation id d && not (is_redispatch d.reason) then later d.created_at last else last

abbrev pub after : Option ℕ → ℕ → Bool
after none t = true
after (some u) t = ltb u t

abbrev pub is_repeat : String → Option ℕ → Dispatch → Bool
is_repeat id last d = of_remediation id d && is_redispatch d.reason && after last d.created_at

-- The redispatches since the last execute or replay.
unfoldable pub redispatches : String → List Dispatch → ℕ
unfolding last_request
redispatches id rows = count_where (is_repeat id (last_request id rows)) rows

-- `t < now() - make_interval(secs => $1)`, where a time may be NULL.
abbrev pub older : Option ℕ → ℕ → ℕ → Bool
older none interval now = false
older (some t) interval now = ltb (t + interval) now

abbrev pub newer : Option ℕ → ℕ → ℕ → Bool
newer none interval now = false
newer (some t) interval now = ltb now (t + interval)

unfoldable pub any_dispatch : (Dispatch → Bool) → List Dispatch → Bool
any_dispatch p [] = false
any_dispatch p (d ∷ rest) = p d || any_dispatch p rest

abbrev pub overdue : State → Action → Config → ℕ → List Dispatch → Bool
overdue queued a c now rows = older a.queued_at c.redispatch_after now
overdue running a c now rows =
    older a.started_at c.running_stale_after now && any_dispatch (of_remediation a.id) rows
overdue _ a c now rows = false

abbrev pub is_recent : String → ℕ → ℕ → Dispatch → Bool
is_recent id interval now d =
    of_remediation id d
    && (is_pending d.state
        || newer (some d.created_at) interval now
        || newer d.published_at interval now)

-- The `WHERE` of the search for stuck remediations.
unfoldable pub is_stuck : Config → ℕ → List Dispatch → Action → Bool
unfolding any_dispatch
is_stuck c now rows a =
    overdue a.status a c now rows && not (any_dispatch (is_recent a.id c.redispatch_after now) rows)

unfoldable pub has_worker : ℕ → ℕ → String → List Heartbeat → Bool
has_worker window now action [] = false
has_worker window now action (h ∷ rest) =
    (newer (some h.last_heartbeat_at) window now && elem action h.supported_actions)
    || has_worker window now action rest

unfoldable pub select_where : (Action → Bool) → List Action → List Action
select_where p [] = []
select_where p (a ∷ rest) = let others = select_where p rest in if p a then a ∷ others else others

-- `ORDER BY r.queued_at`, with NULL last.
abbrev pub queued_before : Option ℕ → Option ℕ → Bool
queued_before none u = false
queued_before (some t) none = true
queued_before (some t) (some u) = ltb t u

unfoldable pub insert_stuck : Action → List Action → List Action
insert_stuck a [] = a ∷ []
insert_stuck a (b ∷ rest) =
    if queued_before b.queued_at a.queued_at then b ∷ insert_stuck a rest else a ∷ b ∷ rest

unfoldable pub sort_stuck : List Action → List Action
unfolding insert_stuck
sort_stuck [] = []
sort_stuck (a ∷ rest) = insert_stuck a (sort_stuck rest)

-- A row of the search.
pub record Stuck : Type 0 where
  pub id : String
  pub status : State
  pub redispatches : ℕ
  pub has_worker : Bool

unfoldable pub stuck_rows : Config → ℕ → List Dispatch → List Heartbeat → List Action → List Stuck
unfolding redispatches has_worker
stuck_rows c now rows workers [] = []
stuck_rows c now rows workers (a ∷ rest) =
    record {
      id = a.id;
      status = a.status;
      redispatches = redispatches a.id rows;
      has_worker = has_worker c.worker_live_window now a.action_type workers;
    }
    ∷ stuck_rows c now rows workers rest

unfoldable pub find_stuck : {L Q : Type 0} → Config → ℕ → World L Q → List Stuck
unfolding stuck_rows sort_stuck select_where is_stuck
find_stuck c now w =
    stuck_rows c now w.dispatches w.heartbeats
      (take 100 (sort_stuck (select_where (is_stuck c now w.dispatches) w.actions)))

-- `ReconcileResult`
pub record Outcome : Type 0 where
  pub redispatched : List String
  pub exhausted : List String
  pub waiting_for_worker : List String

abbrev pub nothing_done : Outcome
nothing_done = record { redispatched = []; exhausted = []; waiting_for_worker = [] }

-- `requireApplied`
abbrev pub require_applied : List Action × Bool → Result JobError (List Action)
require_applied (rows, true) = ok rows
require_applied (rows, false) = err state_changed

abbrev pub exhausted_reason : ℕ → String
exhausted_reason n = "no worker completed the job after " ^++ decimal n ^++ " redispatches"

unfoldable pub exhausted_event : Stuck → Event
exhausted_event s = record {
  actor_id = "";
  actor_type = "system";
  action = "remediation.dispatch_exhausted";
  resource_type = "remediation";
  resource_id = s.id;
  before_state = ("status", state_of s.status) ∷ [];
  after_state =
      ("status", state_of timed_out) ∷ ("error", word (exhausted_reason s.redispatches)) ∷ [];
  metadata = [];
}

module _ {L Q : Type 0} (write : Event → L → Option L) (fresh : String → String) (c : Config)
    (now : ℕ) where
  -- The branch of a job that was sent too often.
  unfoldable pub exhaust : Stuck → World L Q → Result JobError (World L Q)
  unfolding complete_remediation write_entry exhausted_event
  exhaust s w =
      let reason = exhausted_reason s.redispatches in
      require_applied (
        complete_remediation s.id timed_out (some (("reason", text reason) ∷ [])) reason now
          w.actions)
      >>= λ actions. write_entry write (exhausted_event s) (record w { actions = actions })

  -- The branch of a job that is sent again.
  unfoldable pub resend : Stuck → World L Q → Result JobError (World L Q × String)
  unfolding redispatch_tx
  resend s =
      redispatch_tx write (fresh s.id) s.id redispatch "" "system"
        (("redispatch", number (s.redispatches + 1))
          ∷ ("max_redispatches", number c.max_redispatches)
          ∷ ("stuck_in", word (state_name s.status))
          ∷ [])
        now

  -- The body of the loop over the stuck remediations.
  unfoldable pub settle_one : Stuck → World L Q × Outcome → Result JobError (World L Q × Outcome)
  unfolding exhaust resend
  settle_one s (w, o) =
      if not s.has_worker
      then ok (w, record o { waiting_for_worker = o.waiting_for_worker ++ s.id ∷ [] })
      else if leb c.max_redispatches s.redispatches
      then (exhaust s w >>= λ w'. ok (w', record o { exhausted = o.exhausted ++ s.id ∷ [] }))
      else (resend s w >>= λ r. ok (r.0, record o { redispatched = o.redispatched ++ s.id ∷ [] }))

  unfoldable pub settle_stuck :
      List Stuck → World L Q × Outcome → Result JobError (World L Q × Outcome)
  unfolding settle_one
  settle_stuck [] p = ok p
  settle_stuck (s ∷ rest) p = settle_one s p >>= settle_stuck rest

  -- The transaction of `Reconcile`; `locked` says whether it got the lock.
  unfoldable pub reconcile_tx : Bool → World L Q → World L Q × Result JobError Outcome
  unfolding settle_stuck find_stuck
  reconcile_tx locked w =
      if not locked
      then (w, ok nothing_done)
      else elim (settle_stuck (find_stuck c now w) (w, nothing_done)) [
        | err e ↦ (w, err e)
        | ok (w', o) ↦ (w', ok o)
      ]

  -- What follows the transaction.
  unfoldable pub publish_resent :
      (Message → Q → Q × Option String)
      → World L Q × Result JobError Outcome
      → World L Q × Result JobError Outcome
  unfolding publish_due
  publish_resent publish (w, err e) = (w, err e)
  publish_resent publish (w, ok o) = elim o.redispatched [
    | [] ↦ (w, ok o)
    | id ∷ rest ↦ ((publish_due publish "" c.batch_size now w).0, ok o)
  ]

  -- `Reconcile`
  unfoldable pub reconcile :
      (Message → Q → Q × Option String) → Bool → World L Q → World L Q × Result JobError Outcome
  unfolding reconcile_tx publish_resent
  reconcile publish locked w = publish_resent publish (reconcile_tx locked w)
