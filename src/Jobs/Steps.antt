-- ===== src/Jobs/Steps.antt =====
-- Sequences of operations on the jobs: internal/remediation/service.go, internal/remediation/dispatch.go
-- and internal/workers/runner.go.
use argus.Base.{ℕ, String, ◌≡◌, Bool, true, Option, Dict}
use argus.Approvals.{Event, Detail}
use argus.Incidents.{Incident}
use argus.Jobs.{Action, Reason, Message, World}
use argus.Jobs.Outbox.{publish_due, redispatch_now}
use argus.Jobs.Reconcile.{Config, reconcile}
use argus.Jobs.Execution.{Executor, execute_read, execute_remediation, cancel_read}
use argus.Jobs.Runner.{Handler, Delivery, handle_message}
use argus.Jobs.Moves.{Advances}
use argus.Jobs.Follows.{Outboxed, Follows, Follows-refl, Follows-trans}
use argus.Jobs.Publishing.{publish_due-Follows, redispatch_now-Follows, reconcile-Follows}
use argus.Jobs.Working.{execute_read-Follows, execute_remediation-Follows, cancel_read-Follows}
use argus.Jobs.Handling.{handle_message-Follows}

module _ {L Q T : Type 0} (write : Event → L → Option L) (publish : Message → Q → Q × Option String)
    (handlers : Dict (Handler T)) where
  -- One operation, with an executor that goes through the outbox. `executed_stale` and `cancelled`
  -- act on any row whatever, as if it was read at some time before. While a message is handled,
  -- others may do what keeps `Follows`.
  pub data Step (w : World L Q) : World L Q → Type 0 where
    executed :
        (exec : Executor) (fresh : String) (batch_size : ℕ) (actor : String) (dry_run : Bool)
        (id : String) (now : ℕ)
        → exec.is_queued ≡ true
        → Step w (execute_remediation write publish exec fresh batch_size actor dry_run id now w).0
    executed_stale :
        (exec : Executor) (fresh : String) (batch_size : ℕ) (actor : String) (dry_run : Bool)
        (a : Action) (i : Incident) (now : ℕ)
        → exec.is_queued ≡ true
        → Step w (execute_read write publish exec fresh batch_size actor dry_run a i now w).0
    cancelled : (actor : String) (a : Action) (now : ℕ) → Step w (cancel_read write actor a now w).0
    published :
        (only_id : String) (batch_size now : ℕ)
        → Step w (publish_due publish only_id batch_size now w).0
    redispatched :
        (fresh id : String) (reason : Reason) (actor actor_type : String) (metadata : Dict Detail)
        (batch_size now : ℕ)
        → Step w
            (redispatch_now publish write fresh id reason actor actor_type metadata batch_size now
              w).0
    reconciled :
        (fresh : String → String) (c : Config) (now : ℕ) (locked : Bool)
        → Step w (reconcile write fresh c now publish locked w).0
    handled :
        (before during : World L Q → World L Q)
        → ((v : World L Q) → Follows v (before v))
        → ((v : World L Q) → Follows v (during v))
        → (max_deliver : ℕ) (d : Delivery) (now : ℕ) (t : T)
        → Step w (handle_message write before during max_deliver handlers d now w t).0.0

  -- Any number of operations, in any order.
  pub data Run (w : World L Q) : World L Q → Type 0 where
    stay : Run w w
    then_step : {v u : World L Q} → Run w v → Step v u → Run w u

  pub Step-Follows : {w w' : World L Q} → Step w w' → Follows w w'
  Step-Follows {w} (executed exec fresh batch_size actor dry_run id now outbox) =
      execute_remediation-Follows write publish exec fresh batch_size actor dry_run id now w outbox
  Step-Follows {w} (executed_stale exec fresh batch_size actor dry_run a i now outbox) =
      execute_read-Follows write publish exec fresh batch_size actor dry_run a i now w outbox
  Step-Follows {w} (cancelled actor a now) = cancel_read-Follows write actor a now w
  Step-Follows {w} (published only_id batch_size now) =
      publish_due-Follows publish only_id batch_size now w
  Step-Follows {w} (redispatched fresh id reason actor actor_type metadata batch_size now) =
      redispatch_now-Follows write publish fresh id reason actor actor_type metadata batch_size now
        w
  Step-Follows {w} (reconciled fresh c now locked) =
      reconcile-Follows write fresh c now publish locked w
  Step-Follows {w} (handled before during b d max_deliver message now t) =
      handle_message-Follows write before during b d max_deliver handlers message now w t

  Run-Follows_each : {w w' : World L Q} → Run w w' → Follows w w'
  Run-Follows_each {w} stay = Follows-refl w
  Run-Follows_each (then_step run s) = Follows-trans (Run-Follows_each run) (Step-Follows s)

  -- Whatever operations run in whatever order, each alone or with a row that it read earlier: if every
  -- queued remediation has a dispatch in the outbox before, every one has afterwards, and every
  -- remediation has kept its identifier and its content and moved along allowed transitions only, none
  -- of which leads to approved; so nothing that awaits approval is ever queued by them.
  pub Run-Outboxed :
      (w w' : World L Q) → Run w w' → Outboxed w → Outboxed w' × Advances w.actions w'.actions
  Run-Outboxed w w' run o = let f = Run-Follows_each run in (f.outboxed o, f.advances)
