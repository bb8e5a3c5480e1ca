-- ===== src/Workers/Handlers/Repeats.antt =====
-- A job that is delivered again: the messages of internal/workers/runner.go with the handlers of
-- internal/workers/typed_handlers.go and the receipts of internal/workers/control_state.go.
use argus.Base.{
  ℕ, String, ◌≡◌, refl, ap, sym, Bool, true, false, Option, some, List, Dict, lookup, str_eq,
  Bool-cases, Option-cases, inl, inr, if◌then◌else◌,
}
use mathlib.Core.Path.{subst}
use argus.Base.Result.{ok, Result-cases}
use argus.Actions.{Value}
use argus.Approvals.{Event}
use argus.Jobs.{Action, Message, World}
use argus.Jobs.Store.{find_action, is_open, claim_remediation}
use argus.Jobs.Runner.{
  Handler, Delivery, Ending, done, run_handler, claim_and_run, handle_read, handle_message,
}
use argus.Workers.ControlState.{Faults, Outcome, Tables, apply_once}
use argus.Workers.ControlState.Once.{Job, handle, handle_all, no_faults, apply_once-once}
use argus.Workers.Handlers.{
  Wish, validate_typed_request, ending_of, execute_typed, dry_run_typed, typed_handler,
}

-- The call of `ApplyOnce` that a typed handler makes.
abbrev pub call_of : Faults → String → Wish → Action → Job Value
call_of faults action wish req = record {
  faults = faults;
  key = req.idempotency_key;
  action = action;
  kind = wish.0;
  target = req.target;
  desired = wish.1 req;
}

execute-keeps :
    (action : String) (wish : Wish) (req : Action) (t : Tables Value)
    → (apply_once no_faults req.idempotency_key action wish.0 req.target (wish.1 req) t).0 ≡ t
    → (execute_typed no_faults action wish req t).0 ≡ t
unfolding execute_typed
execute-keeps action wish req t again = elim (Option-cases (validate_typed_request action req)) [
  | inl good ↦ rw (good, execute_typed) again
  | inr (e, bad) ↦ rw (bad, execute_typed) refl
]

dry_run-keeps :
    (faults : Faults) (action : String) (wish : Wish) (req : Action) (t : Tables Value)
    → (dry_run_typed faults action wish req t).0 ≡ t
unfolding dry_run_typed
dry_run-keeps faults action wish req t = elim (Option-cases (validate_typed_request action req)) [
  | inl good ↦ rw (good, dry_run_typed) refl
  | inr (e, bad) ↦ rw (bad, dry_run_typed) refl
]

either-keeps :
    (b : Bool) (t : Tables Value) (x y : Tables Value × Ending)
    → x.0 ≡ t
    → y.0 ≡ t
    → (if b then x else y).0 ≡ t
either-keeps true t x y h k = h
either-keeps false t x y h k = k

-- A typed handler leaves the tables alone where its `ApplyOnce` does.
typed-keeps :
    (action : String) (wish : Wish) (req : Action) (t : Tables Value)
    → (apply_once no_faults req.idempotency_key action wish.0 req.target (wish.1 req) t).0 ≡ t
    → (run_handler (typed_handler no_faults action wish) req t).0 ≡ t
unfolding run_handler typed_handler
typed-keeps action wish req t again =
    either-keeps req.dry_run t (dry_run_typed no_faults action wish req t)
      (execute_typed no_faults action wish req t) (dry_run-keeps no_faults action wish req t)
      (execute-keeps action wish req t again)

-- What a typed handler that succeeded did.
executed-applies :
    (faults : Faults) (action : String) (wish : Wish) (req : Action) (t : Tables Value)
    (map : Option (Dict Value))
    → (execute_typed faults action wish req t).1 ≡ done map
    → ((execute_typed faults action wish req t).0 ≡ handle (call_of faults action wish req) t)
      × ((o : Outcome Value) × ((apply_once faults req.idempotency_key action wish.0 req.target
              (wish.1 req)
              t).1
            ≡ ok o))
unfolding execute_typed ending_of handle
executed-applies faults action wish req t map h =
    let r = apply_once faults req.idempotency_key action wish.0 req.target (wish.1 req) t in
    elim (Option-cases (validate_typed_request action req)) [
      | inr (e, bad) ↦ absurd (cc (rw (bad, execute_typed) at h))
      | inl good ↦ elim (Result-cases r.1) [
        | inl (o, applied) ↦ (rw (good, execute_typed) refl, (o, applied))
        | inr (e, failed') ↦ absurd (cc (rw (good, failed', execute_typed) at h))
      ]
    ]

module _ {L Q : Type 0} (write : Event → L → Option L) (before during : World L Q → World L Q) where
  -- The state of the handlers changes only by the handler of the action.
  handle_message-tables :
      {T : Type 0} (max_deliver : ℕ) (handlers : Dict (Handler T)) (d : Delivery) (m : Message)
      (a : Action) (h : Handler T) (now : ℕ) (w : World L Q) (t : T)
      → d.event ≡ some m
      → find_action m.remediation_id w.actions ≡ some a
      → lookup a.action_type handlers ≡ some h
      → (run_handler h a t).0 ≡ t
      → (handle_message write before during max_deliver handlers d now w t).0.1 ≡ t
  unfolding handle_message handle_read claim_and_run
  handle_message-tables max_deliver handlers d m a h now w t event found there kept =
      elim (Bool-cases (str_eq m.remediation_id "")) [
        | inl empty ↦ rw (event, empty) refl
        | inr named ↦ elim (Bool-cases (is_open a.status)) [
          | inr closed ↦ rw (event, named, found, closed) refl
          | inl open' ↦ elim (Option-cases (h.validate a)) [
            | inr (e, bad) ↦ rw (event, named, found, open', there, bad) refl
            | inl good ↦ elim (Bool-cases (claim_remediation a.id now (before w).actions).1) [
              | inl yes' ↦ rw (event, named, found, open', there, good, yes') kept
              | inr no' ↦ rw (event, named, found, open', there, good, no') refl
            ]
          ]
        ]
      ]

  -- A job whose handler once succeeded is not done again: whatever calls of `ApplyOnce` come between,
  -- a message that is handled on a working database by a typed handler, for a row with the same
  -- idempotency key, leaves the states and the receipts as they are, whether or not the first success
  -- was recorded, however often the message was delivered, whatever else the row says by then, and
  -- whatever others do meanwhile.
  pub redelivery-keeps :
      (max_deliver : ℕ) (handlers : Dict (Handler (Tables Value))) (d : Delivery) (m : Message)
      (a b : Action) (faults : Faults) (action action' : String) (wish wish' : Wish)
      (jobs : List (Job Value)) (now : ℕ) (w : World L Q) (t : Tables Value)
      (map : Option (Dict Value))
      → (execute_typed faults action wish a t).1 ≡ done map
      → b.idempotency_key ≡ a.idempotency_key
      → d.event ≡ some m
      → find_action m.remediation_id w.actions ≡ some b
      → lookup b.action_type handlers ≡ some (typed_handler no_faults action' wish')
      → let later = handle_all jobs (execute_typed faults action wish a t).0 in
        (handle_message write before during max_deliver handlers d now w later).0.1 ≡ later
  redelivery-keeps max_deliver handlers d m a b faults action action' wish wish' jobs now w t map
        ran key event found there =
      let (same, (o, applied)) = executed-applies faults action wish a t map ran in
      let later = handle_all jobs (execute_typed faults action wish a t).0 in
      let shape : handle_all jobs (handle (call_of faults action wish a) t) ≡ later =
        ap (λ x. handle_all jobs x) (sym same) in
      let once =
        apply_once-once (call_of faults action wish a) t o jobs action' wish'.0 b.target (wish'.1 b)
          applied in
      let kept : (apply_once no_faults a.idempotency_key action' wish'.0 b.target (wish'.1 b)
            later).0
          ≡ later =
        subst
          (λ x.
            (apply_once no_faults a.idempotency_key action' wish'.0 b.target (wish'.1 b) x).0 ≡ x)
          shape (ap (λ r. r.0) once) in
      let again =
        subst (λ k. (apply_once no_faults k action' wish'.0 b.target (wish'.1 b) later).0 ≡ later)
          (sym key) kept in
      handle_message-tables max_deliver handlers d m b (typed_handler no_faults action' wish') now w
        later event found there (typed-keeps action' wish' b later again)
