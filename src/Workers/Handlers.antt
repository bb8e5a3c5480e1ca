-- ===== src/Workers/Handlers.antt =====
-- The handlers: internal/workers/typed_handlers.go and the static ones of
-- internal/workers/runner.go. A handler is one of the runner's, on the tables of the control state;
-- which calls of the database fail is an argument.
pub mod Repeats
use argus.Base.{
  String, Bool, true, false, not, ◌==◌, Option, none, some, List, [], ◌∷◌, Dict, str_eq,
  if◌then◌else◌,
}
use Prim.Native.Char.{code}
use argus.Base.Result.{Result, ok, err}
use argus.Base.Int.{ℤ, pos}
use argus.Actions.{
  Value, int, bool, text, other, get_or, integer, parameter, validate, restart_pod,
  resize_connection_pool, toggle_feature_flag, purge_cache, restart_service, rollback_config,
  reload_nginx, clear_redis_keyspace, drain_postgres_connections, revert_feature_flag,
  disable_bad_route,
}
use argus.Jobs.{Action}
use argus.Jobs.Runner.{Ending, done, failing, exceeded, Handler}
use argus.Workers.ControlState.{ControlError, Faults, Outcome, Tables, preview, apply_once}

-- `strings.Cut(req.Target, "/")`
unfoldable pub cut_slash : String → String × String
cut_slash String.[] = (String.[], String.[])
cut_slash (String.◌∷◌ c s) =
    let (before, after) = cut_slash s in
    if code c == b'/' then (String.[], s) else (String.◌∷◌ c before, after)

-- The size that `actions.Integer` returns, 0 where it returns none.
unfoldable pub whole_parameter : Action → String → Value
whole_parameter req key = int (get_or (integer (parameter req.parameters key)) (pos 0))

-- The kind of the resource and the desired state of a typed handler.
abbrev pub Wish : Type 0
Wish = String × (Action → Dict Value)

unfoldable pub pod_restart : Wish
unfolding cut_slash
pod_restart = (
  "pod",
  λ req.
      ("namespace", text (cut_slash req.target).0)
      ∷ ("pod", text (cut_slash req.target).1)
      ∷ ("restart_token", text req.idempotency_key)
      ∷ [],
)

unfoldable pub pool_resize : Wish
unfolding whole_parameter
pool_resize = ("connection_pool", λ req. ("max_connections", whole_parameter req "size") ∷ [])

unfoldable pub flag_toggle : Wish
flag_toggle = ("feature_flag", λ req. ("enabled", parameter req.parameters "enabled") ∷ [])

unfoldable pub cache_purge : Wish
unfolding whole_parameter
cache_purge = (
  "cache_prefix",
  λ req.
      ("max_keys", whole_parameter req "max_keys") ∷ ("purge_token", text req.idempotency_key) ∷ [],
)

-- `validateTypedRequest` with a backend; none is nil.
unfoldable pub validate_typed_request : String → Action → Option String
validate_typed_request action req =
    if str_eq req.idempotency_key ""
    then some "idempotency key is required"
    else if not (str_eq req.action_type action)
    then some "handler cannot execute action"
    else elim (validate action req.target req.parameters) [
      | none ↦ none
      | some e ↦ some "invalid request"
    ]

-- The map that `stateResult` makes; a state in it is a value of another kind.
unfoldable pub result_map : Outcome Value → Dict Value
result_map o =
    ("mode", text o.mode)
    ∷ ("backend", text o.backend)
    ∷ ("resource_type", text o.resource_type)
    ∷ ("target", text o.target)
    ∷ ("before", other)
    ∷ ("after", other)
    ∷ ("reused", bool o.reused)
    ∷ elim o.idempotency_key [ none ↦ [] | some key ↦ ("idempotency_key", text key) ∷ [] ]

unfoldable pub ending_of : Result ControlError (Outcome Value) → Ending
unfolding result_map
ending_of (ok o) = done (some (result_map o))
ending_of (err e) = failing none "control state"

-- `DryRun` of a typed handler.
unfoldable pub dry_run_typed :
    Faults → String → Wish → Action → Tables Value → Tables Value × Ending
unfolding ending_of
dry_run_typed faults action wish req tables = elim (validate_typed_request action req) [
  | some error ↦ (tables, failing none error)
  | none ↦ (tables, ending_of (preview faults wish.0 req.target (wish.1 req) tables))
]

-- `Execute` of a typed handler.
unfoldable pub execute_typed :
    Faults → String → Wish → Action → Tables Value → Tables Value × Ending
unfolding ending_of
execute_typed faults action wish req tables = elim (validate_typed_request action req) [
  | some error ↦ (tables, failing none error)
  | none ↦
      let r = apply_once faults req.idempotency_key action wish.0 req.target (wish.1 req) tables in
      (r.0, ending_of r.1)
]

unfoldable pub typed_handler : Faults → String → Wish → Handler (Tables Value)
typed_handler faults action wish = record {
  validate = validate_typed_request action;
  execute = execute_typed faults action wish;
  dry_run = dry_run_typed faults action wish;
}

-- `staticHandler`, with the message of its result.
unfoldable pub static_result : String → String → Action → Ending
static_result mode message req =
    done (some (("mode", text mode) ∷ ("message", text message) ∷ ("target", text req.target) ∷ []))

unfoldable pub static_handler : String → String → Handler (Tables Value)
unfolding static_result
static_handler name message = record {
  validate = λ req.
      if not (str_eq req.action_type name)
      then some "handler cannot execute action"
      else elim (validate req.action_type req.target req.parameters) [
        | none ↦ none
        | some e ↦ some "invalid request"
      ];
  execute = λ req tables. (tables, static_result "execute" message req);
  dry_run = λ req tables. (tables, static_result "dry-run" message req);
}

-- `DefaultHandlers` as the registry of `NewRunner`.
unfoldable pub default_handlers : Faults → Dict (Handler (Tables Value))
unfolding typed_handler static_handler
default_handlers faults =
    (
      restart_service,
      static_handler restart_service
          "Typed handler validated restart_service; local demo execution remains bounded and auditable",
    )
    ∷ (
      rollback_config,
      static_handler rollback_config
          "Typed handler validated rollback_config against known-good demo configuration",
    )
    ∷ (
      reload_nginx,
      static_handler reload_nginx "Typed handler validated nginx reload for the demo environment",
    )
    ∷ (
      clear_redis_keyspace,
      static_handler clear_redis_keyspace
          "Typed handler validated deletion scope for demo:pressure:* redis keys",
    )
    ∷ (
      drain_postgres_connections,
      static_handler drain_postgres_connections
          "Typed handler validated demo-only postgres connection drain",
    )
    ∷ (
      revert_feature_flag,
      static_handler revert_feature_flag
          "Typed handler validated optional notification feature flag revert",
    )
    ∷ (
      disable_bad_route,
      static_handler disable_bad_route
          "Typed handler validated disabling only the affected bad demo route",
    )
    ∷ (restart_pod, typed_handler faults restart_pod pod_restart)
    ∷ (resize_connection_pool, typed_handler faults resize_connection_pool pool_resize)
    ∷ (toggle_feature_flag, typed_handler faults toggle_feature_flag flag_toggle)
    ∷ (purge_cache, typed_handler faults purge_cache cache_purge)
    ∷ []
