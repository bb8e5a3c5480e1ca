-- ===== src/Actions/Names.antt =====
-- The constants and tables of internal/actions/catalog.go.
use argus.Base.{ℕ, String, List, [], ◌∷◌, Dict}

abbrev pub collect_diagnostics : String
collect_diagnostics = "collect_diagnostics"

abbrev pub restart_service : String
restart_service = "restart_service"

abbrev pub rollback_config : String
rollback_config = "rollback_config"

abbrev pub reload_nginx : String
reload_nginx = "reload_nginx"

abbrev pub clear_redis_keyspace : String
clear_redis_keyspace = "clear_redis_keyspace"

abbrev pub drain_postgres_connections : String
drain_postgres_connections = "drain_postgres_connections"

abbrev pub scale_worker_simulation : String
scale_worker_simulation = "scale_worker_simulation"

abbrev pub revert_feature_flag : String
revert_feature_flag = "revert_feature_flag"

abbrev pub disable_bad_route : String
disable_bad_route = "disable_bad_route"

abbrev pub restart_pod : String
restart_pod = "restart_pod"

abbrev pub resize_connection_pool : String
resize_connection_pool = "resize_connection_pool"

abbrev pub toggle_feature_flag : String
toggle_feature_flag = "toggle_feature_flag"

abbrev pub purge_cache : String
purge_cache = "purge_cache"

abbrev pub registered : List String
registered =
    collect_diagnostics ∷ restart_service ∷ rollback_config ∷ reload_nginx ∷ clear_redis_keyspace
    ∷ drain_postgres_connections ∷ scale_worker_simulation ∷ revert_feature_flag ∷ disable_bad_route
    ∷ restart_pod ∷ resize_connection_pool ∷ toggle_feature_flag ∷ purge_cache ∷ []

abbrev pub allowed_flags : List String
allowed_flags =
    "payments-api/optional-notifications" ∷ "payments-api/checkout-v2"
    ∷ "checkout-api/async-confirmation" ∷ []

abbrev pub risks : Dict String
risks =
    (collect_diagnostics, "low")
    ∷ (restart_service, "medium")
    ∷ (rollback_config, "medium")
    ∷ (reload_nginx, "medium")
    ∷ (clear_redis_keyspace, "medium")
    ∷ (drain_postgres_connections, "medium")
    ∷ (scale_worker_simulation, "medium")
    ∷ (revert_feature_flag, "medium")
    ∷ (disable_bad_route, "medium")
    ∷ (restart_pod, "medium")
    ∷ (resize_connection_pool, "medium")
    ∷ (toggle_feature_flag, "medium")
    ∷ (purge_cache, "medium")
    ∷ []

abbrev pub risk_rank : Dict ℕ
risk_rank = ("low", 1) ∷ ("medium", 2) ∷ ("high", 3) ∷ []
