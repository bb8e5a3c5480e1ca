-- ===== src/Correlation/Table.antt =====
-- The compiled rule table: `DefaultRules` of internal/correlation/rules.go. Weights are in units of
-- 1/10000, thresholds in units of 1/100.
use argus.Base.{String, Bool, true, false, List, [], ◌∷◌}
use argus.Base.Int.{pos}
use argus.Actions.{
  int, bool, drain_postgres_connections, resize_connection_pool, restart_pod, purge_cache,
  rollback_config, reload_nginx, toggle_feature_flag,
}
use argus.Evidence.{Probe, at_least, prometheus, loki}
use argus.Correlation.Rules.{CandidateTemplate, Rule}
use Prim.Native.Nat.{ℕ}
use Prim.Native.String

abbrev error_ratio_query : String
error_ratio_query =
    "sum(rate(http_requests_total{service=\"{{service}}\",status=~\"5..\"}[5m])) / sum(rate(http_requests_total{service=\"{{service}}\"}[5m]))"

abbrev p95_latency_query : String
p95_latency_query =
    "histogram_quantile(0.95, sum by (le) (rate(http_request_duration_seconds_bucket{service=\"{{service}}\"}[5m])))"

abbrev pub error_ratio_probe : String → ℕ → Probe
error_ratio_probe id weight = record {
  id = id;
  backend = prometheus;
  query = error_ratio_query;
  comparator = at_least;
  threshold = pos 5;
  weight = pos weight;
  claim = "5xx response ratio is at or above 5%";
  symptom = true;
}

abbrev pub log_probe : String → String → String → ℕ → Probe
log_probe id filter claim weight = record {
  id = id;
  backend = loki;
  query =
      String.◌++◌ "sum(count_over_time({service=\"{{service}}\"} " (String.◌++◌ filter " [10m]))");
  comparator = at_least;
  threshold = pos 100;
  weight = pos weight;
  claim = claim;
  symptom = false;
}

-- A probe of a metric, by its fields that are not always the same.
abbrev metric_probe : String → String → ℕ → ℕ → String → Bool → Probe
metric_probe id query threshold weight claim symptom = record {
  id = id;
  backend = prometheus;
  query = query;
  comparator = at_least;
  threshold = pos threshold;
  weight = pos weight;
  claim = claim;
  symptom = symptom;
}

-- A remediation of medium risk of the service itself.
abbrev on_service : String → CandidateTemplate
on_service action = record {
  action_type = action;
  target_label = "";
  fallback_to_service = false;
  target_format = "";
  parameters = [];
  risk = "medium";
}

abbrev pod_restart : CandidateTemplate
pod_restart = record {
  action_type = restart_pod;
  target_label = "pod";
  fallback_to_service = true;
  target_format = "local/%s";
  parameters = [];
  risk = "medium";
}

abbrev pub postgres_rule : Rule
postgres_rule = record {
  id = "postgres_connection_exhaustion";
  hypothesis = "PostgreSQL connection pool exhaustion";
  alert_names =
      "PaymentsAPIPostgresConnectionExhaustion" ∷ "PaymentsAPIPostgresPoolSaturation"
      ∷ "PostgresConnectionPoolExhausted" ∷ [];
  probes =
      metric_probe "postgres_pool_utilisation"
        "max(db_connection_pool_in_use{service=\"{{service}}\"} / db_connection_pool_max{service=\"{{service}}\"})"
        90 2000 "connection pool utilisation is at or above 90%" false
      ∷ error_ratio_probe "postgres_service_error_ratio" 1000
      ∷ log_probe "postgres_acquisition_timeout_logs" "|= \"connection acquisition timeout\""
          "logs contain postgres connection acquisition timeouts" 2000
      ∷ [];
  remediations =
      on_service drain_postgres_connections
      ∷ record (on_service resize_connection_pool) { parameters = ("size", int (pos 20)) ∷ [] }
      ∷ pod_restart
      ∷ [];
}

abbrev pub redis_rule : Rule
redis_rule = record {
  id = "redis_memory_pressure";
  hypothesis = "Redis memory pressure causing cache degradation";
  alert_names = "PaymentsAPIRedisMemoryPressure" ∷ "RedisMemoryPressure" ∷ "RedisMemoryHigh" ∷ [];
  probes =
      metric_probe "redis_memory_utilisation"
        "max(redis_memory_used_bytes{service=\"{{service}}\"} / redis_memory_max_bytes{service=\"{{service}}\"})"
        90 2000 "redis memory usage is at or above 90% of maxmemory" false
      ∷ metric_probe "redis_operation_errors"
          "sum(increase(redis_operation_errors_total{service=\"{{service}}\"}[10m]))" 100 1500
          "redis operation errors increased in the last 10 minutes" false
      ∷ log_probe "redis_memory_pressure_logs" "|= \"redis memory pressure\""
          "logs report redis memory pressure" 1500
      ∷ [];
  remediations =
      record (on_service purge_cache) {
        target_label = "cache_key_pattern";
        parameters = ("max_keys", int (pos 500)) ∷ [];
      }
      ∷ [];
}

abbrev pub nginx_rule : Rule
nginx_rule = record {
  id = "nginx_upstream_config";
  hypothesis = "Nginx upstream misconfiguration or bad route rollout";
  alert_names = "Nginx5xxSpike" ∷ "NginxUpstreamErrors" ∷ [];
  probes =
      metric_probe "nginx_5xx_ratio"
        "sum(rate(nginx_http_requests_total{service=\"{{service}}\",status=~\"5..\"}[5m])) / sum(rate(nginx_http_requests_total{service=\"{{service}}\"}[5m]))"
        5 2000 "edge 5xx response ratio is at or above 5%" true
      ∷ log_probe "nginx_upstream_error_logs" "|= \"upstream\"" "edge logs report upstream errors"
          1500
      ∷ [];
  remediations = on_service rollback_config ∷ on_service reload_nginx ∷ [];
}

abbrev pub latency_rule : Rule
latency_rule = record {
  id = "dependency_latency";
  hypothesis = "Downstream dependency latency dominates the request path";
  alert_names = "PaymentsAPIDependencyLatency" ∷ "DownstreamDependencyLatency" ∷ [];
  probes =
      metric_probe "service_p95_latency" p95_latency_query 80 2000
        "p95 request latency is at or above 800ms" true
      ∷ log_probe "dependency_latency_logs" "|= \"latency dominated\""
          "logs attribute request latency to a downstream dependency" 1500
      ∷ [];
  remediations =
      record (on_service toggle_feature_flag) {
        target_label = "degradable_feature_flag";
        parameters = ("enabled", bool false) ∷ [];
      }
      ∷ [];
}

abbrev pub rollout_rule : Rule
rollout_rule = record {
  id = "bad_config_rollout";
  hypothesis = "Bad config rollout introduced an invalid runtime configuration";
  alert_names = "PaymentsAPIBadConfigRollout" ∷ "ConfigRolloutFailed" ∷ [];
  probes =
      log_probe "config_parse_error_logs" "|~ \"config parse|invalid config\""
        "logs contain configuration parse errors" 2500
      ∷ error_ratio_probe "config_service_error_ratio" 1000
      ∷ [];
  remediations = on_service rollback_config ∷ pod_restart ∷ [];
}

-- `DefaultRules`
abbrev pub default_rules : List Rule
default_rules = postgres_rule ∷ redis_rule ∷ nginx_rule ∷ latency_rule ∷ rollout_rule ∷ []
