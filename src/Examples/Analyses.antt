-- ===== src/Examples/Analyses.antt =====
-- Runs of internal/evidence/evidence.go, internal/correlation and internal/rca/service.go: an alert
-- that names the rollout rule, with a Loki that counts three parse errors.
use argus.Base.{
  String, ◌≡◌, ◌↔◌, refl, true, false, Option, none, some, List, [], ◌∷◌, All, Dict, lookup, insert,
  elem, codes, has_prefix, contains, count_code, str_eq, trim_space, replace_all,
}
use argus.Base.Int.{ℤ, pos, ◌≤ℤ◌}
use argus.Base.Result.{ok}
use argus.Actions.{is_registered, get_or}
use argus.Evidence.{
  finite, Probe, sample, Querier, Collector, loki, variable, render, safe_label_value, run_one,
  compare_value, validate_probe, label_inner,
}
use argus.Evidence.Render.{IsForbidden, render_safe}
use argus.Evidence.Observed.{IsObserved, verdict, run_one-verdict_iff}
use argus.Correlation.{
  string_map, Incident, Signal, Match, by_alert_name, Correlator, new_with_rules, match_signal,
  select, rule_at, label, signal_labels, signal_alert_name, signal_service,
}
use argus.Correlation.Rules.{Rule, validate_rules, count_text}
use argus.Correlation.Table.{rollout_rule, default_rules, log_probe}
use argus.Correlation.Identity.{IsSelected, match_by_identity}
use argus.Correlation.Weights.{IsScorable, validate_rules-IsScorable}
use argus.Rca.Score.{RuleEvidence, no_evidence, HypothesisScore, score_rule, baseline}
use argus.Rca.{IncidentTopology, analyze, score_hypotheses}
use argus.Rca.Confidence.{Dependent, score_rule-bounds}
use argus.Rca.Grouping.{IsMatched}
use argus.Rca.Ranking.{NotBetter, score_hypotheses-best}
use argus.Rca.Candidates.{IsProposal, analyze-IsProposal}
use argus.Rca.Final.{IsBounded, analyze-IsBounded}

abbrev three : Querier
three = λ query at. sample (finite (pos 300)) true

abbrev collector : Option Collector
collector = some (record { backends = (loki, three) ∷ [] })

abbrev parse_errors : Probe
parse_errors =
    log_probe "config_parse_error_logs" "|= \"config parse\""
      "logs contain configuration parse errors" 2500

abbrev template : String
template = "up{service=\"{{service}}\"}"

abbrev rendered : String
rendered = "up{service=\"payments-api\"}"

renders : render template "payments-api" ≡ ok rendered
unfolding render safe_label_value replace_all codes has_prefix contains
renders = refl

quote-IsForbidden : IsForbidden 34
unfolding label_inner
quote-IsForbidden = refl

no_quotes : count_code 34 (codes variable) ≡ 0
unfolding count_code codes
no_quotes = refl

render_safe_example :
    (safe_label_value (codes "payments-api") ≡ true)
    × (contains (codes rendered) (codes "{{") ≡ false)
    × (count_code 34 (codes rendered) ≡ count_code 34 (codes template))
render_safe_example =
    render_safe template "payments-api" rendered 34 renders quote-IsForbidden no_quotes

run_one_example : ((run_one collector parse_errors "payments-api" 7).status ≡ verdict true) ↔ (
    (value : ℤ) × IsObserved collector parse_errors "payments-api" 7 value
    × (compare_value value parse_errors.comparator parse_errors.threshold ≡ true))
run_one_example = run_one-verdict_iff collector parse_errors "payments-api" 7 true

abbrev table : List Rule
table = rollout_rule ∷ []

abbrev correlator : Correlator
correlator = record {
  rules = table;
  by_alert_name = ("PaymentsAPIBadConfigRollout", 0) ∷ ("ConfigRolloutFailed", 0) ∷ [];
  by_id = ("bad_config_rollout", 0) ∷ [];
}

table_valid : validate_rules table ≡ none
unfolding validate_rules str_eq elem lookup insert validate_probe trim_space codes contains
    has_prefix render replace_all safe_label_value is_registered count_text
table_valid = refl

default_rules_valid : validate_rules default_rules ≡ none
unfolding validate_rules str_eq elem lookup insert validate_probe trim_space codes contains
    has_prefix render replace_all safe_label_value is_registered count_text
default_rules_valid = refl

correlator_made : new_with_rules table ≡ ok correlator
unfolding new_with_rules insert str_eq validate_rules elem lookup validate_probe trim_space codes
    contains has_prefix render replace_all safe_label_value is_registered count_text
correlator_made = refl

abbrev incident : Incident
incident = record { service = "payments-api"; started_at = 5 }

abbrev signal : Signal
signal = record {
  id = "s1";
  name = "ConfigRolloutFailed";
  labels = string_map (("service", "payments-api") ∷ []);
  observed_service = none;
  observed_at = 6;
}

abbrev matched : Match
matched = record {
  rule_id = "bad_config_rollout";
  rule = rollout_rule;
  signal_id = "s1";
  alert_name = "ConfigRolloutFailed";
  service = "payments-api";
  labels = ("service", "payments-api") ∷ [];
  observed_at = 6;
  reason = by_alert_name;
}

matches_signal : match_signal correlator incident signal ≡ some matched
unfolding match_signal select rule_at label lookup str_eq signal_labels signal_alert_name
    signal_service
matches_signal = refl

match_example : IsSelected table signal matched
match_example =
    match_by_identity table correlator incident signal matched correlator_made matches_signal

validate_rules-IsScorable_example : All IsScorable table
validate_rules-IsScorable_example = validate_rules-IsScorable table table_valid

abbrev evidence : RuleEvidence
evidence = record {
  service = "payments-api";
  results = run_one collector parse_errors "payments-api" 7 ∷ [];
}

abbrev one_score : HypothesisScore
one_score = score_rule rollout_rule (matched ∷ []) evidence

score_rule-bounds_example :
    (baseline ≤ℤ one_score.confidence)
    × (one_score.confidence ≤ℤ one_score.cap)
    × (one_score.cap ≤ℤ pos 9500)
    × (All Dependent evidence.results → one_score.confidence ≤ℤ pos 5500)
score_rule-bounds_example = score_rule-bounds rollout_rule (matched ∷ []) evidence

abbrev runs : Dict RuleEvidence
runs = ("bad_config_rollout", evidence) ∷ []

best_example :
    let a = score_hypotheses incident (matched ∷ []) runs in
    ((s : HypothesisScore) × IsMatched (matched ∷ []) runs s
      × (a.score.contradicted ≡ s.contradicted)
      × (a.confidence ≡ s.confidence))
    × NotBetter a.score.contradicted a.confidence (
        score_rule matched.rule
          (matched ∷ [])
          (get_or (lookup "bad_config_rollout" runs) no_evidence))
best_example =
    score_hypotheses-best incident (matched ∷ []) runs "bad_config_rollout" matched []
      (unfold str_eq in refl)

abbrev topology : IncidentTopology
topology = record {
  root_service = "payments-db";
  root_inferred = false;
  suppressed_alert_count = 2;
}

analyze-IsProposal_example :
    IsProposal (analyze correlator collector 7 incident (signal ∷ []) topology)
analyze-IsProposal_example =
    analyze-IsProposal correlator collector 7 incident (signal ∷ []) topology

analyze-IsBounded_example :
    IsBounded (analyze correlator collector 7 incident (signal ∷ []) topology)
analyze-IsBounded_example = analyze-IsBounded correlator collector 7 incident (signal ∷ []) topology
