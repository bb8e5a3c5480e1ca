-- ===== src/Rca.antt =====
-- Root cause analysis: the deterministic part of internal/rca/service.go, from the matches of the
-- alerts to the ranked hypothesis with its remediation candidates. The texts of the summary, of the
-- supporting evidence and of the factors are not modelled.
pub mod Score
mod Gather
pub mod Confidence
pub mod Grouping
pub mod Ranking
pub mod Candidates
pub mod Final
use argus.Base.{
  ℕ, suc, ◌+◌, String, Bool, true, false, not, ◌&&◌, ◌||◌, Option, none, some, List, [], ◌∷◌, ◌++◌,
  length, Dict, lookup, insert, elem, str_eq, ◌==◌, if◌then◌else◌,
}
use argus.Base.Int.{ℤ, pos, add_ℤ, sub_ℤ}
use argus.Base.Result.{Result, ok, err}
use argus.Actions.{Value, get_or}
use argus.Evidence.{Outcome, Collector, run}
use argus.Correlation.{Match, Incident, Signal, Correlator, match_signals}
use argus.Correlation.Rules.{Rule, CandidateTemplate, Skipped, render_template}
use Score.{
  RuleEvidence, no_evidence, HypothesisScore, score_rule, sort_scores, clamp, source_cap, baseline,
  alert_match, alert_source, round4,
}
use Prim.Native.String
unfoldable pub use Gather.*

-- `incidents.RCACandidate`
pub record Candidate : Type 0 where
  pub action_type : String
  pub target : String
  pub parameters : Dict Value
  pub risk : String
  pub requires_approval : Bool

-- `incidents.RCAScore`
pub record RcaScore : Type 0 where
  pub rule_id : String
  pub baseline : ℤ
  pub alert_match : ℤ
  pub corroborated : ℤ
  pub refuted : ℤ
  pub refutation_penalty : ℤ
  pub raw : ℤ
  pub sources : List String
  pub source_cap : ℤ
  pub topology_adjustment : ℤ
  pub contradicted : Bool
  pub final : ℤ

-- `analysis`, without its texts.
pub record Analysis : Type 0 where
  pub rule_id : String
  pub hypothesis : String
  pub confidence : ℤ
  pub candidates : List Candidate
  pub skipped : List Skipped
  pub items : List RcaEvidence
  pub score : RcaScore

-- The fields of `incidents.IncidentTopology` that are read.
pub record IncidentTopology : Type 0 where
  pub root_service : String
  pub root_inferred : Bool
  pub suppressed_alert_count : ℕ

abbrev pub insufficient_hypothesis : String
insufficient_hypothesis = "Insufficient evidence for a high-confidence root cause"

-- `diagnostics`
abbrev pub diagnostics : String → Candidate
diagnostics service = record {
  action_type = "collect_diagnostics";
  target = service;
  parameters = [];
  risk = "low";
  requires_approval = false;
}

unfoldable pub first_on : String → List Match → Option Match
first_on service [] = none
first_on service (m ∷ ms) =
    let rest = first_on service ms in if str_eq m.service service then some m else rest

-- The loop of `renderCandidates` over the templates: what is proposed and what is skipped.
unfoldable pub render_templates : List CandidateTemplate → Match → List Candidate × List Skipped
render_templates [] m = ([], [])
render_templates (template ∷ templates) m =
    let rest = render_templates templates m in
    elim (render_template template m.service m.labels) [
      | err reason ↦ (rest.0, reason ∷ rest.1)
      | ok (target, parameters) ↦ (
        record {
          action_type = template.action_type;
          target = target;
          parameters = parameters;
          risk = template.risk;
          requires_approval = not (str_eq template.risk "low");
        }
            ∷ rest.0,
        rest.1,
      )
    ]

-- `renderCandidates`, of the first match.
unfoldable pub render_candidates : HypothesisScore → Match → List Candidate × List Skipped
render_candidates score first =
    let m = get_or (first_on score.run.service score.matches) first in
    let rendered = render_templates score.rule.remediations m in
    elim rendered.0 [
      | [] ↦ (diagnostics m.service ∷ [], rendered.1)
      | c ∷ cs ↦ (c ∷ cs, rendered.1)
    ]

-- `insufficientEvidence`
unfoldable pub insufficient_evidence : Incident → Analysis
insufficient_evidence incident = record {
  rule_id = "";
  hypothesis = insufficient_hypothesis;
  confidence = baseline;
  candidates = diagnostics incident.service ∷ [];
  skipped = [];
  items = [];
  score = record {
    rule_id = "";
    baseline = baseline;
    alert_match = pos 0;
    corroborated = pos 0;
    refuted = pos 0;
    refutation_penalty = pos 0;
    raw = pos 0;
    sources = [];
    source_cap = pos 0;
    topology_adjustment = pos 0;
    contradicted = false;
    final = baseline;
  };
}

-- What `scoreHypotheses` makes of the best score, of its first match and of the evidence of all.
unfoldable pub conclude : HypothesisScore → Match → List RcaEvidence → Analysis
conclude best first items =
    let service = if str_eq best.run.service "" then first.service else best.run.service in
    let rendered =
      if best.contradicted then (diagnostics service ∷ [], []) else render_candidates best first in
    record {
      rule_id = best.rule.id;
      hypothesis = best.rule.hypothesis;
      confidence = best.confidence;
      candidates = rendered.0;
      skipped = rendered.1;
      items = items;
      score = record {
        rule_id = best.rule.id;
        baseline = baseline;
        alert_match = alert_match;
        corroborated = best.corroborated;
        refuted = best.refuted;
        refutation_penalty = round4 best.refuted;
        raw = best.raw;
        sources = best.sources;
        source_cap = best.cap;
        topology_adjustment = pos 0;
        contradicted = best.contradicted;
        final = best.confidence;
      };
    }

abbrev pub conclude_first : Incident → List RcaEvidence → HypothesisScore → List Match → Analysis
conclude_first incident items best [] = insufficient_evidence incident
conclude_first incident items best (first ∷ ms) = conclude best first items

-- There is a best score if there are scores, and it has a match.
abbrev pub conclude_best : Incident → List RcaEvidence → List HypothesisScore → Analysis
conclude_best incident items [] = insufficient_evidence incident
conclude_best incident items (best ∷ scores) = conclude_first incident items best best.matches

-- `scoreHypotheses`
unfoldable pub score_hypotheses : Incident → List Match → Dict RuleEvidence → Analysis
score_hypotheses incident matches runs =
    let scores = score_groups runs (by_rule matches []) in
    conclude_best incident (all_items scores) (sort_scores scores)

-- `applyTopologyFallback`
unfoldable pub apply_topology_fallback : IncidentTopology → Analysis → Analysis
apply_topology_fallback topology result =
    let confidence = if not topology.root_inferred then pos 7200 else pos 5800 in
    if not (str_eq result.hypothesis insufficient_hypothesis)
      || (topology.suppressed_alert_count == 0 || str_eq topology.root_service "")
    then result
    else record result {
      confidence = confidence;
      hypothesis = String.◌++◌ "Failure at root dependency " topology.root_service;
      candidates = diagnostics topology.root_service ∷ [];
      score = record result.score {
        sources = alert_source ∷ "topology" ∷ [];
        source_cap = source_cap 2;
        final = confidence;
      };
    }

-- `enrichWithTopology`
unfoldable pub enrich_with_topology : Analysis → IncidentTopology → Analysis
enrich_with_topology result topology =
    let adjusted = clamp (add_ℤ result.confidence (pos 300)) baseline result.score.source_cap in
    if topology.suppressed_alert_count == 0
    then result
    else if topology.root_inferred
    then result
    else if not (str_eq result.rule_id "") && not result.score.contradicted
    then record result {
      confidence = adjusted;
      score = record result.score {
        topology_adjustment = sub_ℤ adjusted result.confidence;
        final = adjusted;
      };
    }
    else result

-- `analyze`
unfoldable pub analyze :
    Correlator → Option Collector → ℕ → Incident → List Signal → IncidentTopology → Analysis
analyze correlator collector at incident signals topology =
    let matches = match_signals correlator incident signals in
    let runs = collect_evidence collector at incident matches in
    enrich_with_topology (apply_topology_fallback topology (score_hypotheses incident matches runs))
      topology
