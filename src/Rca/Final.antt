-- ===== src/Rca/Final.antt =====
-- The bounds of the reported confidence in internal/rca/service.go.
use mathlib.Core.Path.{subst}
use argus.Base.{
  ℕ, ◌≡◌, ◌⊎◌, refl, sym, true, not, ◌&&◌, ◌||◌, Option, List, [], ◌∷◌, arith, All, str_eq,
  eq-str_eq, Bool-cases, inl, inr, ◌==◌,
}
use argus.Base.Int.{pos, ◌≤ℤ◌, add_ℤ, sub_ℤ}
use argus.Evidence.{Collector}
use argus.Correlation.{Match, Incident, Signal, Correlator, match_signals}
use argus.Rca.Score.{HypothesisScore, sort_scores, clamp, source_cap, baseline}
use argus.Rca.{
  Analysis, IncidentTopology, RcaEvidence, insufficient_evidence, conclude, conclude_best,
  score_hypotheses, apply_topology_fallback, enrich_with_topology, analyze, by_rule, score_groups,
  all_items, collect_evidence, insufficient_hypothesis,
}
use argus.Rca.Confidence.{clamp-bounds}
use argus.Rca.Ranking.{IsScore, All-sort_scores, score_groups-IsScore, conclude_first-conclude}

-- The confidence is within the bounds, is the final score, and where a rule or the topology stands
-- behind it also within the cap of its sources.
pub record IsBounded (a : Analysis) : Type 0 where
  pub floor : baseline ≤ℤ a.confidence
  pub ceiling : a.confidence ≤ℤ pos 9500
  pub final : a.score.final ≡ a.confidence
  pub capped :
      (a.rule_id ≡ "")
      ⊎ ((a.confidence ≤ℤ a.score.source_cap)
          × (baseline ≤ℤ a.score.source_cap)
          × (a.score.source_cap ≤ℤ pos 9500))

conclude-IsBounded :
    (best : HypothesisScore) (first : Match) (items : List RcaEvidence)
    → IsScore best
    → IsBounded (conclude best first items)
unfolding conclude
conclude-IsBounded best first items s = record {
  floor = s.floor;
  ceiling = omega (arith, s.ceiling, s.cap_bound);
  final = refl;
  capped = inr (s.ceiling, omega (arith, s.floor, s.ceiling), s.cap_bound);
}

insufficient-IsBounded : (incident : Incident) → IsBounded (insufficient_evidence incident)
unfolding insufficient_evidence
insufficient-IsBounded incident = record {
  floor = omega arith;
  ceiling = omega arith;
  final = refl;
  capped = inl refl;
}

conclude_best-IsBounded :
    (incident : Incident) (items : List RcaEvidence) (scores : List HypothesisScore)
    → All IsScore scores
    → IsBounded (conclude_best incident items scores)
conclude_best-IsBounded incident items [] s = insufficient-IsBounded incident
conclude_best-IsBounded incident items (best ∷ scores) s =
    let b = s.0 in
    subst (λ (a : Analysis). IsBounded a)
      (sym (conclude_first-conclude incident items best b.first best.matches b.others b.has_match))
      (conclude-IsBounded best b.first items b)

source_cap-two : source_cap 2 ≡ pos 8000
unfolding source_cap
source_cap-two = refl

apply_topology_fallback-IsBounded :
    (topology : IncidentTopology) (a : Analysis)
    → IsBounded a
    → IsBounded (apply_topology_fallback topology a)
unfolding apply_topology_fallback
apply_topology_fallback-IsBounded topology a b =
    elim (Bool-cases (
      not (str_eq a.hypothesis insufficient_hypothesis)
      || (topology.suppressed_alert_count == 0 || str_eq topology.root_service ""))) [
        | inl kept ↦ rw (kept, apply_topology_fallback) b
        | inr replaced ↦
            rw (replaced, apply_topology_fallback)
              (record {
                floor = ground arith;
                ceiling = ground arith;
                final = refl;
                capped = inr (
                  rw source_cap-two (ground arith),
                  rw source_cap-two (ground arith),
                  rw source_cap-two (ground arith),
                );
              })
      ]

enrich-IsBounded :
    (a : Analysis) (topology : IncidentTopology)
    → IsBounded a
    → IsBounded (enrich_with_topology a topology)
unfolding enrich_with_topology
enrich-IsBounded a topology b = elim (Bool-cases (topology.suppressed_alert_count == 0)) [
  | inl alone ↦ rw (alone, enrich_with_topology) b
  | inr grouped ↦ elim (Bool-cases topology.root_inferred) [
    | inl inferred ↦ rw (grouped, inferred, enrich_with_topology) b
    | inr seen ↦ elim (Bool-cases (not (str_eq a.rule_id "") && not a.score.contradicted)) [
      | inr unknown ↦ rw (grouped, seen, unknown, enrich_with_topology) b
      | inl known ↦ rw (grouped, seen, known, enrich_with_topology) (raised known b)
    ]
  ]
]
  where
    raised :
        (not (str_eq a.rule_id "") && not a.score.contradicted) ≡ true
        → IsBounded a
        → IsBounded (record a {
          confidence = clamp (add_ℤ a.confidence (pos 300)) baseline a.score.source_cap;
          score = record a.score {
            topology_adjustment =
                sub_ℤ
                  (clamp (add_ℤ a.confidence (pos 300)) baseline a.score.source_cap)
                  a.confidence;
            final = clamp (add_ℤ a.confidence (pos 300)) baseline a.score.source_cap;
          };
        })
    raised known b = elim b.capped [
      | inl unnamed ↦ absurd (ground (arith, eq-str_eq a.rule_id "" unnamed))
      | inr (under, above_floor, under_bound) ↦
          let (low, high) =
            clamp-bounds (add_ℤ a.confidence (pos 300)) baseline a.score.source_cap above_floor in
          record {
            floor = low;
            ceiling = omega (arith, high, under_bound);
            final = refl;
            capped = inr (high, above_floor, under_bound);
          }
    ]

-- Reported confidence is never certainty: `analyze` reports at least 0.35 and at most 0.95, also
-- after the topology raised it, records it as the final score, and stays within the cap of the
-- sources when the hypothesis comes from a rule.
pub analyze-IsBounded :
    (correlator : Correlator) (collector : Option Collector) (at : ℕ) (incident : Incident)
    (signals : List Signal) (topology : IncidentTopology)
    → IsBounded (analyze correlator collector at incident signals topology)
unfolding analyze score_hypotheses
analyze-IsBounded correlator collector at incident signals topology =
    let matches = match_signals correlator incident signals in
    let runs = collect_evidence collector at incident matches in
    let scores = score_groups runs (by_rule matches []) in
    let placed = apply_topology_fallback topology (score_hypotheses incident matches runs) in
    enrich-IsBounded placed topology (
      apply_topology_fallback-IsBounded topology (score_hypotheses incident matches runs) (
        conclude_best-IsBounded incident (all_items scores) (sort_scores scores)
          (All-sort_scores IsScore scores (score_groups-IsScore runs (by_rule matches [])))))
