-- ===== src/Rca/Candidates.antt =====
-- Which remediations the analysis of internal/rca/service.go proposes.
use mathlib.Core.Path.{subst}
use argus.Base.{
  ℕ, String, ◌≡◌, ◌⊎◌, refl, sym, ap, ◌∙◌, true, not, ◌||◌, Option, none, List, [], ◌∷◌, arith, All,
  Dict, str_eq, str_eq_refl, Bool-cases, Option-cases, inl, inr, ◌==◌,
}
use argus.Base.Result.{Result, ok, Result-cases}
use argus.Actions.{Value, validate}
use argus.Evidence.{Collector}
use argus.Correlation.{Match, Incident, Signal, Correlator, match_signals}
use argus.Correlation.Rules.{
  CandidateTemplate, Skipped, render_template, target_value, format_target,
}
use argus.Rca.Score.{HypothesisScore}
use argus.Rca.{
  Candidate, Analysis, IncidentTopology, RcaEvidence, diagnostics, render_templates,
  render_candidates, insufficient_evidence, conclude, conclude_first, conclude_best,
  score_hypotheses, apply_topology_fallback, enrich_with_topology, analyze, collect_evidence,
  insufficient_hypothesis,
}

-- The collection of diagnostics.
abbrev pub IsDiagnostics : Candidate → Type 0
IsDiagnostics c = c ≡ diagnostics c.target

-- A candidate that may be proposed: the collection of diagnostics, or what the action catalog
-- accepts, and it asks for approval unless its risk is low.
pub record IsSafe (c : Candidate) : Type 0 where
  pub accepted : IsDiagnostics c ⊎ (validate c.action_type c.target c.parameters ≡ none)
  pub approval : c.requires_approval ≡ not (str_eq c.risk "low")

diagnostics-IsSafe : (service : String) → IsSafe (diagnostics service)
diagnostics-IsSafe service = record {
  accepted = inl refl;
  approval = sym (ap not (str_eq_refl "low"));
}

-- `Render` gives only targets that the catalog accepts.
render_template-validate :
    (template : CandidateTemplate) (service target : String) (labels : Dict String)
    (parameters : Dict Value)
    → render_template template service labels ≡ ok (target, parameters)
    → validate template.action_type target parameters ≡ none
unfolding render_template
render_template-validate template service target labels parameters h =
    let value = target_value template service labels in
    let t = format_target template.target_format value in
    elim (Option-cases (validate template.action_type t template.parameters)) [
      | inr (e, bad) ↦ absurd (ground arith)
      | inl good ↦ elim (Bool-cases (str_eq value "")) [
        | inl absent ↦ cc (rw (absent, render_template) at h)
        | inr present ↦
            let same = same_value (rw (present, good, render_template) at h) in
            subst (λ (p : String × Dict Value). validate template.action_type p.0 p.1 ≡ none) same
              good
      ]
    ]
  where
    same_value :
        {a b : String × Dict Value}
        → ◌≡◌ {A = Result Skipped (String × Dict Value)} (ok a) (ok b)
        → a ≡ b
    same_value e = cc

render_templates-IsSafe :
    (templates : List CandidateTemplate) (m : Match) → All IsSafe (render_templates templates m).0
unfolding render_templates
render_templates-IsSafe [] m = tt
render_templates-IsSafe (template ∷ templates) m =
    elim (Result-cases (render_template template m.service m.labels)) [
      | inr (reason, e) ↦ rw (e, render_templates) (render_templates-IsSafe templates m)
      | inl ((target, parameters), e) ↦
          rw (e, render_templates)
            (
              record {
                accepted =
                    inr (render_template-validate template m.service target m.labels parameters e);
                approval = refl;
              },
              render_templates-IsSafe templates m,
            )
    ]

render_candidates-IsSafe :
    (score : HypothesisScore) (first : Match) → All IsSafe (render_candidates score first).0
unfolding render_candidates
render_candidates-IsSafe score first =
    or_diagnostics _ _ (render_templates-IsSafe score.rule.remediations _)
  where
    or_diagnostics :
        (service : String) (rendered : List Candidate × List Skipped)
        → All IsSafe rendered.0
        → All IsSafe
            (elim rendered.0 as (λ x. List Candidate × List Skipped) [
              | [] ↦ (diagnostics service ∷ [], rendered.1)
              | c ∷ cs ↦ (c ∷ cs, rendered.1)
            ]).0
    or_diagnostics service ([], skipped) h = (diagnostics-IsSafe service, tt)
    or_diagnostics service (c ∷ cs, skipped) h = h

-- What the whole analysis keeps about its candidates.
pub record IsProposal (a : Analysis) : Type 0 where
  pub safe : All IsSafe a.candidates
  pub doubted : a.score.contradicted ≡ true → All IsDiagnostics a.candidates

conclude-IsProposal :
    (best : HypothesisScore) (first : Match) (items : List RcaEvidence)
    → IsProposal (conclude best first items)
unfolding conclude render_candidates
conclude-IsProposal best first items = elim (Bool-cases best.contradicted) [
  | inl contradicted ↦ record {
    safe = rw (contradicted, conclude) (diagnostics-IsSafe _, tt);
    doubted = λ e. rw (contradicted, conclude) (refl, tt);
  }
  | inr clear ↦ record {
    safe = rw (clear, conclude) (render_candidates-IsSafe best first);
    doubted = λ e. cc (clear, e);
  }
]

insufficient-IsProposal : (incident : Incident) → IsProposal (insufficient_evidence incident)
unfolding insufficient_evidence
insufficient-IsProposal incident = record {
  safe = (diagnostics-IsSafe incident.service, tt);
  doubted = λ e. (refl, tt);
}

conclude_first-IsProposal :
    (incident : Incident) (items : List RcaEvidence) (best : HypothesisScore) (ms : List Match)
    → IsProposal (conclude_first incident items best ms)
conclude_first-IsProposal incident items best [] = insufficient-IsProposal incident
conclude_first-IsProposal incident items best (first ∷ ms) = conclude-IsProposal best first items

conclude_best-IsProposal :
    (incident : Incident) (items : List RcaEvidence) (scores : List HypothesisScore)
    → IsProposal (conclude_best incident items scores)
conclude_best-IsProposal incident items [] = insufficient-IsProposal incident
conclude_best-IsProposal incident items (best ∷ scores) =
    conclude_first-IsProposal incident items best best.matches

apply_topology_fallback-IsProposal :
    (topology : IncidentTopology) (a : Analysis)
    → IsProposal a
    → IsProposal (apply_topology_fallback topology a)
unfolding apply_topology_fallback
apply_topology_fallback-IsProposal topology a p =
    elim (Bool-cases (
      not (str_eq a.hypothesis insufficient_hypothesis)
      || (topology.suppressed_alert_count == 0 || str_eq topology.root_service ""))) [
        | inl kept ↦ rw (kept, apply_topology_fallback) p
        | inr replaced ↦
            rw (replaced, apply_topology_fallback)
              (record {
                safe = (diagnostics-IsSafe topology.root_service, tt);
                doubted = λ e. (refl, tt);
              })
      ]

enrich-keeps :
    (a : Analysis) (topology : IncidentTopology)
    → ((enrich_with_topology a topology).candidates ≡ a.candidates)
      × ((enrich_with_topology a topology).score.contradicted ≡ a.score.contradicted)
unfolding enrich_with_topology
enrich-keeps a topology = (ground arith, ground arith)

-- Only safe remediations are proposed: every candidate of an analysis is the collection of
-- diagnostics or accepted by the action catalog, and asks for approval unless its risk is low; when
-- the evidence contradicts the reported hypothesis, all are the collection of diagnostics.
pub analyze-IsProposal :
    (correlator : Correlator) (collector : Option Collector) (at : ℕ) (incident : Incident)
    (signals : List Signal) (topology : IncidentTopology)
    → IsProposal (analyze correlator collector at incident signals topology)
unfolding analyze score_hypotheses
analyze-IsProposal correlator collector at incident signals topology =
    let matches = match_signals correlator incident signals in
    let scored =
      score_hypotheses incident matches (collect_evidence collector at incident matches) in
    let placed = apply_topology_fallback topology scored in
    let p =
      apply_topology_fallback-IsProposal topology scored (conclude_best-IsProposal incident _ _) in
    let (same, same_doubt) = enrich-keeps placed topology in
    record {
      safe = subst (λ (l : List Candidate). All IsSafe l) (sym same) p.safe;
      doubted = λ e.
          subst (λ (l : List Candidate). All IsDiagnostics l) (sym same)
            (p.doubted (sym same_doubt ∙ e));
    }
