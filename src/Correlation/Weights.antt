-- ===== src/Correlation/Weights.antt =====
-- What `ValidateRules` of internal/correlation/rules.go guarantees the scorer.
use argus.Base.{
  ℕ, ◌+◌, ◌≤◌, ◌<◌, String, ◌≡◌, ◌⊎◌, refl, sym, ap, ◌∙◌, true, false, not, ◌||◌, none, List, [],
  ◌∷◌, arith, All, Dict, elem, Option-cases, Bool-cases, inl, inr,
}
use argus.Base.Int.{ℤ, pos, negsuc, ltb_ℤ, pos_part, add_ℤ}
use argus.Base.Result.{Result, ok, Result-cases}
use argus.Actions.{is_registered}
use argus.Evidence.{Probe, validate_probe}
use argus.Correlation.Rules.{
  Rule, RuleError, ProbeTally, tally_probes, claim_names, validate_rest, validate_from,
  validate_rules, validate_template, validate_templates, CandidateTemplate,
}

-- The weight of a probe that is not negative.
abbrev pub units : Probe → ℕ
units probe = pos_part probe.weight

abbrev pub sum_units : List Probe → ℕ
sum_units [] = 0
sum_units (probe ∷ probes) = units probe + sum_units probes

-- Some probe measures the failure mode itself.
abbrev pub HasCause : List Probe → Type 0
HasCause [] = ⊥
HasCause (probe ∷ probes) = (probe.symptom ≡ false) ⊎ HasCause probes

abbrev pub IsWeighted : Probe → Type 0
IsWeighted probe = (probe.weight ≡ pos (units probe)) × (0 < units probe) × (units probe ≤ 5000)

abbrev pub IsRegisteredTemplate : CandidateTemplate → Type 0
IsRegisteredTemplate template = is_registered template.action_type ≡ true

-- What the scorer depends on: positive weights that together stay within 1/2, a probe that can make
-- a backend an independent source, and registered actions.
pub record IsScorable (rule : Rule) : Type 0 where
  pub weighted : All IsWeighted rule.probes
  pub total : sum_units rule.probes ≤ 5000
  pub cause : HasCause rule.probes
  pub registered : All IsRegisteredTemplate rule.remediations

positive_weight :
    (w : ℤ)
    → (not (ltb_ℤ (pos 0) w) || ltb_ℤ (pos 5000) w) ≡ false
    → (w ≡ pos (pos_part w)) × (0 < pos_part w) × (pos_part w ≤ 5000)
positive_weight (pos n) h = (refl, ground arith, ground arith)
positive_weight (negsuc n) h = absurd (ground arith)

validate_probe-IsWeighted : (probe : Probe) → validate_probe probe ≡ none → IsWeighted probe
unfolding validate_probe
validate_probe-IsWeighted probe h = ground (arith, positive_weight probe.weight)

tally_probes-sum :
    (probes : List Probe) (tally t : ProbeTally) (n : ℕ)
    → tally.total ≡ pos n
    → tally_probes probes tally ≡ ok t
    → All IsWeighted probes
      × (t.total ≡ pos (n + sum_units probes))
      × (t.has_cause ≡ true → (tally.has_cause ≡ true) ⊎ HasCause probes)
unfolding tally_probes
tally_probes-sum [] tally t n total h =
    let same = same_tally h in
    (
      tt,
      ap (λ (x : ProbeTally). x.total) (sym same) ∙ total ∙ ap pos (omega arith),
      λ c. inl (ap (λ (x : ProbeTally). x.has_cause) same ∙ c),
    )
  where
    same_tally : {a b : ProbeTally} → ◌≡◌ {A = Result RuleError ProbeTally} (ok a) (ok b) → a ≡ b
    same_tally e = cc
tally_probes-sum (probe ∷ probes) tally t n total h = elim (Option-cases (validate_probe probe)) [
  | inr (e, bad) ↦ cc (rw (bad, tally_probes) at h)
  | inl good ↦ elim (Bool-cases (elem probe.id tally.ids)) [
    | inl twice ↦ cc (rw (good, twice, tally_probes) at h)
    | inr fresh ↦
        let w = validate_probe-IsWeighted probe good in
        let added : add_ℤ tally.total probe.weight ≡ pos (n + units probe) =
          rw (total, w.0) (ground arith) in
        let (rest, sum, cause) =
          tally_probes-sum probes
            (record {
              ids = probe.id ∷ tally.ids;
              total = add_ℤ tally.total probe.weight;
              has_cause = tally.has_cause || not probe.symptom;
            })
            t (n + units probe) added (rw (good, fresh, tally_probes) at h) in
        ((w, rest), sum ∙ ap pos (omega arith), λ c. ground (arith, cause c))
  ]
]

validate_templates-registered :
    (templates : List CandidateTemplate)
    → validate_templates templates ≡ none
    → All IsRegisteredTemplate templates
unfolding validate_templates
validate_templates-registered [] h = tt
validate_templates-registered (template ∷ templates) h =
    elim (Option-cases (validate_template template)) [
      | inr (e, bad) ↦ cc (rw (bad, validate_templates) at h)
      | inl good ↦ (
        unfold validate_template in ground arith,
        validate_templates-registered templates (rw (good, validate_templates) at h),
      )
    ]

validate_rest-IsScorable : (rule : Rule) → validate_rest rule ≡ none → IsScorable rule
unfolding validate_rest
validate_rest-IsScorable rule h =
    let start : ProbeTally = record { ids = []; total = pos 0; has_cause = false } in
    elim (Result-cases (tally_probes rule.probes start)) [
      | inr (e, bad) ↦ absurd (ground arith)
      | inl (t, counted) ↦
          let (weighted, total, cause) = tally_probes-sum rule.probes start t 0 refl counted in
          record {
            weighted = weighted;
            total = ground arith;
            cause = ground (arith, cause);
            registered = validate_templates-registered rule.remediations (ground arith);
          }
    ]

validate_from-IsScorable :
    (rules : List Rule) (ids : List String) (owners : Dict String)
    → validate_from rules ids owners ≡ none
    → All IsScorable rules
unfolding validate_from
validate_from-IsScorable [] ids owners h = tt
validate_from-IsScorable (rule ∷ rules) ids owners h =
    elim (Result-cases (claim_names rule.id rule.alert_names owners)) [
      | inr (e, bad) ↦ absurd (ground arith)
      | inl (owners', claimed) ↦ elim (Option-cases (validate_rest rule)) [
        | inr (e, bad) ↦ absurd (ground arith)
        | inl good ↦ (
          validate_rest-IsScorable rule good,
          validate_from-IsScorable rules (rule.id ∷ ids) owners' (ground arith),
        )
      ]
    ]

-- An accepted table is fit for the scorer: when `ValidateRules` returns nil, every rule has positive
-- probe weights of at most 1/2 each and in sum, a probe that is no symptom, and only registered
-- actions.
pub validate_rules-IsScorable :
    (rules : List Rule) → validate_rules rules ≡ none → All IsScorable rules
unfolding validate_rules
validate_rules-IsScorable rules h = validate_from-IsScorable rules [] [] h
