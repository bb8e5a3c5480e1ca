-- ===== src/Rca/Confidence.antt =====
-- How high the confidence of `scoreRule` in internal/rca/service.go can get.
use argus.Base.{
  ℕ, suc, String, ◌≡◌, refl, ap, ◌∙◌, Bool, true, false, not, List, [], ◌∷◌, arith, All, length,
  sort_strings, length-sort_strings, Bool-cases, inl, inr, if◌then◌else◌,
}
use argus.Base.Int.{ℤ, pos, ◌≤ℤ◌}
use argus.Evidence.{Outcome, corroborated, refuted}
use argus.Correlation.{Match}
use argus.Correlation.Rules.{Rule}
use argus.Rca.Score.{
  source_cap, clamp, round4, RuleEvidence, Tally, tally_result, tally_results, no_tally, raw_score,
  score_rule, baseline,
}

pub clamp-bounds :
    (v min max : ℤ) → min ≤ℤ max → (min ≤ℤ clamp v min max) × (clamp v min max ≤ℤ max)
unfolding clamp
clamp-bounds v min max h = (ground arith, ground arith)

pub source_cap-bounds : (n : ℕ) → (pos 5500 ≤ℤ source_cap n) × (source_cap n ≤ℤ pos 9500)
unfolding source_cap
source_cap-bounds n = (ground arith, ground arith)

source_cap-one : (n : ℕ) → n ≡ 1 → source_cap n ≤ℤ pos 5500
unfolding source_cap
source_cap-one n h = ground arith

alert_alone : (t : Tally) → t.backends ≡ [] → suc (length (sort_strings t.backends)) ≡ 1
alert_alone t h =
    omega (arith, length-sort_strings t.backends, ap (λ (l : List String). length l) h)

-- The result can make its backend an independent source.
abbrev pub is_independent : Outcome → Bool
is_independent result = elim result.status [ corroborated ↦ not result.probe.symptom | _ ↦ false ]

abbrev pub Dependent : Outcome → Type 0
Dependent result = is_independent result ≡ false

tally_result-backends :
    (t : Tally) (result : Outcome)
    → Dependent result
    → (tally_result t result).backends ≡ t.backends
unfolding tally_result
tally_result-backends t result h = ground arith

tally_results-backends :
    (t : Tally) (results : List Outcome)
    → All Dependent results
    → (tally_results t results).backends ≡ t.backends
unfolding tally_results
tally_results-backends t [] h = refl
tally_results-backends t (result ∷ results) h =
    tally_results-backends (tally_result t result) results h.1 ∙ tally_result-backends t result h.0

-- The backend answered, and its answer counts.
abbrev pub counts : Outcome → Bool
counts result = elim result.status [ corroborated ↦ true | refuted ↦ true | _ ↦ false ]

abbrev pub counted : List Outcome → List Outcome
counted [] = []
counted (result ∷ results) = if counts result then result ∷ counted results else counted results

tally_result-skips :
    (t : Tally) (result : Outcome) → counts result ≡ false → tally_result t result ≡ t
unfolding tally_result
tally_result-skips t result h = ground arith

tally_results-counted :
    (t : Tally) (results : List Outcome)
    → tally_results t (counted results) ≡ tally_results t results
unfolding tally_results
tally_results-counted t [] = refl
tally_results-counted t (result ∷ results) = elim (Bool-cases (counts result)) [
  | inl answered ↦ rw answered (tally_results-counted (tally_result t result) results)
  | inr silent ↦ rw (silent, tally_result-skips t result silent) (tally_results-counted t results)
]

module _ (rule : Rule) (matches : List Match) (run : RuleEvidence) where
  -- Confidence is bounded by evidence: `scoreRule` gives at least 0.35, at most the cap, which is at
  -- most 0.95, and at most 0.55 when no probe but symptoms corroborates the hypothesis.
  pub score_rule-bounds :
      (baseline ≤ℤ (score_rule rule matches run).confidence)
      × ((score_rule rule matches run).confidence ≤ℤ (score_rule rule matches run).cap)
      × ((score_rule rule matches run).cap ≤ℤ pos 9500)
      × (All Dependent run.results → (score_rule rule matches run).confidence ≤ℤ pos 5500)
  unfolding score_rule
  score_rule-bounds =
      let t = tally_results no_tally run.results in
      let n = suc (length (sort_strings t.backends)) in
      let (floor, ceiling) = source_cap-bounds n in
      let (low, high) =
        clamp-bounds (round4 (raw_score t)) baseline (source_cap n) (ground (arith, floor)) in
      (
        low,
        high,
        ceiling,
        λ dependent.
            let alone = alert_alone t (tally_results-backends no_tally run.results dependent) in
            omega (arith, high, source_cap-one n alone),
      )

  -- Silence is no evidence: leaving out the results of backends that had no data or were unavailable
  -- changes neither the confidence, nor the sources, nor whether the hypothesis is contradicted.
  pub score_rule-counted :
      let counted_run : RuleEvidence = record {
        service = run.service;
        results = counted run.results;
      } in
      ((score_rule rule matches counted_run).confidence ≡ (score_rule rule matches run).confidence)
      × ((score_rule rule matches counted_run).sources ≡ (score_rule rule matches run).sources)
      × ((score_rule rule matches counted_run).contradicted
          ≡ (score_rule rule matches run).contradicted)
  unfolding score_rule
  score_rule-counted =
      let same = tally_results-counted no_tally run.results in
      (rw same refl, rw same refl, rw same refl)
