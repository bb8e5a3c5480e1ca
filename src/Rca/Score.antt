-- ===== src/Rca/Score.antt =====
-- The scoring of one hypothesis: internal/rca/service.go. A score is an exact decimal where the code
-- has a float64: a whole number of 1/10000, or of 1/20000 before it is rounded.
use argus.Base.{
  ℕ, ◌+◌, ◌-◌, ◌/◌, String, Bool, true, false, not, ◌&&◌, List, [], ◌∷◌, length, elem, str_lt,
  sort_strings, ltb, ◌==◌, if◌then◌else◌,
}
use argus.Base.Int.{ℤ, pos, negsuc, ltb_ℤ, add_ℤ, sub_ℤ}
use argus.Evidence.{Outcome, corroborated, refuted, no_data, unavailable, run}
use argus.Correlation.{Match}
use argus.Correlation.Rules.{Rule}

-- `BaselineConfidence` and `AlertMatchScore`
abbrev pub baseline : ℤ
baseline = pos 3500

abbrev pub alert_match : ℤ
alert_match = pos 4500

abbrev pub alert_source : String
alert_source = "alertmanager"

-- `SourceCap`
unfoldable pub source_cap : ℕ → ℤ
source_cap sources = if ltb sources 2 then pos 5500 else if sources == 2 then pos 8000 else pos 9500

-- `clamp`
unfoldable pub clamp : ℤ → ℤ → ℤ → ℤ
clamp value min max = if ltb_ℤ value min then min else if ltb_ℤ max value then max else value

abbrev twice : ℤ → ℤ
twice v = add_ℤ v v

-- `round4` of a number of 1/20000: a half is added away from zero and the rest cut off.
unfoldable pub round4 : ℤ → ℤ
round4 (pos n) = pos ((n + 1) / 2)
round4 (negsuc n) = negsuc ((n + 2) / 2 - 1)

-- `ruleEvidence`; the zero value is what a missing key of the map of runs reads as.
pub record RuleEvidence : Type 0 where
  pub service : String
  pub results : List Outcome

abbrev pub no_evidence : RuleEvidence
no_evidence = record { service = ""; results = [] }

-- What the loop of `scoreRule` sums up.
pub record Tally : Type 0 where
  pub corroborated : ℤ
  pub refuted : ℤ
  pub backends : List String

abbrev add_backend : List String → String → List String
add_backend backends b = if elem b backends then backends else b ∷ backends

unfoldable pub tally_result : Tally → Outcome → Tally
tally_result t result = elim result.status [
  | corroborated ↦ record {
    corroborated = add_ℤ t.corroborated result.probe.weight;
    refuted = t.refuted;
    backends =
        if not result.probe.symptom
        then add_backend t.backends result.probe.backend
        else t.backends;
  }
  | refuted ↦ record t { refuted = add_ℤ t.refuted result.probe.weight }
  | no_data ↦ t
  | unavailable ↦ t
]

unfoldable pub tally_results : Tally → List Outcome → Tally
tally_results t [] = t
tally_results t (result ∷ results) = tally_results (tally_result t result) results

abbrev pub no_tally : Tally
no_tally = record { corroborated = pos 0; refuted = pos 0; backends = [] }

-- `hypothesisScore`
pub record HypothesisScore : Type 0 where
  pub rule : Rule
  pub matches : List Match
  pub run : RuleEvidence
  pub corroborated : ℤ
  pub refuted : ℤ
  pub sources : List String
  pub raw : ℤ
  pub cap : ℤ
  pub confidence : ℤ
  pub contradicted : Bool

-- The sum that is rounded: the refuted weight counts half.
unfoldable pub raw_score : Tally → ℤ
raw_score t = sub_ℤ (twice (add_ℤ alert_match t.corroborated)) t.refuted

-- `scoreRule`
unfoldable pub score_rule : Rule → List Match → RuleEvidence → HypothesisScore
score_rule rule matches run =
    let t = tally_results no_tally run.results in
    let sources = alert_source ∷ sort_strings t.backends in
    let raw = round4 (raw_score t) in
    let cap = source_cap (length sources) in
    record {
      rule = rule;
      matches = matches;
      run = run;
      corroborated = t.corroborated;
      refuted = t.refuted;
      sources = sources;
      raw = raw;
      cap = cap;
      confidence = clamp raw baseline cap;
      contradicted = ltb_ℤ t.corroborated t.refuted;
    }

-- The order of the hypotheses: the test of `sort.SliceStable` in `scoreHypotheses`.
unfoldable pub before : HypothesisScore → HypothesisScore → Bool
before a b =
    if a.contradicted && not b.contradicted
    then false
    else if not a.contradicted && b.contradicted
    then true
    else if ltb_ℤ b.confidence a.confidence
    then true
    else if ltb_ℤ a.confidence b.confidence
    then false
    else if ltb (length b.sources) (length a.sources)
    then true
    else if ltb (length a.sources) (length b.sources)
    then false
    else str_lt a.rule.hypothesis b.rule.hypothesis

-- `sort.SliceStable`: a score goes behind those that are before it, and before the others.
unfoldable pub insert_score : HypothesisScore → List HypothesisScore → List HypothesisScore
insert_score x [] = x ∷ []
insert_score x (y ∷ ys) = if before y x then y ∷ insert_score x ys else x ∷ y ∷ ys

unfoldable pub sort_scores : List HypothesisScore → List HypothesisScore
unfolding insert_score
sort_scores [] = []
sort_scores (x ∷ xs) = insert_score x (sort_scores xs)
