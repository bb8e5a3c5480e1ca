-- ===== src/Rca/Ranking.antt =====
-- Which hypothesis `scoreHypotheses` of internal/rca/service.go reports.
use mathlib.Core.Path.{subst}
use argus.Base.{
  ◌⊎◌, String, ◌≡◌, refl, sym, ap, ◌∙◌, Bool, true, false, Option, none, some, List, [], ◌∷◌, arith,
  All, All-map, Dict, lookup, Bool-cases, inl, inr,
}
use argus.Base.Int.{ℤ, pos, ◌≤ℤ◌}
use argus.Actions.{get_or}
use argus.Correlation.{Match, Incident}
use argus.Rca.Score.{
  RuleEvidence, no_evidence, HypothesisScore, before, insert_score, sort_scores, score_rule,
  baseline,
}
use argus.Rca.{
  Analysis, RcaEvidence, by_rule, score_groups, all_items, conclude, conclude_first, conclude_best,
  score_hypotheses,
}
use argus.Rca.Confidence.{score_rule-bounds}
use argus.Rca.Grouping.{of_rule, by_rule-of_rule, score_groups-lookup, IsMatched, scored-IsMatched}

All-insert_score :
    (P : HypothesisScore → Type 0) (x : HypothesisScore) (ys : List HypothesisScore)
    → P x
    → All P ys
    → All P (insert_score x ys)
unfolding insert_score
All-insert_score P x [] p h = (p, tt)
All-insert_score P x (y ∷ ys) p h = elim (Bool-cases (before y x)) [
  | inl first ↦ rw first (h.0, All-insert_score P x ys p h.1)
  | inr later ↦ rw later (p, h)
]

pub All-sort_scores :
    (P : HypothesisScore → Type 0) (xs : List HypothesisScore) → All P xs → All P (sort_scores xs)
unfolding sort_scores
All-sort_scores P [] h = tt
All-sort_scores P (x ∷ xs) h = All-insert_score P x (sort_scores xs) h.0 (All-sort_scores P xs h.1)

-- The second hypothesis is ranked at least as high, by contradiction and then by confidence.
abbrev pub NotBetter : Bool → ℤ → HypothesisScore → Type 0
NotBetter contradicted confidence x =
    (contradicted ≡ true → x.contradicted ≡ true)
    × (contradicted ≡ x.contradicted → x.confidence ≤ℤ confidence)

abbrev Below : HypothesisScore → HypothesisScore → Type 0
Below h x = NotBetter h.contradicted h.confidence x

Below-trans : (a b c : HypothesisScore) → Below a b → Below b c → Below a c
Below-trans a b c p q = elim (Bool-cases b.contradicted) [
  | inl e ↦ ground arith
  | inr e ↦ ground arith
]

before-Below : (y x : HypothesisScore) → before y x ≡ true → Below y x
unfolding before
before-Below y x h = (ground arith, ground arith)

not_before-Below : (y x : HypothesisScore) → before y x ≡ false → Below x y
unfolding before
not_before-Below y x h = (ground arith, ground arith)

-- Every element is below the head.
abbrev IsLed : List HypothesisScore → Type 0
IsLed [] = Unit
IsLed (h ∷ ys) = All (Below h) (h ∷ ys)

Below-refl : (x : HypothesisScore) → Below x x
Below-refl x = (λ e. e, λ e. omega arith)

insert_score-IsLed :
    (x : HypothesisScore) (ys : List HypothesisScore) → IsLed ys → IsLed (insert_score x ys)
unfolding insert_score
insert_score-IsLed x [] h = (Below-refl x, tt)
insert_score-IsLed x (y ∷ ys) h = elim (Bool-cases (before y x)) [
  | inl first ↦ rw first (h.0, All-insert_score (Below y) x ys (before-Below y x first) h.1)
  | inr later ↦
      let under = not_before-Below y x later in
      rw later (
        Below-refl x,
        (under, All-map (Below y) (Below x) (λ z b. Below-trans x y z under b) ys h.1),
      )
]

sort_scores-IsLed : (xs : List HypothesisScore) → IsLed (sort_scores xs)
unfolding sort_scores
sort_scores-IsLed [] = tt
sort_scores-IsLed (x ∷ xs) = insert_score-IsLed x (sort_scores xs) (sort_scores-IsLed xs)

-- A property of what is inserted and of the rest is one of the list before the insertion.
insert_score-All :
    (P : HypothesisScore → Type 0) (x : HypothesisScore) (ys : List HypothesisScore)
    → All P (insert_score x ys)
    → P x × All P ys
unfolding insert_score
insert_score-All P x [] h = h
insert_score-All P x (y ∷ ys) h = elim (Bool-cases (before y x)) [
  | inl first ↦
      let all = rw first at h in
      let (px, rest) = insert_score-All P x ys all.1 in (px, (all.0, rest))
  | inr later ↦ rw later at h
]

sort_scores-All :
    (P : HypothesisScore → Type 0) (xs : List HypothesisScore) → All P (sort_scores xs) → All P xs
unfolding sort_scores
sort_scores-All P [] h = tt
sort_scores-All P (x ∷ xs) h =
    let (px, rest) = insert_score-All P x (sort_scores xs) h in (px, sort_scores-All P xs rest)

-- A score of a group: it has a match, and its confidence is bounded.
pub record IsScore (s : HypothesisScore) : Type 0 where
  pub first : Match
  pub others : List Match
  pub has_match : s.matches ≡ first ∷ others
  pub floor : baseline ≤ℤ s.confidence
  pub ceiling : s.confidence ≤ℤ s.cap
  pub cap_bound : s.cap ≤ℤ pos 9500

pub score_groups-IsScore :
    (runs : Dict RuleEvidence) (groups : Dict (List Match)) → All IsScore (score_groups runs groups)
unfolding score_groups
score_groups-IsScore runs [] = tt
score_groups-IsScore runs ((id, []) ∷ groups) = score_groups-IsScore runs groups
score_groups-IsScore runs ((id, m ∷ ms) ∷ groups) =
    let (floor, ceiling, cap, _) =
      score_rule-bounds m.rule (m ∷ ms) (get_or (lookup id runs) no_evidence) in
    (
      record {
        first = m;
        others = ms;
        has_match = unfold score_rule in refl;
        floor = floor;
        ceiling = ceiling;
        cap_bound = cap;
      },
      score_groups-IsScore runs groups,
    )

pub conclude_first-conclude :
    (incident : Incident) (items : List RcaEvidence) (best : HypothesisScore) (first : Match)
    (ms others : List Match)
    → ms ≡ first ∷ others
    → conclude_first incident items best ms ≡ conclude best first items
conclude_first-conclude incident items best first [] others e = cc
conclude_first-conclude incident items best first (m ∷ ms) others e =
    ap (λ f. conclude best f items) (same_head e)
  where
    same_head : {a b : Match} {xs ys : List Match} → a ∷ xs ≡ b ∷ ys → a ≡ b
    same_head p = cc

conclude_best-Below :
    (incident : Incident) (items : List RcaEvidence) (scores : List HypothesisScore)
    → All IsScore scores
    → IsLed scores
    → All
        (NotBetter
          (conclude_best incident items scores).score.contradicted
          (conclude_best incident items scores).confidence)
        scores
unfolding conclude
conclude_best-Below incident items [] s h = tt
conclude_best-Below incident items (best ∷ scores) s h =
    let best_score = s.0 in
    let same =
      conclude_first-conclude incident items best best_score.first best.matches best_score.others
        best_score.has_match in
    subst (λ (a : Analysis). All (NotBetter a.score.contradicted a.confidence) (best ∷ scores))
      (sym same) h

ranked :
    (incident : Incident) (matches : List Match) (runs : Dict RuleEvidence)
    → All
        (NotBetter
          (score_hypotheses incident matches runs).score.contradicted
          (score_hypotheses incident matches runs).confidence)
        (score_groups runs (by_rule matches []))
unfolding score_hypotheses
ranked incident matches runs =
    let scores = score_groups runs (by_rule matches []) in
    sort_scores-All _ scores (
      conclude_best-Below incident (all_items scores) (sort_scores scores)
        (All-sort_scores IsScore scores (score_groups-IsScore runs (by_rule matches [])))
        (sort_scores-IsLed scores))

-- What is reported is the first of the scores, if there is one.
conclude_best-first :
    (P : HypothesisScore → Type 0) (incident : Incident) (items : List RcaEvidence)
    (scores : List HypothesisScore)
    → All IsScore scores
    → All P scores
    → let a = conclude_best incident items scores in
      (scores ≡ [])
      ⊎ ((s : HypothesisScore) × P s
          × (a.score.contradicted ≡ s.contradicted)
          × (a.confidence ≡ s.confidence))
unfolding conclude
conclude_best-first P incident items [] s p = inl refl
conclude_best-first P incident items (best ∷ scores) s p =
    let best_score = s.0 in
    let same =
      conclude_first-conclude incident items best best_score.first best.matches best_score.others
        best_score.has_match in
    inr (
      best,
      p.0,
      ap (λ (a : Analysis). a.score.contradicted) same,
      ap (λ (a : Analysis). a.confidence) same,
    )

-- Some score is reported where there is a match.
reported :
    (incident : Incident) (matches : List Match) (runs : Dict RuleEvidence) (id : String)
    (first : Match) (others : List Match)
    → lookup id (by_rule matches []) ≡ some (first ∷ others)
    → let a = score_hypotheses incident matches runs in
      (s : HypothesisScore) × IsMatched matches runs s
      × (a.score.contradicted ≡ s.contradicted)
      × (a.confidence ≡ s.confidence)
unfolding score_hypotheses
reported incident matches runs id first others h =
    let scores = score_groups runs (by_rule matches []) in
    let P = IsMatched matches runs in
    elim (conclude_best-first P incident (all_items scores) (sort_scores scores)
      (All-sort_scores IsScore scores (score_groups-IsScore runs (by_rule matches [])))
      (All-sort_scores P scores (scored-IsMatched matches runs))) [
        | inr best ↦ best
        | inl empty ↦ absurd (
            score_groups-lookup (λ s. ⊥) runs id first others (by_rule matches [])
              (sort_scores-All (λ s. ⊥) scores (subst (All (λ s. ⊥)) (sym empty) tt)) h)
      ]

-- The reported hypothesis is the best one: where an alert matches a rule, the contradiction and the
-- confidence that are reported are those of the score of all matches of some rule; and for every rule that some alert matches, the score of all
-- matches of the rule, with the evidence of its probes, is ranked no better: it has no higher
-- confidence if it is as contradicted as the reported hypothesis, and it is contradicted if the
-- reported one is.
pub score_hypotheses-best :
    (incident : Incident) (matches : List Match) (runs : Dict RuleEvidence) (id : String)
    (first : Match) (others : List Match)
    → of_rule id matches ≡ first ∷ others
    → let a = score_hypotheses incident matches runs in
      ((s : HypothesisScore) × IsMatched matches runs s
        × (a.score.contradicted ≡ s.contradicted)
        × (a.confidence ≡ s.confidence))
      × NotBetter a.score.contradicted a.confidence
          (score_rule first.rule (first ∷ others) (get_or (lookup id runs) no_evidence))
unfolding lookup
score_hypotheses-best incident matches runs id first others h =
    let found = group (lookup id (by_rule matches [])) (by_rule-of_rule id matches [] ∙ h) in
    (
      reported incident matches runs id first others found,
      score_groups-lookup _ runs id first others (by_rule matches []) (ranked incident matches runs)
          found,
    )
  where
    group : (o : Option (List Match)) → get_or o [] ≡ first ∷ others → o ≡ some (first ∷ others)
    group none e = cc
    group (some l) e = ap some e
