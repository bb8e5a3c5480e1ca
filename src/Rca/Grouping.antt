-- ===== src/Rca/Grouping.antt =====
-- The groups of matches that `scoreHypotheses` of internal/rca/service.go scores.
use mathlib.Core.Path.{subst}
use mathlib.Core.List.{append-nil, append_assoc}
use argus.Base.{
  String, ◌≡◌, refl, sym, ap, ◌∙◌, false, none, some, List, [], ◌∷◌, ◌++◌, arith, All, Dict, lookup,
  insert, lookup-insert, str_eq, str_eq-eq, eq-str_eq, Bool-cases, inl, inr, if◌then◌else◌,
}
use argus.Actions.{get_or}
use argus.Correlation.{Match}
use argus.Rca.Score.{RuleEvidence, no_evidence, HypothesisScore, score_rule}
use argus.Rca.{by_rule, score_groups}

-- The matches of one rule, in their order.
abbrev pub of_rule : String → List Match → List Match
of_rule id [] = []
of_rule id (m ∷ matches) =
    let others = of_rule id matches in if str_eq m.rule_id id then m ∷ others else others

pub by_rule-of_rule :
    (id : String) (matches : List Match) (groups : Dict (List Match))
    → get_or (lookup id (by_rule matches groups)) []
      ≡ get_or (lookup id groups) [] ++ of_rule id matches
unfolding by_rule
by_rule-of_rule id [] groups = sym (append-nil (get_or (lookup id groups) []))
by_rule-of_rule id (m ∷ matches) groups =
    let group = get_or (lookup m.rule_id groups) [] ++ m ∷ [] in
    let later = by_rule-of_rule id matches (insert m.rule_id group groups) in
    let stored = lookup-insert m.rule_id id group groups in
    elim (Bool-cases (str_eq m.rule_id id)) [
      | inr other ↦
          let kept = rw other at stored in
          rw other (later ∙ ap (λ o. get_or o [] ++ of_rule id matches) kept)
      | inl own ↦
          let same = str_eq-eq m.rule_id id own in
          let added = rw own at stored in
          rw own (
            later
            ∙ ap (λ o. get_or o [] ++ of_rule id matches) added
            ∙ append_assoc (get_or (lookup m.rule_id groups) []) (m ∷ []) (of_rule id matches)
            ∙ ap (λ k. get_or (lookup k groups) [] ++ m ∷ of_rule id matches) same)
    ]

-- The score of the group of a rule is among the scores.
pub score_groups-lookup :
    (P : HypothesisScore → Type 0) (runs : Dict RuleEvidence) (id : String) (first : Match)
    (others : List Match) (groups : Dict (List Match))
    → All P (score_groups runs groups)
    → lookup id groups ≡ some (first ∷ others)
    → P (score_rule first.rule (first ∷ others) (get_or (lookup id runs) no_evidence))
unfolding score_groups lookup
score_groups-lookup P runs id first others [] all h = cc
score_groups-lookup P runs id first others ((k, []) ∷ groups) all h =
    elim (Bool-cases (str_eq k id)) [
      | inl own ↦ cc (rw own at h)
      | inr other ↦ score_groups-lookup P runs id first others groups all (rw other at h)
    ]
score_groups-lookup P runs id first others ((k, m ∷ ms) ∷ groups) all h =
    elim (Bool-cases (str_eq k id)) [
      | inr other ↦ score_groups-lookup P runs id first others groups all.1 (rw other at h)
      | inl own ↦
          let same = rw own at h in
          subst P
            (ap (λ j. score_rule m.rule (m ∷ ms) (get_or (lookup j runs) no_evidence))
                (str_eq-eq k id own)
              ∙ ap (λ l. scored l (get_or (lookup id runs) no_evidence)) (same_group same))
            all.0
    ]
  where
    same_group : {xs ys : List Match} → some xs ≡ some ys → xs ≡ ys
    same_group e = cc

    scored : List Match → RuleEvidence → HypothesisScore
    scored [] run = score_rule m.rule (m ∷ ms) run
    scored (x ∷ xs) run = score_rule x.rule (x ∷ xs) run

-- No key twice.
abbrev Unique : Dict (List Match) → Type 0
Unique [] = Unit
Unique ((k, ms) ∷ groups) = (lookup k groups ≡ none) × Unique groups

insert-Unique :
    (k : String) (ms : List Match) (groups : Dict (List Match))
    → Unique groups
    → Unique (insert k ms groups)
unfolding insert lookup
insert-Unique k ms [] u = (refl, tt)
insert-Unique k ms ((j, old) ∷ groups) u = elim (Bool-cases (str_eq j k)) [
  | inl own ↦
      let alone = ap (λ i. lookup i groups) (sym (str_eq-eq j k own)) ∙ u.0 in rw own (alone, u.1)
  | inr other ↦
      let stored = lookup-insert k j ms groups in
      let apart : str_eq k j ≡ false = ground (arith, str_eq-eq k j, eq-str_eq j k) in
      rw other (rw apart at stored ∙ u.0, insert-Unique k ms groups u.1)
]

by_rule-Unique :
    (matches : List Match) (groups : Dict (List Match))
    → Unique groups
    → Unique (by_rule matches groups)
unfolding by_rule
by_rule-Unique [] groups u = u
by_rule-Unique (m ∷ matches) groups u =
    by_rule-Unique matches _ (insert-Unique m.rule_id _ groups u)

-- The score of all matches of a rule that some alert matches.
abbrev pub IsMatched : List Match → Dict RuleEvidence → HypothesisScore → Type 0
IsMatched matches runs s =
    (id : String) × ((first : Match) × ((others : List Match) × (of_rule id matches
          ≡ first ∷ others)
        × (s ≡ score_rule first.rule (first ∷ others) (get_or (lookup id runs) no_evidence))))

module _ (matches : List Match) (runs : Dict RuleEvidence) where
  -- What is found under a key is the group of its rule.
  abbrev AreGroups : Dict (List Match) → Type 0
  AreGroups groups =
      (id : String) (ms : List Match) → lookup id groups ≡ some ms → of_rule id matches ≡ ms

  none-some : {l : List Match} → none ≡ some l → ⊥
  none-some e = cc

  AreGroups-tail :
      (k : String) (ms : List Match) (groups : Dict (List Match))
      → lookup k groups ≡ none
      → AreGroups ((k, ms) ∷ groups)
      → AreGroups groups
  unfolding lookup
  AreGroups-tail k ms groups absent g id ns found = elim (Bool-cases (str_eq k id)) [
    | inr other ↦ g id ns (rw other found)
    | inl own ↦
        absurd (none-some (sym absent ∙ ap (λ i. lookup i groups) (str_eq-eq k id own) ∙ found))
  ]

  score_groups-IsMatched :
      (groups : Dict (List Match))
      → Unique groups
      → AreGroups groups
      → All (IsMatched matches runs) (score_groups runs groups)
  unfolding score_groups lookup
  score_groups-IsMatched [] u g = tt
  score_groups-IsMatched ((k, []) ∷ groups) u g =
      score_groups-IsMatched groups u.1 (AreGroups-tail k [] groups u.0 g)
  score_groups-IsMatched ((k, m ∷ ms) ∷ groups) u g = (
    (k, (m, (ms, g k (m ∷ ms) (rw (eq-str_eq k k refl) refl), refl))),
    score_groups-IsMatched groups u.1 (AreGroups-tail k (m ∷ ms) groups u.0 g),
  )

  pub scored-IsMatched : All (IsMatched matches runs) (score_groups runs (by_rule matches []))
  unfolding lookup
  scored-IsMatched =
      score_groups-IsMatched (by_rule matches []) (by_rule-Unique matches [] tt)
        (λ id ms found. sym (by_rule-of_rule id matches []) ∙ ap (λ o. get_or o []) found)
