-- ===== src/Rca/Gather.antt =====
-- The evidence for each rule that matched: internal/rca/service.go, from the matches to the scores and
-- their items.
use argus.Base.{
  ℕ, String, not, ◌&&◌, Option, none, some, List, [], ◌∷◌, ◌++◌, Dict, lookup, insert, elem, str_eq,
  if◌then◌else◌,
}
use argus.Actions.{get_or}
use argus.Evidence.{Outcome, Collector, run}
use argus.Correlation.{Match, Incident}
use argus.Rca.Score.{RuleEvidence, no_evidence, HypothesisScore, score_rule}
use Prim.Native.String

-- `incidents.RCAEvidence`: an alert, or the result of a probe.
pub data RcaEvidence : Type 0 where
  alert_item : String → Match → RcaEvidence
  probe_item : String → String → Outcome → RcaEvidence

-- The choice for one rule in `primaryMatches`.
unfoldable pub choose_match : Incident → Match → Dict Match → Dict Match
choose_match incident m chosen = elim (lookup m.rule_id chosen) [
  | none ↦ insert m.rule_id m chosen
  | some existing ↦
      if not (str_eq existing.service incident.service) && str_eq m.service incident.service
      then insert m.rule_id m chosen
      else chosen
]

-- The keys of the map stand in the order of `order`.
unfoldable pub choose_matches : Incident → List Match → Dict Match → Dict Match
unfolding choose_match
choose_matches incident [] chosen = chosen
choose_matches incident (m ∷ matches) chosen =
    choose_matches incident matches (choose_match incident m chosen)

-- `primaryMatches`
unfoldable pub primary_matches : Incident → List Match → Dict Match
unfolding choose_matches
primary_matches incident matches = choose_matches incident matches []

unfoldable pub run_matches : Option Collector → ℕ → Dict Match → Dict RuleEvidence
run_matches collector at [] = []
run_matches collector at ((id, m) ∷ chosen) =
    (id, record { service = m.service; results = run collector m.rule.probes m.service at })
    ∷ run_matches collector at chosen

-- `collectEvidence`: the runs are independent of each other.
unfoldable pub collect_evidence : Option Collector → ℕ → Incident → List Match → Dict RuleEvidence
unfolding run_matches primary_matches
collect_evidence collector at incident matches =
    run_matches collector at (primary_matches incident matches)

-- `byRule`, with its keys in the order of `order`.
unfoldable pub by_rule : List Match → Dict (List Match) → Dict (List Match)
by_rule [] groups = groups
by_rule (m ∷ matches) groups =
    by_rule matches (insert m.rule_id (get_or (lookup m.rule_id groups) [] ++ m ∷ []) groups)

-- A group is never empty.
unfoldable pub score_groups : Dict RuleEvidence → Dict (List Match) → List HypothesisScore
score_groups runs [] = []
score_groups runs ((id, []) ∷ groups) = score_groups runs groups
score_groups runs ((id, m ∷ ms) ∷ groups) =
    score_rule m.rule (m ∷ ms) (get_or (lookup id runs) no_evidence) ∷ score_groups runs groups

-- The first of two alerts with the same name and service counts.
unfoldable pub alert_items : String → List Match → List String → List RcaEvidence
alert_items id [] seen = []
alert_items id (m ∷ ms) seen =
    let key = String.◌++◌ m.alert_name (String.◌++◌ "|" m.service) in
    let rest = alert_items id ms seen in
    let rest' = alert_items id ms (key ∷ seen) in
    if elem key seen then rest else alert_item id m ∷ rest'

unfoldable pub probe_items : String → String → List Outcome → List RcaEvidence
probe_items id service [] = []
probe_items id service (result ∷ results) =
    probe_item id service result ∷ probe_items id service results

-- `evidenceItems`
unfoldable pub evidence_items : HypothesisScore → List RcaEvidence
unfolding alert_items probe_items
evidence_items score =
    alert_items score.rule.id score.matches []
    ++ probe_items score.rule.id score.run.service score.run.results

unfoldable pub all_items : List HypothesisScore → List RcaEvidence
unfolding evidence_items
all_items [] = []
all_items (score ∷ scores) = evidence_items score ++ all_items scores
