-- ===== src/Correlation.antt =====
-- The correlation of alerts with failure modes: internal/correlation/correlator.go.
pub mod Rules
pub mod Table
pub mod Identity
pub mod Weights
use argus.Base.{
  ℕ, zero, suc, ◌+◌, String, Bool, true, false, not, ◌||◌, Option, none, some, List, [], ◌∷◌, Dict,
  lookup, insert, str_eq, ltb, ◌==◌, if◌then◌else◌,
}
use argus.Base.Result.{Result, ok, err}
use argus.Actions.{Value, text, get_or}
use Rules.{Rule, RuleError, validate_rules}

-- `FailureModeLabel`
abbrev pub failure_mode_label : String
failure_mode_label = "argus_failure_mode"

-- The dynamic types of `signal.Body["labels"]` that are read.
pub data BodyLabels : Type 0 where
  string_map : Dict String → BodyLabels
  any_map : Dict Value → BodyLabels
  no_labels : BodyLabels

-- The columns of an incident that are read here; a time of 0 is the zero time.
pub record Incident : Type 0 where
  pub service : String
  pub started_at : ℕ

-- `observed_service` is `Body["topology"]["observed_service"]`, if that is a text.
pub record Signal : Type 0 where
  pub id : String
  pub name : String
  pub labels : BodyLabels
  pub observed_service : Option String
  pub observed_at : ℕ

-- How a match was made.
pub data Reason : Type 0 where
  by_label by_alert_name : Reason

pub record Match : Type 0 where
  pub rule_id : String
  pub rule : Rule
  pub signal_id : String
  pub alert_name : String
  pub service : String
  pub labels : Dict String
  pub observed_at : ℕ
  pub reason : Reason

pub record Correlator : Type 0 where
  pub rules : List Rule
  pub by_alert_name : Dict ℕ
  pub by_id : Dict ℕ

unfoldable pub rule_at : List Rule → ℕ → Option Rule
rule_at [] i = none
rule_at (rule ∷ rules) zero = some rule
rule_at (rule ∷ rules) (suc i) = rule_at rules i

unfoldable pub index_names : ℕ → List String → Dict ℕ → Dict ℕ
index_names i [] m = m
index_names i (name ∷ names) m = index_names i names (insert name i m)

unfoldable pub index_rules : ℕ → List Rule → Correlator → Correlator
unfolding index_names
index_rules i [] c = c
index_rules i (rule ∷ rules) c = index_rules (i + 1) rules (record {
  rules = c.rules;
  by_id = insert rule.id i c.by_id;
  by_alert_name = index_names i rule.alert_names c.by_alert_name;
})

-- `NewWithRules`
unfoldable pub new_with_rules : List Rule → Result RuleError Correlator
unfolding index_rules
new_with_rules rules = elim (validate_rules rules) [
  | some e ↦ err e
  | none ↦ ok (index_rules 0 rules (record { rules = rules; by_alert_name = []; by_id = [] }))
]

abbrev text_of : Value → Option String
text_of (text s) = some s
text_of _ = none

unfoldable pub text_labels : Dict Value → Dict String
text_labels [] = []
text_labels ((key, value) ∷ m) =
    let rest = text_labels m in elim (text_of value) [ some s ↦ (key, s) ∷ rest | none ↦ rest ]

-- `SignalLabels`
unfoldable pub signal_labels : Signal → Dict String
unfolding text_labels
signal_labels signal = elim signal.labels [
  | string_map m ↦ m
  | any_map m ↦ text_labels m
  | no_labels ↦ []
]

-- `labels[key]`: a missing key reads as the empty text.
unfoldable pub label : Dict String → String → String
label labels key = get_or (lookup key labels) ""

-- `SignalService`
unfoldable pub signal_service : Incident → Signal → Dict String → String
unfolding label
signal_service incident signal labels =
    let observed = get_or signal.observed_service "" in
    if not (str_eq (label labels "service") "")
    then label labels "service"
    else if not (str_eq observed "")
    then observed
    else incident.service

unfoldable pub signal_alert_name : Signal → Dict String → String
unfolding label
signal_alert_name signal labels =
    if str_eq signal.name "" then label labels "alertname" else signal.name

-- The index of the rule, by the explicit label or else by the name of the alert.
unfoldable pub select : Correlator → String → Dict String → Option (ℕ × Reason)
select c alert_name labels =
    let mode = label labels failure_mode_label in
    let named : Option (ℕ × Reason) = elim (lookup alert_name c.by_alert_name) [
      | some i ↦ some (i, by_alert_name)
      | none ↦ none
    ] in
    if str_eq mode ""
    then named
    else elim (lookup mode c.by_id) [ some i ↦ some (i, by_label) | none ↦ named ]

-- The body of the loop; an index is never out of range.
unfoldable pub match_signal : Correlator → Incident → Signal → Option Match
match_signal c incident signal =
    let labels = signal_labels signal in
    let alert_name = signal_alert_name signal labels in
    elim (select c alert_name labels) [
      | none ↦ none
      | some (i, reason) ↦ elim (rule_at c.rules i) [
        | none ↦ none
        | some rule ↦ some (record {
          rule_id = rule.id;
          rule = rule;
          signal_id = signal.id;
          alert_name = alert_name;
          service = signal_service incident signal labels;
          labels = labels;
          observed_at = if signal.observed_at == 0 then incident.started_at else signal.observed_at;
          reason = reason;
        })
      ]
    ]

unfoldable pub match_all : Correlator → Incident → List Signal → List Match
match_all c incident [] = []
match_all c incident (signal ∷ signals) =
    let rest = match_all c incident signals in
    elim (match_signal c incident signal) [ none ↦ rest | some m ↦ m ∷ rest ]

-- `sort.SliceStable` by the time of observation: equal times keep their order.
unfoldable pub insert_match : Match → List Match → List Match
insert_match m [] = m ∷ []
insert_match m (n ∷ ms) =
    if ltb n.observed_at m.observed_at then n ∷ insert_match m ms else m ∷ n ∷ ms

unfoldable pub sort_matches : List Match → List Match
unfolding insert_match
sort_matches [] = []
sort_matches (m ∷ ms) = insert_match m (sort_matches ms)

-- `Match`
unfoldable pub match_signals : Correlator → Incident → List Signal → List Match
unfolding match_all sort_matches
match_signals c incident signals = sort_matches (match_all c incident signals)
