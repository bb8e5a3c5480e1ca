-- ===== src/Correlation/Identity.antt =====
-- By what `Match` of internal/correlation/correlator.go selects a rule.
use mathlib.Core.Path.{subst}
use argus.Base.{
  ℕ, suc, ◌+◌, String, ◌≡◌, ◌≢◌, ◌⊎◌, refl, sym, ◌∙◌, true, Option, some, List, [], ◌∷◌, arith,
  Dict, lookup, insert, lookup-insert, elem, str_eq, str_eq-eq, eq-str_eq, Option-cases, Bool-cases,
  inl, inr,
}
use argus.Base.Result.{Result, ok}
use argus.Correlation.Rules.{Rule, RuleError, validate_rules}
use argus.Correlation.{
  Incident, Signal, Match, Reason, by_label, by_alert_name, Correlator, rule_at, index_names,
  index_rules, new_with_rules, signal_labels, label, signal_alert_name, select, match_signal,
  failure_mode_label,
}

-- An index entry points at a rule that has the property.
abbrev Points : List Rule → (Rule → Type 0) → ℕ → Type 0
Points rules P i = (rule : Rule) × (rule_at rules i ≡ some rule) × P rule

-- The two indexes of a correlator point at rules with that identifier or alert name.
pub record IsIndexed (c : Correlator) : Type 0 where
  pub ids :
      (k : String) (i : ℕ) → lookup k c.by_id ≡ some i → Points c.rules (λ rule. rule.id ≡ k) i
  pub names :
      (k : String) (i : ℕ)
      → lookup k c.by_alert_name ≡ some i
      → Points c.rules (λ rule. elem k rule.alert_names ≡ true) i

-- A key of the index over the names was there before, or is one of the names and has their index.
index_names-lookup :
    (i : ℕ) (ns : List String) (m : Dict ℕ) (k : String) (j : ℕ)
    → lookup k (index_names i ns m) ≡ some j
    → (lookup k m ≡ some j) ⊎ ((elem k ns ≡ true) × (j ≡ i))
unfolding index_names elem
index_names-lookup i [] m k j h = inl h
index_names-lookup i (n ∷ ns) m k j h =
    ground (arith, index_names-lookup i ns (insert n i m) k j h, lookup-insert n k i m)

abbrev indexed : Correlator → ℕ → Rule → Correlator
indexed c i rule = record {
  rules = c.rules;
  by_id = insert rule.id i c.by_id;
  by_alert_name = index_names i rule.alert_names c.by_alert_name;
}

indexed-IsIndexed :
    (c : Correlator) (i : ℕ) (rule : Rule)
    → IsIndexed c
    → rule_at c.rules i ≡ some rule
    → IsIndexed (indexed c i rule)
indexed-IsIndexed c i rule x at = record {
  ids = λ k j h. elim (Bool-cases (str_eq rule.id k)) [
    | inl same ↦
        let i_is : ◌≡◌ {A = Option ℕ} (some i) (some j) =
          rw same at (sym (lookup-insert rule.id k i c.by_id) ∙ h) in
        rw (← same_index i_is) (rule, at, str_eq-eq rule.id k same)
    | inr differ ↦ x.ids k j (rw differ at (sym (lookup-insert rule.id k i c.by_id) ∙ h))
  ];
  names = λ k j h. elim (index_names-lookup i rule.alert_names c.by_alert_name k j h) [
    | inl before ↦ x.names k j before
    | inr (named, j_is) ↦ rw j_is (rule, at, named)
  ];
}
  where
    same_index : {a b : ℕ} → ◌≡◌ {A = Option ℕ} (some a) (some b) → a ≡ b
    same_index e = cc

index_rules-IsIndexed :
    (rules : List Rule) (i : ℕ) (c : Correlator)
    → IsIndexed c
    → ((k : ℕ) (rule : Rule) → rule_at rules k ≡ some rule → rule_at c.rules (i + k) ≡ some rule)
    → IsIndexed (index_rules i rules c) × ((index_rules i rules c).rules ≡ c.rules)
unfolding index_rules rule_at
index_rules-IsIndexed [] i c x at = (x, refl)
index_rules-IsIndexed (rule ∷ rules) i c x at =
    index_rules-IsIndexed rules (i + 1) (indexed c i rule)
      (indexed-IsIndexed c i rule x
        (subst (λ j. rule_at c.rules j ≡ some rule) (omega arith) (at 0 rule refl)))
      (λ k r h. subst (λ j. rule_at c.rules j ≡ some r) (omega arith) (at (suc k) r h))

no_index :
    (rules : List Rule) → IsIndexed (record { rules = rules; by_alert_name = []; by_id = [] })
unfolding lookup
no_index rules = record { ids = λ k i h. cc; names = λ k i h. cc }

new_with_rules-IsIndexed :
    (rules : List Rule) (c : Correlator)
    → new_with_rules rules ≡ ok c
    → IsIndexed c × (c.rules ≡ rules)
unfolding new_with_rules
new_with_rules-IsIndexed rules c h = elim (Option-cases (validate_rules rules)) [
  | inr (e, bad) ↦ cc (rw (bad, new_with_rules) at h)
  | inl good ↦
      let start : Correlator = record { rules = rules; by_alert_name = []; by_id = [] } in
      let same = same_correlator (rw (good, new_with_rules) at h) in
      rw (← same) (
        index_rules-IsIndexed rules 0 start (no_index rules)
          (λ k rule at. subst (λ j. rule_at rules j ≡ some rule) (omega arith) at))
]
  where
    same_correlator :
        {a b : Correlator} → ◌≡◌ {A = Result RuleError Correlator} (ok a) (ok b) → a ≡ b
    same_correlator e = cc

-- The rule is named by the failure-mode label of the signal, or by the name of its alert.
abbrev pub IsNamed : Rule → Signal → Reason → Type 0
IsNamed rule signal by_label =
    (rule.id ≡ label (signal_labels signal) failure_mode_label)
    × (label (signal_labels signal) failure_mode_label ≢ "")
IsNamed rule signal by_alert_name =
    elem (signal_alert_name signal (signal_labels signal)) rule.alert_names ≡ true

-- An index is selected by the one means or the other.
select-cases :
    (c : Correlator) (name : String) (labels : Dict String) (i : ℕ) (reason : Reason)
    → select c name labels ≡ some (i, reason)
    → ((reason ≡ by_label)
        × (label labels failure_mode_label ≢ "")
        × (lookup (label labels failure_mode_label) c.by_id ≡ some i))
      ⊎ ((reason ≡ by_alert_name) × (lookup name c.by_alert_name ≡ some i))
unfolding select
select-cases c name labels i reason h =
    let mode = label labels failure_mode_label in
    ground (arith, str_eq-eq mode "", eq-str_eq mode "")

-- A match carries a rule of the table that the signal names.
pub record IsSelected (rules : List Rule) (signal : Signal) (m : Match) : Type 0 where
  pub index : ℕ
  pub in_table : rule_at rules index ≡ some m.rule
  pub named : IsNamed m.rule signal m.reason
  pub same_id : m.rule_id ≡ m.rule.id
  pub same_labels : m.labels ≡ signal_labels signal

pointed :
    (c : Correlator) (signal : Signal) (i : ℕ) (reason : Reason)
    → IsIndexed c
    → select c (signal_alert_name signal (signal_labels signal)) (signal_labels signal)
      ≡ some (i, reason)
    → Points c.rules (λ rule. IsNamed rule signal reason) i
pointed c signal i reason x h =
    let labels = signal_labels signal in
    let mode = label labels failure_mode_label in
    elim (select-cases c (signal_alert_name signal labels) labels i reason h) [
      | inl (why, given, found) ↦
          let (rule, at, same) = x.ids mode i found in rw why (rule, at, (same, given))
      | inr (why, found) ↦ rw why (x.names (signal_alert_name signal labels) i found)
    ]

match_signal-IsSelected :
    (c : Correlator) (incident : Incident) (signal : Signal) (m : Match)
    → IsIndexed c
    → match_signal c incident signal ≡ some m
    → IsSelected c.rules signal m
unfolding match_signal
match_signal-IsSelected c incident signal m x h =
    let labels = signal_labels signal in
    elim (Option-cases (select c (signal_alert_name signal labels) labels)) [
      | inl absent ↦ cc (rw (absent, match_signal) at h)
      | inr ((i, reason), found) ↦
          let (rule, at, named) = pointed c signal i reason x found in
          rw (← same_match (rw (found, at, match_signal) at h))
            (record { index = i; in_table = at; named = named; same_id = refl; same_labels = refl })
    ]
  where
    same_match : {a b : Match} → some a ≡ some b → a ≡ b
    same_match e = cc

-- Rules are selected by identity only: what the correlator over a valid table matches a signal to is
-- a rule of the table whose identifier is the signal's failure-mode label, or one of whose alert
-- names is the signal's alert name.
pub match_by_identity :
    (rules : List Rule) (c : Correlator) (incident : Incident) (signal : Signal) (m : Match)
    → new_with_rules rules ≡ ok c
    → match_signal c incident signal ≡ some m
    → IsSelected rules signal m
match_by_identity rules c incident signal m made h =
    let (x, same) = new_with_rules-IsIndexed rules c made in
    subst (λ table. IsSelected table signal m) same
      (match_signal-IsSelected c incident signal m x h)
