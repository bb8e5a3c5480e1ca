-- ===== src/Correlation/Rules.antt =====
-- The rule table and its validation: internal/correlation/rules.go. A risk and a rule identifier
-- are texts, as in the code.
use argus.Base.{
  ℕ, ◌+◌, String, Bool, false, not, ◌&&◌, ◌||◌, Option, none, some, List, [], ◌∷◌, length, Dict,
  lookup, insert, elem, str_eq, ◌==◌, codes, has_prefix, replace_all, if◌then◌else◌,
}
use argus.Base.Int.{ℤ, pos, ltb_ℤ, add_ℤ}
use argus.Base.Result.{Result, ok, err}
use argus.Actions.{Value, ActionError, validate, is_registered, get_or}
use argus.Evidence.{Probe, EvidenceError, validate_probe}

-- `CandidateTemplate`
pub record CandidateTemplate : Type 0 where
  pub action_type : String
  pub target_label : String
  pub fallback_to_service : Bool
  pub target_format : String
  pub parameters : Dict Value
  pub risk : String

pub record Rule : Type 0 where
  pub id : String
  pub hypothesis : String
  pub alert_names : List String
  pub probes : List Probe
  pub remediations : List CandidateTemplate

pub data RuleError : Type 0 where
  no_id_or_hypothesis no_alert_names no_probes only_symptoms weights_too_large : RuleError
  duplicate_id duplicate_probe : String → RuleError
  alert_claimed_twice : String → RuleError
  invalid_probe : EvidenceError → RuleError
  unregistered_action unknown_risk bad_format redundant_fallback : RuleError

-- `strings.Count` of a text that does not overlap itself.
unfoldable pub count_text : List ℕ → List ℕ → ℕ
count_text [] t = 0
count_text (c ∷ s) t = (if has_prefix (c ∷ s) t then 1 else 0) + count_text s t

-- `validateTemplate`; nil is none.
unfoldable pub validate_template : CandidateTemplate → Option RuleError
unfolding count_text
validate_template template =
    if not (is_registered template.action_type)
    then some unregistered_action
    else if not (elem template.risk ("low" ∷ "medium" ∷ "high" ∷ []))
    then some unknown_risk
    else if not (str_eq template.target_format "")
        && not (count_text (codes template.target_format) (codes "%s") == 1)
    then some bad_format
    else if str_eq template.target_label "" && template.fallback_to_service
    then some redundant_fallback
    else none

unfoldable pub validate_templates : List CandidateTemplate → Option RuleError
unfolding validate_template
validate_templates [] = none
validate_templates (template ∷ templates) =
    let rest = validate_templates templates in
    elim (validate_template template) [ none ↦ rest | some e ↦ some e ]

-- The loop over the alert names: which rule claims each.
unfoldable pub claim_names : String → List String → Dict String → Result RuleError (Dict String)
claim_names id [] owners = ok owners
claim_names id (name ∷ names) owners =
    let rest = claim_names id names (insert name id owners) in
    elim (lookup name owners) [ none ↦ rest | some owner ↦ err (alert_claimed_twice name) ]

-- What the loop over the probes keeps: the identifiers, the sum of the weights, and whether a probe
-- is no symptom.
pub record ProbeTally : Type 0 where
  pub ids : List String
  pub total : ℤ
  pub has_cause : Bool

unfoldable pub tally_probes : List Probe → ProbeTally → Result RuleError ProbeTally
tally_probes [] tally = ok tally
tally_probes (probe ∷ probes) tally =
    let rest = tally_probes probes (record {
      ids = probe.id ∷ tally.ids;
      total = add_ℤ tally.total probe.weight;
      has_cause = tally.has_cause || not probe.symptom;
    }) in
    elim (validate_probe probe) [
      | some e ↦ err (invalid_probe e)
      | none ↦ if elem probe.id tally.ids then err (duplicate_probe probe.id) else rest
    ]

-- The checks of one rule after its alert names.
unfoldable pub validate_rest : Rule → Option RuleError
unfolding tally_probes validate_templates
validate_rest rule =
    if length rule.probes == 0
    then some no_probes
    else elim (tally_probes rule.probes (record { ids = []; total = pos 0; has_cause = false })) [
      | err e ↦ some e
      | ok tally ↦
          if not tally.has_cause
          then some only_symptoms
          else if ltb_ℤ (pos 5000) tally.total
          then some weights_too_large
          else validate_templates rule.remediations
    ]

-- The loop of `ValidateRules`.
unfoldable pub validate_from : List Rule → List String → Dict String → Option RuleError
unfolding claim_names validate_rest
validate_from [] ids owners = none
validate_from (rule ∷ rules) ids owners =
    let go_on = λ (owners' : Dict String). validate_from rules (rule.id ∷ ids) owners' in
    if str_eq rule.id "" || str_eq rule.hypothesis ""
    then some no_id_or_hypothesis
    else if elem rule.id ids
    then some (duplicate_id rule.id)
    else if length rule.alert_names == 0
    then some no_alert_names
    else elim (claim_names rule.id rule.alert_names owners) [
      | err e ↦ some e
      | ok owners' ↦ elim (validate_rest rule) [ some e ↦ some e | none ↦ go_on owners' ]
    ]

-- `ValidateRules`; nil is none.
unfoldable pub validate_rules : List Rule → Option RuleError
unfolding validate_from
validate_rules rules = validate_from rules [] []

-- Why `Render` gives no target.
pub data Skipped : Type 0 where
  no_value : String → Skipped
  rejected : String → ActionError → Skipped

-- `fmt.Sprintf` of a pattern whose only verb is %s.
unfoldable pub format_target : String → String → String
format_target format value = if str_eq format "" then value else replace_all format "%s" value

unfoldable pub target_value : CandidateTemplate → String → Dict String → String
target_value template service labels =
    let value = get_or (lookup template.target_label labels) "" in
    if str_eq template.target_label ""
    then service
    else if str_eq value "" && template.fallback_to_service
    then service
    else value

-- `Render`: the target and the parameters, or the reason that there are none.
unfoldable pub render_template :
    CandidateTemplate → String → Dict String → Result Skipped (String × Dict Value)
unfolding target_value format_target
render_template template service labels =
    let value = target_value template service labels in
    let target = format_target template.target_format value in
    if str_eq value ""
    then err (no_value template.target_label)
    else elim (validate template.action_type target template.parameters) [
      | some e ↦ err (rejected target e)
      | none ↦ ok (target, template.parameters)
    ]
