-- ===== src/Policy/Safety.antt =====
-- What `Evaluate` of internal/policy/engine.go allows.
use argus.Base.{
  ◌<◌, ◌≡◌, ◌≢◌, ◌↔◌, ◌⊎◌, refl, true, false, none, arith, elem, str_eq, str_eq-eq, str_eq-ne,
  eq-str_eq, ne-str_eq,
}
use argus.Actions.{effective_risk, is_registered, validate, collect_diagnostics}
use argus.Actions.Risk.{low_risk_is_diagnostics}
use argus.Policy.{Engine, Input, evaluate}

-- The conditions under which a remediation may go on.
pub record IsPermitted (e : Engine) (input : Input) : Type 0 where
  pub not_viewer : input.actor.role ≢ "viewer"
  pub has_role : input.actor.role ≢ ""
  pub in_environment : elem input.incident.environment e.environments ≡ true
  pub known_action : is_registered input.remediation.action ≡ true
  pub few_repeats : input.history.same_action_last_10m < 2
  pub few_failures : input.history.failed_attempts < 2
  pub valid_action :
      validate input.remediation.action input.remediation.target input.remediation.parameters ≡ none
  pub moderate_risk :
      (effective_risk input.remediation.action input.remediation.risk ≡ "low")
      ⊎ (effective_risk input.remediation.action input.remediation.risk ≡ "medium")

permitted : (e : Engine) (input : Input) → (evaluate e input).allow ≡ true → IsPermitted e input
unfolding evaluate
permitted e input h =
    let risk = effective_risk input.remediation.action input.remediation.risk in
    ground (
      arith,
      ne-str_eq input.actor.role "viewer",
      ne-str_eq input.actor.role "",
      str_eq-eq risk "low",
      str_eq-eq risk "medium",
    )

high_is_not_low : str_eq "low" "high" ≡ false
unfolding str_eq
high_is_not_low = refl

high_is_not_medium : str_eq "medium" "high" ≡ false
unfolding str_eq
high_is_not_medium = refl

allows : (e : Engine) (input : Input) → IsPermitted e input → (evaluate e input).allow ≡ true
unfolding evaluate
allows e input p =
    let risk = effective_risk input.remediation.action input.remediation.risk in
    ground (
      arith,
      str_eq-ne input.actor.role "viewer" p.not_viewer,
      str_eq-ne input.actor.role "" p.has_role,
      high_is_not_low,
      high_is_not_medium,
      eq-str_eq risk "low",
      eq-str_eq risk "medium",
    )

-- `Evaluate` allows a remediation exactly when the actor has a role that is not viewer, the
-- environment is enabled, the action is registered and valid, it was proposed less than twice in
-- ten minutes and failed less than twice, and its effective risk is low or medium.
pub evaluate-allow_iff :
    (e : Engine) (input : Input) → ((evaluate e input).allow ≡ true) ↔ IsPermitted e input
evaluate-allow_iff e input = (permitted e input, allows e input)

low_of_unattended :
    (e : Engine) (input : Input)
    → (evaluate e input).allow ≡ true
    → (evaluate e input).requires_approval ≡ false
    → effective_risk input.remediation.action input.remediation.risk ≡ "low"
unfolding evaluate
low_of_unattended e input h no_approval =
    let risk = effective_risk input.remediation.action input.remediation.risk in
    ground (arith, str_eq-eq risk "low")

-- Nothing but the collection of diagnostics is allowed without a human: a decision that allows a
-- remediation and asks for no approval is about collect_diagnostics, whatever risk was requested.
pub unattended_is_diagnostics :
    (e : Engine) (input : Input)
    → (evaluate e input).allow ≡ true
    → (evaluate e input).requires_approval ≡ false
    → input.remediation.action ≡ collect_diagnostics
unattended_is_diagnostics e input h no_approval =
    low_risk_is_diagnostics input.remediation.action input.remediation.risk
      (permitted e input h).known_action (low_of_unattended e input h no_approval)

-- The attempts follow the class: a decision that allows a remediation allows two attempts if it
-- asks for no approval, and one if it does; a decision that blocks it keeps approval and one.
pub evaluate-attempts :
    (e : Engine) (input : Input)
    → ((evaluate e input).requires_approval ≡ false
        × (evaluate e input).allow ≡ true
        × (evaluate e input).max_attempts ≡ 2)
      ⊎ ((evaluate e input).requires_approval ≡ true × (evaluate e input).max_attempts ≡ 1)
unfolding evaluate
evaluate-attempts e input = ground arith
