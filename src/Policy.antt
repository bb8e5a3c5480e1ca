-- ===== src/Policy.antt =====
-- The remediation policy: internal/policy/engine.go.
pub mod Safety
use argus.Base.{
  ℕ, String, Bool, true, false, not, Option, none, some, List, [], ◌∷◌, Dict, elem, str_eq, leb,
  trim_space, if◌then◌else◌,
}
use argus.Actions.{Value, ActionError, effective_risk, is_registered, validate}

pub record Actor : Type 0 where
  pub id : String
  pub role : String

pub record IncidentInput : Type 0 where
  pub id : String
  pub severity : String
  pub service : String
  pub environment : String

pub record RemediationInput : Type 0 where
  pub action : String
  pub target : String
  pub risk : String
  pub dry_run : Bool
  pub parameters : Dict Value

pub record History : Type 0 where
  pub same_action_last_10m : ℕ
  pub failed_attempts : ℕ

pub record Input : Type 0 where
  pub actor : Actor
  pub incident : IncidentInput
  pub remediation : RemediationInput
  pub history : History

-- The texts of `Reason`.
pub data Reason : Type 0 where
  blocked_by_default viewer_cannot_propose role_missing : Reason
  environment_not_enabled : String → Reason
  high_risk_blocked not_registered too_many_repeats circuit_breaker : Reason
  invalid_action : ActionError → Reason
  low_risk_allowed medium_needs_approval unknown_risk : Reason

pub record Decision : Type 0 where
  pub allow : Bool
  pub requires_approval : Bool
  pub reason : Reason
  pub max_attempts : ℕ
  pub risk : String

pub record Engine : Type 0 where
  pub environments : List String

-- `NewEngineForEnvironments`
unfoldable pub new_engine_for_environments : List String → Engine
new_engine_for_environments [] = record { environments = [] }
new_engine_for_environments (environment ∷ rest) =
    let engine = new_engine_for_environments rest in
    let trimmed = trim_space environment in
    if str_eq trimmed "" then engine else record { environments = trimmed ∷ engine.environments }

-- `NewEngine`
unfoldable pub new_engine : Engine
unfolding new_engine_for_environments trim_space str_eq
new_engine = new_engine_for_environments ("local" ∷ [])

abbrev pub default_decision : Decision
default_decision = record {
  allow = false;
  requires_approval = true;
  reason = blocked_by_default;
  max_attempts = 1;
  risk = "";
}

-- The final `switch` on the effective risk.
unfoldable pub by_risk : String → Decision → Decision
by_risk risk decision =
    if str_eq risk "low"
    then record decision {
      allow = true;
      requires_approval = false;
      reason = low_risk_allowed;
      max_attempts = 2;
    }
    else if str_eq risk "medium"
    then record decision {
      allow = true;
      requires_approval = true;
      reason = medium_needs_approval;
      max_attempts = 1;
    }
    else record decision { allow = false; reason = unknown_risk }

-- `if err := actions.Validate(...); err != nil`
abbrev pub unless_invalid : Option ActionError → Decision → Decision → Decision
unless_invalid none decision checked = checked
unless_invalid (some err) decision checked = record decision { reason = invalid_action err }

-- `(*Engine).Evaluate`
unfoldable pub evaluate : Engine → Input → Decision
unfolding by_risk
evaluate e input =
    let r = input.remediation in
    let risk = effective_risk r.action r.risk in
    let decision : Decision = record default_decision { risk = risk } in
    if str_eq input.actor.role "viewer"
    then record default_decision { reason = viewer_cannot_propose }
    else if str_eq input.actor.role ""
    then record default_decision { reason = role_missing }
    else if not (elem input.incident.environment e.environments)
    then record default_decision { reason = environment_not_enabled input.incident.environment }
    else if str_eq risk "high"
    then record decision { reason = high_risk_blocked }
    else if not (is_registered r.action)
    then record decision { reason = not_registered }
    else if leb 2 input.history.same_action_last_10m
    then record decision { reason = too_many_repeats }
    else if leb 2 input.history.failed_attempts
    then record decision { reason = circuit_breaker }
    else unless_invalid (validate r.action r.target r.parameters) decision (by_risk risk decision)
