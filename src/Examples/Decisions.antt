-- ===== src/Examples/Decisions.antt =====
-- Runs of internal/actions/catalog.go and internal/policy/engine.go.
use argus.Base.{String, ◌≡◌, ◌↔◌, refl, true, false, [], ◌∷◌, lookup, elem, str_eq}
use argus.Actions.{is_registered, risk, rank, effective_risk, validate, collect_diagnostics}
use argus.Policy.{Engine, Input, evaluate}
use argus.Policy.Safety.{IsPermitted, evaluate-allow_iff, unattended_is_diagnostics}

abbrev low : String
low = "low"

abbrev engine : Engine
engine = record { environments = "local" ∷ [] }

abbrev input : Input
input = record {
  actor = record { id = "u1"; role = "operator" };
  incident = record { id = "i1"; severity = "high"; service = "payments"; environment = "local" };
  remediation = record {
    action = collect_diagnostics;
    target = "payments";
    risk = "";
    dry_run = false;
    parameters = [];
  };
  history = record { same_action_last_10m = 0; failed_attempts = 1 };
}

is_allowed : (evaluate engine input).allow ≡ true
unfolding evaluate str_eq elem effective_risk risk lookup is_registered validate
is_allowed = refl

is_unattended : (evaluate engine input).requires_approval ≡ false
unfolding evaluate str_eq elem effective_risk risk lookup is_registered validate
is_unattended = refl

evaluate-allow_iff_example : ((evaluate engine input).allow ≡ true) ↔ IsPermitted engine input
evaluate-allow_iff_example = evaluate-allow_iff engine input

unattended_example : input.remediation.action ≡ collect_diagnostics
unattended_example = unattended_is_diagnostics engine input is_allowed is_unattended

diagnostics_registered : is_registered collect_diagnostics ≡ true
unfolding is_registered elem str_eq
diagnostics_registered = refl

diagnostics_low : effective_risk collect_diagnostics "low" ≡ "low"
unfolding effective_risk risk lookup str_eq rank
diagnostics_low = refl
