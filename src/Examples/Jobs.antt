-- ===== src/Examples/Jobs.antt =====
-- Runs of internal/workers/control_state.go: a feature flag that is turned off.
use argus.Base.{String, ◌≡◌, refl, false, true, ◌&&◌, str_eq, none, some, [], ◌∷◌, Dict, insert}
use argus.Base.Result.{ok}
use argus.Workers.ControlState.{
  Outcome, Tables, commit, find_receipt, find_state, decode_column, is_target, call, current_state,
  state_result, merge_state, assign_all, preview, reuse, stored, apply_new, apply_tx, settle,
  apply_once,
}
use argus.Workers.ControlState.Once.{Job, handle, handle_all, no_faults, apply_once-once}
use argus.Workers.ControlState.Effect.{apply_once-previewed}

abbrev desired : Dict String
desired = ("enabled", "false") ∷ []

abbrev was : Dict String
was = ("enabled", "true") ∷ ("owner", "ana") ∷ []

abbrev merged : Dict String
merged = ("owner", "ana") ∷ ("enabled", "false") ∷ []

abbrev tables : Tables String
tables = record {
  states = record { resource_type = "feature_flag"; target = "checkout"; state = some was } ∷ [];
  receipts = [];
}

abbrev job : Job String
job = record {
  faults = no_faults;
  key = "rem1";
  action = "toggle_feature_flag";
  kind = "feature_flag";
  target = "checkout";
  desired = desired;
}

-- Another job, whose commit fails.
abbrev lost : Job String
lost = record job { faults = λ e. elim e [ commit ↦ true | _ ↦ false ]; key = "rem2" }

abbrev shown : Outcome String
shown = state_result "dry-run" "feature_flag" "checkout" was merged false none

abbrev applied : Outcome String
applied = state_result "execute" "feature_flag" "checkout" was merged false (some "rem1")

job_applies :
    (apply_once no_faults "rem1" "toggle_feature_flag" "feature_flag" "checkout" desired tables).1
    ≡ ok applied
unfolding apply_once apply_tx apply_new settle stored call current_state decode_column find_state
    find_receipt merge_state assign_all state_result is_target str_eq insert
job_applies = refl

job_shown : preview no_faults "feature_flag" "checkout" desired tables ≡ ok shown
unfolding preview call current_state decode_column find_state merge_state assign_all state_result
    is_target str_eq insert
job_shown = refl

no_receipt : find_receipt "rem1" tables.receipts ≡ none
unfolding find_receipt
no_receipt = refl

apply_once-once_example :
    apply_once no_faults "rem1" "toggle_feature_flag" "feature_flag" "checkout" []
      (handle_all (lost ∷ []) (handle job tables))
    ≡ (handle_all (lost ∷ []) (handle job tables), ok (reuse applied))
apply_once-once_example =
    apply_once-once job tables applied (lost ∷ []) "toggle_feature_flag" "feature_flag" "checkout"
      [] job_applies

abbrev left : Tables String
left =
    (apply_once no_faults "rem1" "toggle_feature_flag" "feature_flag" "checkout" desired tables).0

apply_once-previewed_example :
    (applied.before ≡ shown.before)
    × (applied.after ≡ shown.after)
    × (find_state "feature_flag" "checkout" left.states ≡ some (some shown.after))
    × ((kind' target' : String)
        → (str_eq "feature_flag" kind' && str_eq "checkout" target') ≡ false
        → find_state kind' target' left.states ≡ find_state kind' target' tables.states)
apply_once-previewed_example =
    apply_once-previewed no_faults "rem1" "toggle_feature_flag" "feature_flag" "checkout" desired
      tables no_faults shown applied job_shown no_receipt job_applies
