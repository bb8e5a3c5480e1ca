-- ===== src/Jobs/Store.antt =====
-- The statements on `remediation_actions`: internal/incidents/store.go. Errors of the database
-- itself are left out.
use argus.Base.{
  ℕ, String, Bool, true, false, ◌&&◌, Option, none, some, List, [], ◌∷◌, Dict, str_eq, ◌==◌,
  if◌then◌else◌,
}
use argus.Actions.{Value}
use argus.Approvals.{update_where, count_where}
use argus.Remediation.States.{State, approved, queued, running, cancelled, state_eq}
use argus.Jobs.{Action}

-- `SELECT ... WHERE id = $1`
unfoldable pub find_action : String → List Action → Option Action
find_action id [] = none
find_action id (a ∷ rest) = if str_eq a.id id then some a else find_action id rest

-- `rows == 1` of `affectedOne`
abbrev pub affected_one : (Action → Bool) → List Action → Bool
affected_one p rows = count_where p rows == 1

-- `status IN ('queued', 'running')`
abbrev pub is_open : State → Bool
is_open queued = true
is_open running = true
is_open _ = false

abbrev pub is_queued : State → Bool
is_queued queued = true
is_queued _ = false

abbrev pub is_approved : State → Bool
is_approved approved = true
is_approved _ = false

-- The rows with an identifier whose status passes a test.
unfoldable pub row_where : String → (State → Bool) → Action → Bool
row_where id p a = str_eq a.id id && p a.status

-- `COALESCE(started_at, now())`
abbrev pub coalesce : Option ℕ → ℕ → Option ℕ
coalesce none now = some now
coalesce (some t) now = some t

abbrev pub set_cancelled : ℕ → Action → Action
set_cancelled now a = record a { status = cancelled; completed_at = some now }

abbrev pub set_queued : Bool → ℕ → Action → Action
set_queued dry_run now a = record a { status = queued; queued_at = some now; dry_run = dry_run }

abbrev pub set_released : Action → Action
set_released a = record a { status = approved; queued_at = none }

abbrev pub set_claimed : ℕ → Action → Action
set_claimed now a = record a { status = running; started_at = coalesce a.started_at now }

abbrev pub set_running : Option (Dict Value) → ℕ → Action → Action
set_running result now a = record (set_claimed now a) { result = result }

abbrev pub set_completed : State → Option (Dict Value) → String → ℕ → Action → Action
set_completed status result error now a = record a {
  status = status;
  completed_at = some now;
  result = result;
  error = error;
}

-- An `UPDATE` with `affectedOne`.
unfoldable pub update_one : (Action → Bool) → (Action → Action) → List Action → List Action × Bool
update_one p f rows = (update_where p f rows, affected_one p rows)

-- `CancelRemediation`
unfoldable pub cancel_remediation : String → State → ℕ → List Action → List Action × Bool
cancel_remediation id expected now =
    update_one (row_where id (λ s. state_eq s expected)) (set_cancelled now)

-- `MarkRemediationQueued`: none where no row is approved.
unfoldable pub mark_queued : String → Bool → ℕ → List Action → Option (List Action)
mark_queued id dry_run now rows =
    if count_where (row_where id is_approved) rows == 0
    then none
    else some (update_where (row_where id is_approved) (set_queued dry_run now) rows)

-- `ReleaseRemediationQueueReservation`
unfoldable pub release_reservation : String → List Action → List Action
release_reservation id = update_where (row_where id is_queued) set_released

-- `ClaimRemediation`
unfoldable pub claim_remediation : String → ℕ → List Action → List Action × Bool
claim_remediation id now = update_one (row_where id is_open) (set_claimed now)

-- `MarkRemediationRunning`
unfoldable pub mark_running : String → Option (Dict Value) → ℕ → List Action → List Action × Bool
mark_running id result now = update_one (row_where id is_open) (set_running result now)

-- `CompleteRemediation`
unfoldable pub complete_remediation :
    String → State → Option (Dict Value) → String → ℕ → List Action → List Action × Bool
complete_remediation id status result error now =
    update_one (row_where id is_open) (set_completed status result error now)
