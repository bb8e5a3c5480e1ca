-- ===== src/Jobs/Reserving.antt =====
-- The reservation of an execution: the transaction of `Execute` in internal/remediation/service.go.
use argus.Base.{ℕ, String, ◌≡◌, Bool, some, List}
use argus.Remediation.States.{approved}
use argus.Jobs.{Action}
use argus.Jobs.Store.{find_action, set_queued}

-- The row is approved before and queued after.
abbrev pub Queues : String → Bool → ℕ → List Action → List Action → Type 0
Queues id dry_run now rows rows' =
    (a : Action) × (find_action id rows ≡ some a)
    × (a.status ≡ approved)
    × (find_action id rows' ≡ some (set_queued dry_run now a))
