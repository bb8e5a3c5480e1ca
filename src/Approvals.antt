-- ===== src/Approvals.antt =====
-- The approval requests and their database: internal/approvals/types.go and
-- internal/approvals/store.go. The audit ledger is a parameter, since the store only calls its
-- `WriteTx`; an error of the database itself is not modelled.
pub mod Store
pub mod Sweep
pub mod Service
pub mod Rows
pub mod Final
pub mod Operations
pub mod Sweeping
pub mod Steps
pub mod Meaning
pub mod Verdict
pub mod Late
pub mod Approved
pub mod Quiet
pub mod Approving
use argus.Base.{
  ℕ, suc, ◌+◌, String, Bool, true, false, Option, none, some, List, [], ◌∷◌, Dict, str_eq,
  if◌then◌else◌,
}
use argus.Base.Result.{Result, ok, err}
use argus.Actions.{Value}
use argus.Remediation.States.{State, awaiting_approval}

-- `StatusPending` and the other four.
pub data RequestStatus : Type 0 where
  pending approved denied expired cancelled : RequestStatus

-- `Request`; a time that may be NULL is an option.
pub record Request : Type 0 where
  pub id : String
  pub remediation_id : String
  pub incident_id : String
  pub action_type : String
  pub target : String
  pub parameters : Dict Value
  pub risk : String
  pub status : RequestStatus
  pub requested_by : String
  pub requested_at : ℕ
  pub escalates_at : ℕ
  pub expires_at : ℕ
  pub escalated_at : Option ℕ
  pub decided_at : Option ℕ
  pub decided_by : String
  pub decision_reason : String
  pub decision_source : String
  pub notification_status : String
  pub notification_attempts : ℕ
  pub last_notification_error : String
  pub created_at : ℕ
  pub updated_at : ℕ

-- The columns of `remediation_actions` that the store writes.
pub record Remediation : Type 0 where
  pub id : String
  pub status : State
  pub approved_by : Option String

-- What the maps of an audit entry hold.
pub data Detail : Type 0 where
  status_of : RequestStatus → Detail
  state_of : State → Detail
  word : String → Detail
  time : ℕ → Detail
  values : Dict Value → Detail
  number : ℕ → Detail
  flag : Bool → Detail
  nil : Detail

-- `audit.Entry`, of which the ledger fills in the rest.
pub record Event : Type 0 where
  pub actor_id : String
  pub actor_type : String
  pub action : String
  pub resource_type : String
  pub resource_id : String
  pub before_state : Dict Detail
  pub after_state : Dict Detail
  pub metadata : Dict Detail

pub data ApprovalError : Type 0 where
  not_found already_decided request_expired insert_failed not_awaiting audit_failed : ApprovalError
  bad_decision no_approver no_reason self_approval : ApprovalError

pub record Database (L : Type 0) : Type 0 where
  pub requests : List Request
  pub remediations : List Remediation
  pub ledger : L

abbrev pub is_pending : RequestStatus → Bool
is_pending pending = true
is_pending _ = false

abbrev pub is_awaiting : State → Bool
is_awaiting awaiting_approval = true
is_awaiting _ = false

-- `UPDATE ... SET ... WHERE`, and how many rows it affects.
unfoldable pub update_where {ℓ} : {A : Type ℓ} → (A → Bool) → (A → A) → List A → List A
update_where p f [] = []
update_where p f (x ∷ xs) = (if p x then f x else x) ∷ update_where p f xs

unfoldable pub count_where {ℓ} : {A : Type ℓ} → (A → Bool) → List A → ℕ
count_where p [] = 0
count_where p (x ∷ xs) = (if p x then 1 else 0) + count_where p xs

-- `SELECT ... WHERE id = $1`, and `WHERE remediation_id = $1`.
unfoldable pub find_request : String → List Request → Option Request
find_request id [] = none
find_request id (r ∷ rs) = if str_eq r.id id then some r else find_request id rs

unfoldable pub find_by_remediation : String → List Request → Option Request
find_by_remediation id [] = none
find_by_remediation id (r ∷ rs) =
    if str_eq r.remediation_id id then some r else find_by_remediation id rs

-- A transaction: it is rolled back on an error.
abbrev pub transact {ℓ} :
    {L : Type 0} {A : Type ℓ}
    → Database L
    → Result ApprovalError (Database L × A)
    → Database L × Result ApprovalError A
transact db (ok (db', a)) = (db', ok a)
transact db (err e) = (db, err e)
