-- ===== src/Workers/ControlState.antt =====
-- The durable control state: internal/workers/control_state.go.
--
-- A column holds `none` where its JSON is no object, which `Unmarshal` refuses. `faults` says which
-- calls of the database fail, each named by the error it becomes; a transaction whose commit fails
-- leaves no change, as one that is rolled back.
pub mod Merge
pub mod Once
pub mod Effect
use argus.Base.{
  String, Bool, true, false, ◌&&◌, Option, none, some, List, [], ◌∷◌, Dict, insert, str_eq,
  if◌then◌else◌,
}
use argus.Base.Result.{Result, ok, err, ◌>>=◌, ◌>>◌, or_err}

pub data ControlError : Type 0 where
  begin lock_receipt lock_target read_receipt decode_receipt commit_reused : ControlError
  read_state decode_state apply_state write_receipt commit : ControlError

abbrev pub Faults : Type 0
Faults = ControlError → Bool

-- The map of `stateResult`; only a stored result has an `idempotency_key`.
pub record Outcome (V : Type 0) : Type 0 where
  pub mode : String
  pub backend : String
  pub resource_type : String
  pub target : String
  pub before : Dict V
  pub after : Dict V
  pub reused : Bool
  pub idempotency_key : Option String

-- A row of `remediation_target_states`.
pub record TargetState (V : Type 0) : Type 0 where
  pub resource_type : String
  pub target : String
  pub state : Option (Dict V)

-- A row of `remediation_execution_receipts`.
pub record Receipt (V : Type 0) : Type 0 where
  pub idempotency_key : String
  pub action_type : String
  pub target : String
  pub result : Option (Outcome V)

pub record Tables (V : Type 0) : Type 0 where
  pub states : List (TargetState V)
  pub receipts : List (Receipt V)

-- `if err != nil` after a call of the database.
unfoldable pub call : Faults → ControlError → Result {0, 0} ControlError Unit
call faults e = if faults e then err e else ok tt

module _ {V : Type 0} where
  -- `for key, value := range m { merged[key] = value }`
  unfoldable pub assign_all : Dict V → Dict V → Dict V
  assign_all [] merged = merged
  assign_all ((key, value) ∷ m) merged = insert key value (assign_all m merged)

  unfoldable pub merge_state : Dict V → Dict V → Dict V
  merge_state current desired = assign_all desired (assign_all current [])

  unfoldable pub state_result :
      String → String → String → Dict V → Dict V → Bool → Option String → Outcome V
  state_result mode kind target before after reused key = record {
    mode = mode;
    backend = "durable-local-control-state";
    resource_type = kind;
    target = target;
    before = before;
    after = after;
    reused = reused;
    idempotency_key = key;
  }

  unfoldable pub is_target : String → String → TargetState V → Bool
  is_target kind target row = str_eq row.resource_type kind && str_eq row.target target

  -- `SELECT state FROM remediation_target_states`
  unfoldable pub find_state : String → String → List (TargetState V) → Option (Option (Dict V))
  find_state kind target [] = none
  find_state kind target (row ∷ rows) =
      if is_target kind target row then some row.state else find_state kind target rows

  -- `INSERT ... ON CONFLICT (resource_type, target) DO UPDATE`
  unfoldable pub put_state : String → String → Dict V → List (TargetState V) → List (TargetState V)
  put_state kind target state [] =
      record { resource_type = kind; target = target; state = some state } ∷ []
  put_state kind target state (row ∷ rows) =
      if is_target kind target row
      then record row { state = some state } ∷ rows
      else row ∷ put_state kind target state rows

  -- `SELECT result FROM remediation_execution_receipts`
  unfoldable pub find_receipt : String → List (Receipt V) → Option (Option (Outcome V))
  find_receipt key [] = none
  find_receipt key (row ∷ rows) =
      if str_eq row.idempotency_key key then some row.result else find_receipt key rows

  -- A target without a row has the empty state. A column holds a JSON object or does not decode: JSON
  -- null, which the code never writes, is left out; it would read as a nil map.
  unfoldable pub decode_column : Option (Option (Dict V)) → Result ControlError (Dict V)
  decode_column none = ok []
  decode_column (some none) = err decode_state
  decode_column (some (some state)) = ok state

  unfoldable pub current_state : Faults → String → String → Tables V → Result ControlError (Dict V)
  current_state faults kind target db =
      call faults read_state >> decode_column (find_state kind target db.states)

  unfoldable pub preview :
      Faults → String → String → Dict V → Tables V → Result ControlError (Outcome V)
  preview faults kind target desired db = current_state faults kind target db >>= λ current.
      ok (state_result "dry-run" kind target current (merge_state current desired) false none)

  -- The branch with a receipt: `result["reused"] = true`.
  unfoldable pub reuse : Outcome V → Outcome V
  reuse result = record result { reused = true }

  -- A receipt that holds JSON null, which the code never writes, is left out too: the assignment would
  -- panic.
  unfoldable pub reuse_receipt :
      Faults → Option (Outcome V) → Tables V → Result ControlError (Tables V × Outcome V)
  reuse_receipt faults column db =
      or_err decode_receipt column >>= λ result. call faults commit_reused >> ok (db, reuse result)

  -- What the two `INSERT`s leave.
  unfoldable pub stored :
      String → String → String → String → Dict V → Dict V → Tables V → Tables V × Outcome V
  stored key action kind target current after db =
      let result = state_result "execute" kind target current after false (some key) in
      (
        record {
          states = put_state kind target after db.states;
          receipts =
              record {
                idempotency_key = key;
                action_type = action;
                target = target;
                result = some result;
              }
              ∷ db.receipts;
        },
        result,
      )

  -- The branch without a receipt.
  unfoldable pub apply_new :
      Faults
      → String
      → String
      → String
      → String
      → Dict V
      → Tables V
      → Result ControlError (Tables V × Outcome V)
  apply_new faults key action kind target desired db =
      current_state faults kind target db >>= λ current.
      call faults apply_state
      >> call faults write_receipt
      >> call faults commit
      >> ok (stored key action kind target current (merge_state current desired) db)

  unfoldable pub apply_tx :
      Faults
      → String
      → String
      → String
      → String
      → Dict V
      → Tables V
      → Result ControlError (Tables V × Outcome V)
  apply_tx faults key action kind target desired db =
      call faults begin
      >> call faults lock_receipt
      >> call faults lock_target
      >> call faults read_receipt
      >> elim (find_receipt key db.receipts) [
        | some column ↦ reuse_receipt faults column db
        | none ↦ apply_new faults key action kind target desired db
      ]

  -- `defer tx.Rollback()`
  unfoldable pub settle :
      Tables V
      → Result ControlError (Tables V × Outcome V)
      → Tables V × Result ControlError (Outcome V)
  settle db (ok (after, result)) = (after, ok result)
  settle db (err e) = (db, err e)

  unfoldable pub apply_once :
      Faults
      → String
      → String
      → String
      → String
      → Dict V
      → Tables V
      → Tables V × Result ControlError (Outcome V)
  apply_once faults key action kind target desired db =
      settle db (apply_tx faults key action kind target desired db)
