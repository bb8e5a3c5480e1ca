-- ===== src/Audit.antt =====
-- The tamper-evident audit ledger: internal/audit/chain.go and internal/audit/service.go. The
-- JSON encoder, the hash function and what PostgreSQL makes of the values of an INSERT are parameters.
pub mod Verify
pub mod Hashing
pub mod Chain
pub mod Decides
pub mod Write
pub mod Backfill
pub mod History
pub mod Tamper
use argus.Base.{
  ℕ, suc, ◌+◌, ◌-◌, ◌%◌, String, Bool, true, false, not, ◌&&◌, ◌||◌, Option, none, some, List, [],
  ◌∷◌, ◌++◌, length, str_eq, ltb, leb, ◌==◌, codes, trim_space, if◌then◌else◌,
}
use argus.Base.Result.{Result, ok, err, ◌>>=◌, ◌>>◌, or_err}

-- The three JSON columns hold what `json.Marshal` returns for the map, or none if it fails; a time
-- is in nanoseconds and 0 is the zero time.
pub record Entry : Type 0 where
  pub id : String
  pub actor_id : String
  pub actor_type : String
  pub action : String
  pub resource_type : String
  pub resource_id : String
  pub request_id : String
  pub ip_address : String
  pub before_state : Option String
  pub after_state : Option String
  pub metadata : Option String
  pub created_at : ℕ

-- The columns of `audit_logs` that are no JSON.
pub record Facts : Type 0 where
  pub id : String
  pub actor_id : String
  pub actor_type : String
  pub action : String
  pub resource_type : String
  pub resource_id : String
  pub request_id : String
  pub ip_address : String
  pub created_at : ℕ

-- `chainPayload`
pub record Payload : Type 0 where
  pub hash_version : ℕ
  pub chain_position : ℕ
  pub previous_hash : String
  pub facts : Facts
  pub before_state : String
  pub after_state : String
  pub metadata : String

-- A row of `audit_logs`.
pub record Row : Type 0 where
  pub facts : Facts
  pub before_json : String
  pub after_json : String
  pub metadata_json : String
  pub chain_position : ℕ
  pub previous_hash : String
  pub entry_hash : String
  pub hash_version : ℕ

-- The row of `audit_chain_state`.
pub record Head : Type 0 where
  pub last_position : ℕ
  pub last_hash : String

-- The rows stand in the order of `ORDER BY chain_position ASC`.
pub record Ledger : Type 0 where
  pub rows : List Row
  pub head : Option Head

abbrev pub hash_version : ℕ
hash_version = 1

abbrev pub genesis_hash : String
genesis_hash = "0000000000000000000000000000000000000000000000000000000000000000"

pub data AuditError : Type 0 where
  marshal_failed canonicalize_failed no_chain_head insert_refused duplicate_row head_moved :
      AuditError

-- `preparedEntry`
pub record Prepared : Type 0 where
  pub before_json : String
  pub after_json : String
  pub metadata_json : String

-- What the code takes from encoding/json, crypto/sha256 and the database.
pub record Platform : Type 0 where
  -- decode with `UseNumber` and encode again
  pub recode : String → Option String
  -- the hex digest of the encoded payload
  pub digest : Payload → String
  -- what the JSONB columns return for the texts of an `INSERT`, or none if PostgreSQL refuses its
  -- values
  pub stored : Facts → Prepared → Option Prepared

-- The defaults and the truncation to microseconds at the head of `WriteTx`.
unfoldable pub entry_facts : String → ℕ → Entry → Facts
entry_facts new_id now entry =
    let created = if entry.created_at == 0 then now else entry.created_at in
    record {
      id = if str_eq entry.id "" then new_id else entry.id;
      actor_id = entry.actor_id;
      actor_type = entry.actor_type;
      action = entry.action;
      resource_type = entry.resource_type;
      resource_id = entry.resource_id;
      request_id = entry.request_id;
      ip_address = entry.ip_address;
      created_at = created - created % 1000;
    }

-- The primary key and the two unique indexes of `audit_logs`.
unfoldable pub conflicts : Row → List Row → Bool
conflicts row [] = false
conflicts row (r ∷ rows) =
    str_eq r.facts.id row.facts.id
    || (r.chain_position == row.chain_position
        || (str_eq r.entry_hash row.entry_hash || conflicts row rows))

unfoldable pub insert_row : Row → List Row → List Row
insert_row row [] = row ∷ []
insert_row row (r ∷ rows) =
    if ltb r.chain_position row.chain_position then r ∷ insert_row row rows else row ∷ r ∷ rows

-- `UPDATE audit_chain_state ... WHERE last_position = $3 AND last_hash = $4`; none is no row.
unfoldable pub advance_head : Head → Head → Head → Option Head
advance_head previous new current =
    if current.last_position == previous.last_position
      && str_eq current.last_hash previous.last_hash
    then some new
    else none

-- The row of the `INSERT INTO audit_logs`, with what its JSONB columns return.
unfoldable pub new_row : Facts → Prepared → ℕ → String → String → Row
new_row facts kept position previous_hash entry_hash = record {
  facts = facts;
  before_json = kept.before_json;
  after_json = kept.after_json;
  metadata_json = kept.metadata_json;
  chain_position = position;
  previous_hash = previous_hash;
  entry_hash = entry_hash;
  hash_version = hash_version;
}

module _ (platform : Platform) where
  -- `canonicalizeRawJSON`
  unfoldable pub canonicalize_raw_json : String → Option String
  canonicalize_raw_json raw =
      if str_eq (trim_space raw) "" then some "null" else platform.recode raw

  -- `canonicalJSON`
  unfoldable pub canonical_json : Option String → Result AuditError String
  canonical_json value = do
    raw ← or_err marshal_failed value
    or_err canonicalize_failed (canonicalize_raw_json raw)

  -- `calculateHash`
  unfoldable pub calculate_hash :
      Facts → ℕ → String → String → String → String → Result AuditError String
  calculate_hash facts position previous_hash before_json after_json metadata_json = do
    before ← or_err canonicalize_failed (canonicalize_raw_json before_json)
    after ← or_err canonicalize_failed (canonicalize_raw_json after_json)
    metadata ← or_err canonicalize_failed (canonicalize_raw_json metadata_json)
    ok (
        platform.digest (record {
          hash_version = hash_version;
          chain_position = position;
          previous_hash = previous_hash;
          facts = facts;
          before_state = before;
          after_state = after;
          metadata = metadata;
        }))

  -- `prepareEntry`
  unfoldable pub prepare_entry : Entry → Result AuditError Prepared
  unfolding canonical_json
  prepare_entry entry = do
    before ← canonical_json entry.before_state
    after ← canonical_json entry.after_state
    metadata ← canonical_json entry.metadata
    ok (record { before_json = before; after_json = after; metadata_json = metadata })

  -- `WriteTx`, with the identifier and the time that it draws; an error leaves nothing behind.
  unfoldable pub write_tx : String → ℕ → Ledger → Entry → Result AuditError Ledger
  write_tx new_id now ledger entry = do
    let facts = entry_facts new_id now entry
    prepared ← prepare_entry entry
    head ← or_err no_chain_head ledger.head
    let position = head.last_position + 1
    entry_hash ←
        calculate_hash facts position head.last_hash prepared.before_json prepared.after_json
          prepared.metadata_json
    kept ← or_err insert_refused (platform.stored facts prepared)
    let row = new_row facts kept position head.last_hash entry_hash
    rows ←
        (if conflicts row ledger.rows then err duplicate_row else ok (insert_row row ledger.rows))
    head' ←
        or_err head_moved
          (advance_head head (record { last_position = position; last_hash = entry_hash }) head)
    ok (record { rows = rows; head = some head' })
