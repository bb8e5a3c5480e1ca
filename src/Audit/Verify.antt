-- ===== src/Audit/Verify.antt =====
-- The check of the whole audit ledger: `Verify` of internal/audit/service.go.
use argus.Base.{
  ℕ, ◌+◌, String, Bool, true, false, not, ◌&&◌, ◌||◌, List, [], ◌∷◌, length, str_eq, leb, ◌==◌,
  codes, if◌then◌else◌,
}
use argus.Base.Result.{Result, ok, ◌>>=◌, or_err}
use argus.Audit.{
  Platform, Row, Head, Ledger, AuditError, no_chain_head, hash_version, genesis_hash,
  calculate_hash,
}

pub data Reason : Type 0 where
  no_reason : Reason
  position_gap unsupported_version : ℕ → Reason
  malformed_hash previous_mismatch entry_mismatch head_position_mismatch head_hash_mismatch : Reason

-- The texts of `ExpectedHash` and `ActualHash`: a hash, or a printed number.
pub data Shown : Type 0 where
  hash : String → Shown
  number : ℕ → Shown

pub record Verification : Type 0 where
  pub valid : Bool
  pub entries_verified : ℕ
  pub head_position : ℕ
  pub head_hash : String
  pub invalid_position : ℕ
  pub expected_hash : Shown
  pub actual_hash : Shown
  pub reason : Reason
  pub verified_at : ℕ

unfoldable pub lower_hex : List ℕ → Bool
lower_hex [] = true
lower_hex (c ∷ s) = ((leb b'0' c && leb c b'9') || (leb b'a' c && leb c b'f')) && lower_hex s

-- `validHash`
unfoldable pub valid_hash : String → Bool
unfolding lower_hex codes
valid_hash value = length (codes value) == 64 && lower_hex (codes value)

-- `invalidReport`
abbrev pub invalid_report : Verification → ℕ → Reason → Shown → Shown → Verification
invalid_report report position reason expected actual = record report {
  valid = false;
  invalid_position = position;
  reason = reason;
  expected_hash = expected;
  actual_hash = actual;
}

-- The variables of the loop over the rows.
pub record Progress : Type 0 where
  pub report : Verification
  pub previous_hash : String
  pub expected_position : ℕ

-- One row: an error ends `Verify`, a report in `stop` is returned as it is.
pub data Checked : Type 0 where
  stop : Verification → Checked
  next : Progress → Checked

module _ (platform : Platform) where
  unfoldable pub check_row : Progress → Row → Result AuditError Checked
  check_row p row =
      let report = record p.report { entries_verified = p.report.entries_verified + 1 } in
      let position = row.chain_position in
      if not (position == p.expected_position)
      then ok (
          stop
            (invalid_report report position (position_gap p.expected_position) (hash "") (hash "")))
      else if not (row.hash_version == hash_version)
      then ok (
          stop (
            invalid_report report position (unsupported_version row.hash_version) (hash "")
              (hash "")))
      else if not (valid_hash row.previous_hash) || not (valid_hash row.entry_hash)
      then ok (stop (invalid_report report position malformed_hash (hash "") (hash row.entry_hash)))
      else if not (str_eq row.previous_hash p.previous_hash)
      then ok (
          stop (
            invalid_report report position previous_mismatch (hash p.previous_hash)
              (hash row.previous_hash)))
      else do
        expected ←
            calculate_hash platform row.facts position row.previous_hash row.before_json
              row.after_json row.metadata_json
        ok (
            if not (str_eq row.entry_hash expected)
            then stop (
                invalid_report report position entry_mismatch (hash expected) (hash row.entry_hash))
            else next (record {
              report = report;
              previous_hash = row.entry_hash;
              expected_position = p.expected_position + 1;
            }))

  unfoldable pub check_rows : Progress → List Row → Result AuditError Checked
  unfolding check_row
  check_rows p [] = ok (next p)
  check_rows p (row ∷ rows) = do
    checked ← check_row p row
    (let go_on = λ (q : Progress). check_rows q rows in
        elim checked [ stop report ↦ ok (stop report) | next q ↦ go_on q ])

-- What follows the loop.
unfoldable pub check_head : Head → Checked → Verification
check_head head (stop report) = report
check_head head (next p) =
    if not (p.report.entries_verified == head.last_position)
    then invalid_report p.report p.report.entries_verified head_position_mismatch
        (number p.report.entries_verified) (number head.last_position)
    else if not (str_eq p.previous_hash head.last_hash)
    then invalid_report p.report head.last_position head_hash_mismatch (hash p.previous_hash)
        (hash head.last_hash)
    else p.report

unfoldable pub start_report : Head → ℕ → Verification
start_report head now = record {
  valid = true;
  entries_verified = 0;
  head_position = head.last_position;
  head_hash = head.last_hash;
  invalid_position = 0;
  expected_hash = hash "";
  actual_hash = hash "";
  reason = no_reason;
  verified_at = now;
}

-- `Verify`, on the snapshot that its transaction reads.
unfoldable pub verify : Platform → ℕ → Ledger → Result AuditError Verification
unfolding check_rows check_head start_report
verify platform now ledger = do
  head ← or_err no_chain_head ledger.head
  checked ←
      check_rows platform
        (record {
          report = start_report head now;
          previous_hash = genesis_hash;
          expected_position = 1;
        })
        ledger.rows
  ok (check_head head checked)
