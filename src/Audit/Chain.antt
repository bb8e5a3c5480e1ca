-- ===== src/Audit/Chain.antt =====
-- What a sound audit ledger is, and that `Verify` of internal/audit/service.go decides it.
use argus.Base.{
  ℕ, ◌+◌, String, ◌≡◌, refl, ◌∙◌, true, false, some, List, [], ◌∷◌, arith, str_eq-eq, eq-str_eq,
  inl, inr,
}
use argus.Base.Result.{Result, ok, Result-cases}
use argus.Audit.{
  Platform, Row, Head, Ledger, AuditError, hash_version, genesis_hash, calculate_hash,
}
use argus.Audit.Verify.{
  Verification, Progress, Checked, stop, next, valid_hash, check_row, check_rows,
}

module _ (platform : Platform) where
  -- The row follows on the hash and has the position.
  pub record IsLink (previous : String) (position : ℕ) (row : Row) : Type 0 where
    pub at_position : row.chain_position ≡ position
    pub version : row.hash_version ≡ hash_version
    pub previous_valid : valid_hash row.previous_hash ≡ true
    pub entry_valid : valid_hash row.entry_hash ≡ true
    pub follows : row.previous_hash ≡ previous
    pub hashed :
        calculate_hash platform row.facts row.chain_position row.previous_hash row.before_json
          row.after_json row.metadata_json
        ≡ ok row.entry_hash

  -- The rows lead from a hash and a position to a hash and a position.
  abbrev pub ChainTo : String → ℕ → List Row → String → ℕ → Type 0
  ChainTo previous position [] last end = (previous ≡ last) × (position ≡ end)
  ChainTo previous position (row ∷ rows) last end =
      IsLink previous position row × ChainTo row.entry_hash (position + 1) rows last end

  -- The rows form a chain from the genesis hash, and the stored head is its end.
  pub record IsSound (ledger : Ledger) (head : Head) : Type 0 where
    pub stored : ledger.head ≡ some head
    pub chained : ChainTo genesis_hash 1 ledger.rows head.last_hash (head.last_position + 1)

  -- A row passes exactly when it is a link, and the loop goes on from its hash.
  check_row-next :
      (p q : Progress) (row : Row)
      → check_row platform p row ≡ ok (next q)
      → IsLink p.previous_hash p.expected_position row
        × (q.previous_hash ≡ row.entry_hash)
        × (q.expected_position ≡ p.expected_position + 1)
        × (q.report.entries_verified ≡ p.report.entries_verified + 1)
        × (q.report.valid ≡ p.report.valid)
  unfolding check_row
  check_row-next p q row h =
      elim (Result-cases (
        calculate_hash platform row.facts row.chain_position row.previous_hash row.before_json
          row.after_json row.metadata_json)) [
            | inl (expected, e) ↦ ground (
              arith,
              str_eq-eq row.previous_hash p.previous_hash,
              str_eq-eq row.entry_hash expected,
            )
            | inr (failure, e) ↦ ground arith
          ]

  check_row-stop :
      (p : Progress) (row : Row) (report : Verification)
      → check_row platform p row ≡ ok (stop report)
      → report.valid ≡ false
  unfolding check_row
  check_row-stop p row report h =
      elim (Result-cases (
        calculate_hash platform row.facts row.chain_position row.previous_hash row.before_json
          row.after_json row.metadata_json)) [
            | inl (expected, e) ↦ ground arith
            | inr (failure, e) ↦ ground arith
          ]

  check_row-IsLink :
      (p : Progress) (row : Row)
      → IsLink p.previous_hash p.expected_position row
      → (q : Progress) × (check_row platform p row ≡ ok (next q))
        × (q.previous_hash ≡ row.entry_hash)
        × (q.expected_position ≡ p.expected_position + 1)
        × (q.report.entries_verified ≡ p.report.entries_verified + 1)
        × (q.report.valid ≡ p.report.valid)
  unfolding check_row
  check_row-IsLink p row l = (
    record {
      report = record p.report { entries_verified = p.report.entries_verified + 1 };
      previous_hash = row.entry_hash;
      expected_position = p.expected_position + 1;
    },
    ground (
      arith,
      l.hashed,
      eq-str_eq row.previous_hash p.previous_hash l.follows,
      eq-str_eq row.entry_hash row.entry_hash refl,
    ),
    refl,
    refl,
    refl,
    refl,
  )

  pub check_rows-ChainTo :
      (p q : Progress) (rows : List Row)
      → check_rows platform p rows ≡ ok (next q)
      → ChainTo p.previous_hash p.expected_position rows q.previous_hash q.expected_position
        × (q.report.entries_verified + p.expected_position
            ≡ q.expected_position + p.report.entries_verified)
        × (q.report.valid ≡ p.report.valid)
  unfolding check_rows
  check_rows-ChainTo p q [] h =
      let same = same_progress p q h in rw same ((refl, refl), omega arith, refl)
    where
      same_progress :
          (a b : Progress) → ◌≡◌ {A = Result AuditError Checked} (ok (next a)) (ok (next b)) → b ≡ a
      same_progress a b e = cc
  check_rows-ChainTo p q (row ∷ rows) h = elim (Result-cases (check_row platform p row)) [
    | inr (failure, e) ↦ cc (rw (e, check_rows) at h)
    | inl (stop report, e) ↦ cc (rw (e, check_rows) at h)
    | inl (next q', e) ↦
        let (link, prev, pos, count, valid) = check_row-next p q' row e in
        let (chain, counted, kept) = check_rows-ChainTo q' q rows (rw (e, check_rows) at h) in
        ((link, rw (← prev, ← pos) chain), omega (arith, pos, count, counted), kept ∙ valid)
  ]

  pub check_rows-stop :
      (p : Progress) (rows : List Row) (report : Verification)
      → check_rows platform p rows ≡ ok (stop report)
      → report.valid ≡ false
  unfolding check_rows
  check_rows-stop p [] report h = cc
  check_rows-stop p (row ∷ rows) report h = elim (Result-cases (check_row platform p row)) [
    | inr (failure, e) ↦ cc (rw (e, check_rows) at h)
    | inl (stop r, e) ↦ cc (check_row-stop p row r e, rw (e, check_rows) at h)
    | inl (next q', e) ↦ check_rows-stop q' rows report (rw (e, check_rows) at h)
  ]

  pub check_rows-next :
      (p : Progress) (rows : List Row) (last : String) (end : ℕ)
      → ChainTo p.previous_hash p.expected_position rows last end
      → (q : Progress) × (check_rows platform p rows ≡ ok (next q))
        × (q.previous_hash ≡ last)
        × (q.expected_position ≡ end)
        × (q.report.entries_verified + p.expected_position ≡ end + p.report.entries_verified)
        × (q.report.valid ≡ p.report.valid)
  unfolding check_rows
  check_rows-next p [] last end c = (p, refl, c.0, c.1, omega (arith, c.1), refl)
  check_rows-next p (row ∷ rows) last end c =
      let (q', e, prev, pos, count, valid) = check_row-IsLink p row c.0 in
      let (q, e', prev', pos', counted, kept) =
        check_rows-next q' rows last end (rw (prev, pos) c.1) in
      (q, rw (e, check_rows) e', prev', pos', omega (arith, pos, count, counted), kept ∙ valid)
