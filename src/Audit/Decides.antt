-- ===== src/Audit/Decides.antt =====
-- `Verify` of internal/audit/service.go decides whether the ledger is sound.
use argus.Base.{
  ℕ, ◌+◌, ◌≡◌, ◌↔◌, refl, ap, ◌∙◌, true, some, arith, str_eq-eq, eq-str_eq, Option-cases, inl, inr,
}
use argus.Base.Result.{Result, ok, Result-cases}
use argus.Audit.{Platform, Head, Ledger, AuditError, genesis_hash}
use argus.Audit.Verify.{
  Verification, Progress, stop, next, check_rows, check_head, start_report, verify,
}
use argus.Audit.Chain.{IsSound, check_rows-ChainTo, check_rows-stop, check_rows-next}

abbrev pub start : Head → ℕ → Progress
start head now = record {
  report = start_report head now;
  previous_hash = genesis_hash;
  expected_position = 1;
}

-- The checks after the loop pass exactly when the stored head is where the loop ended.
check_head-valid :
    (head : Head) (q : Progress)
    → (check_head head (next q)).valid ≡ true
    → (q.report.entries_verified ≡ head.last_position) × (q.previous_hash ≡ head.last_hash)
unfolding check_head
check_head-valid head q h = ground (arith, str_eq-eq q.previous_hash head.last_hash)

check_head-passes :
    (head : Head) (q : Progress)
    → q.report.entries_verified ≡ head.last_position
    → q.previous_hash ≡ head.last_hash
    → check_head head (next q) ≡ q.report
unfolding check_head
check_head-passes head q count same = ground (arith, eq-str_eq q.previous_hash head.last_hash)

module _ (platform : Platform) (now : ℕ) (ledger : Ledger) where
  abbrev pub Passes : Type 0
  Passes = (r : Verification) × (verify platform now ledger ≡ ok r) × (r.valid ≡ true)

  IsSound-of_start :
      (head : Head) (q : Progress) (r : Verification)
      → ledger.head ≡ some head
      → check_rows platform (start head now) ledger.rows ≡ ok (next q)
      → verify platform now ledger ≡ ok r
      → r.valid ≡ true
      → IsSound platform ledger head
  unfolding verify
  IsSound-of_start head q r stored checked h valid =
      let same : check_head head (next q) ≡ r = same_report (rw (stored, checked, verify) at h) in
      let (count, last) =
        check_head-valid head q (ap (λ (v : Verification). v.valid) same ∙ valid) in
      let (chain, counted, _) =
        check_rows-ChainTo platform (start head now) q ledger.rows checked in
      let pos : q.expected_position ≡ head.last_position + 1 =
        unfold start_report in omega (arith, counted, count) in
      record { stored = stored; chained = rw (last, pos) at chain }
    where
      same_report :
          {a b : Verification} → ◌≡◌ {A = Result AuditError Verification} (ok a) (ok b) → a ≡ b
      same_report e = cc

  passes-IsSound : Passes → (head : Head) × IsSound platform ledger head
  unfolding verify
  passes-IsSound (r, h, valid) = elim (Option-cases ledger.head) [
    | inl absent ↦ cc (rw (absent, verify) at h)
    | inr (head, stored) ↦ elim (Result-cases (check_rows platform (start head now) ledger.rows)) [
      | inr (failure, e) ↦ cc (rw (stored, e, verify) at h)
      | inl (stop report, e) ↦ cc (
        valid,
        check_rows-stop platform (start head now) ledger.rows report e,
        rw (stored, e, verify) at h,
      )
      | inl (next q, e) ↦ (head, IsSound-of_start head q r stored e h valid)
    ]
  ]

  IsSound-passes : (head : Head) → IsSound platform ledger head → Passes
  unfolding verify
  IsSound-passes head s =
      let (q, e, last, end, count, valid) =
        check_rows-next platform (start head now) ledger.rows head.last_hash
          (head.last_position + 1) s.chained in
      let counted : q.report.entries_verified ≡ head.last_position =
        unfold start_report in omega (arith, count) in
      (q.report, rw (s.stored, e, check_head-passes head q counted last, verify) refl, valid)

  -- `Verify` decides soundness, in both directions: it returns a report that says valid exactly when
  -- the rows, in order of position, link up by recomputed hashes from the genesis hash at position 1
  -- to the stored head.
  pub verify_iff : Passes ↔ ((head : Head) × IsSound platform ledger head)
  verify_iff = (passes-IsSound, λ s. IsSound-passes s.0 s.1)
