-- ===== src/Audit/History.antt =====
-- Whole histories of the audit ledger: the migration of internal/audit/chain.go, then writes of
-- internal/audit/service.go, some of which fail.
use argus.Base.{ℕ, String, ◌≡◌, All, List, [], ◌∷◌, inl, inr}
use argus.Base.Result.{Result, ok, err, Result-cases}
use argus.Audit.{Platform, Entry, Head, Ledger, AuditError, write_tx}
use argus.Audit.Chain.{IsSound}
use argus.Audit.Write.{IsReliable, KeepsJson, write_tx-IsSound}
use argus.Audit.Backfill.{LegacyRow, backfill_legacy_rows, backfill-IsSound}
use argus.Audit.Decides.{Passes, verify_iff}

-- An entry with the identifier and the time that its write draws.
pub record Drawn : Type 0 where
  pub new_id : String
  pub now : ℕ
  pub entry : Entry

-- A transaction that fails is rolled back.
abbrev pub after : Ledger → Result AuditError Ledger → Ledger
after ledger (ok ledger') = ledger'
after ledger (err e) = ledger

abbrev pub write_all : Platform → Ledger → List Drawn → Ledger
write_all platform ledger [] = ledger
write_all platform ledger (d ∷ writes) =
    write_all platform (after ledger (write_tx platform d.new_id d.now ledger d.entry)) writes

module _ (platform : Platform) (reliable : IsReliable platform) where
  abbrev pub Kept : Drawn → Type 0
  Kept d = KeepsJson platform d.new_id d.now d.entry

  write_all-IsSound :
      (ledger : Ledger) (writes : List Drawn) (head : Head)
      → All Kept writes
      → IsSound platform ledger head
      → (head' : Head) × IsSound platform (write_all platform ledger writes) head'
  write_all-IsSound ledger [] head kept s = (head, s)
  write_all-IsSound ledger (d ∷ writes) head kept s =
      elim (Result-cases (write_tx platform d.new_id d.now ledger d.entry)) [
        | inr (failure, e) ↦ rw e (write_all-IsSound ledger writes head kept.1 s)
        | inl (ledger', e) ↦
            let (head', s', _, _) =
              write_tx-IsSound platform reliable d.new_id d.now ledger ledger' d.entry head s kept.0
                e in
            rw e (write_all-IsSound ledger' writes head' kept.1 s')
      ]

  -- An honest history verifies: after a successful migration and any sequence of writes, whether each
  -- of them succeeds or fails, `Verify` returns a report that says valid, if the JSONB columns keep the
  -- canonical form of the JSON of every entry that they take.
  pub history-verifies :
      (legacy : List LegacyRow) (ledger : Ledger) (writes : List Drawn) (now : ℕ)
      → backfill_legacy_rows platform legacy ≡ ok ledger
      → All (λ d. KeepsJson platform d.new_id d.now d.entry) writes
      → Passes platform now (write_all platform ledger writes)
  history-verifies legacy ledger writes now e kept =
      let (head, s, _) = backfill-IsSound platform reliable legacy ledger e in
      (verify_iff platform now (write_all platform ledger writes)).1
        (write_all-IsSound ledger writes head kept s)
