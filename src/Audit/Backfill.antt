-- ===== src/Audit/Backfill.antt =====
-- The migration that chains the rows of an older table: `backfillLegacyRows` of
-- internal/audit/chain.go.
use argus.Base.{ℕ, ◌+◌, String, ◌≡◌, refl, ap, true, some, List, [], ◌∷◌, length, arith, inl, inr}
use argus.Base.Result.{Result, ok, ◌>>=◌, Result-cases}
use argus.Audit.{
  Platform, Facts, Row, Head, Ledger, AuditError, hash_version, genesis_hash, calculate_hash,
}
use argus.Audit.Verify.{valid_hash}
use argus.Audit.Chain.{IsLink, ChainTo, IsSound}
use argus.Audit.Write.{IsReliable, calculate_hash-valid, genesis-valid}

-- `legacyRow`: the JSON columns as the query returns them, 'null' for NULL.
pub record LegacyRow : Type 0 where
  pub facts : Facts
  pub before_json : String
  pub after_json : String
  pub metadata_json : String

-- What the `UPDATE ... WHERE id = $1` makes of a row.
abbrev pub chained : LegacyRow → ℕ → String → String → Row
chained row position previous_hash entry_hash = record {
  facts = row.facts;
  before_json = row.before_json;
  after_json = row.after_json;
  metadata_json = row.metadata_json;
  chain_position = position;
  previous_hash = previous_hash;
  entry_hash = entry_hash;
  hash_version = hash_version;
}

module _ (platform : Platform) where
  -- The loop, from the position and the hash before the first row.
  unfoldable pub backfill_rows : ℕ → String → List LegacyRow → Result AuditError (List Row × Head)
  backfill_rows position previous_hash [] =
      ok ([], record { last_position = position; last_hash = previous_hash })
  backfill_rows position previous_hash (row ∷ rows) = do
    entry_hash ←
        calculate_hash platform row.facts (position + 1) previous_hash row.before_json
          row.after_json row.metadata_json
    rest ← backfill_rows (position + 1) entry_hash rows
    ok (chained row (position + 1) previous_hash entry_hash ∷ rest.0, rest.1)

  -- The rows come in the order of `ORDER BY created_at ASC, id ASC`.
  unfoldable pub backfill_legacy_rows : List LegacyRow → Result AuditError Ledger
  unfolding backfill_rows
  backfill_legacy_rows legacy = do
    filled ← backfill_rows 0 genesis_hash legacy
    ok (record { rows = filled.0; head = some filled.1 })

module _ (platform : Platform) (reliable : IsReliable platform) where
  same_value : {A : Type 0} {a b : A} → ◌≡◌ {A = Result AuditError A} (ok a) (ok b) → a ≡ b
  same_value e = cc

  backfill_rows-ChainTo :
      (position : ℕ) (previous : String) (legacy : List LegacyRow) (rows : List Row) (head : Head)
      → valid_hash previous ≡ true
      → backfill_rows platform position previous legacy ≡ ok (rows, head)
      → ChainTo platform previous (position + 1) rows head.last_hash (head.last_position + 1)
        × (head.last_position ≡ position + length legacy)
  unfolding backfill_rows
  backfill_rows-ChainTo position previous [] rows head v e =
      let same = same_value e in
      rw (← ap (λ (p : List Row × Head). p.0) same, ← ap (λ (p : List Row × Head). p.1) same)
        ((refl, refl), omega arith)
  backfill_rows-ChainTo position previous (row ∷ legacy) rows head v e =
      elim (Result-cases (
        calculate_hash platform row.facts (position + 1) previous row.before_json row.after_json
          row.metadata_json)) [
            | inr (failure, c) ↦ cc (rw (c, backfill_rows) at e)
            | inl (h, c) ↦ elim (Result-cases (backfill_rows platform (position + 1) h legacy)) [
              | inr (failure, r) ↦ cc (rw (c, r, backfill_rows) at e)
              | inl (rest, r) ↦
                  let hex =
                    calculate_hash-valid platform reliable row.facts (position + 1) previous
                      row.before_json row.after_json row.metadata_json h c in
                  let (chain, count) =
                    backfill_rows-ChainTo (position + 1) h legacy rest.0 rest.1 hex r in
                  let same = same_value (rw (c, r, backfill_rows) at e) in
                  let link : IsLink platform previous (position + 1)
                      (chained row (position + 1) previous h) =
                    record {
                      at_position = refl;
                      version = refl;
                      previous_valid = v;
                      entry_valid = hex;
                      follows = refl;
                      hashed = c;
                    } in
                  rw
                    (
                      ← ap (λ (p : List Row × Head). p.0) same,
                      ← ap (λ (p : List Row × Head). p.1) same,
                    )
                    ((link, chain), omega (arith, count))
            ]
          ]

  -- The migration leaves a sound ledger: when it succeeds, the old rows form a chain from the
  -- genesis hash to the head it stores, whose position is their number.
  pub backfill-IsSound :
      (legacy : List LegacyRow) (ledger : Ledger)
      → backfill_legacy_rows platform legacy ≡ ok ledger
      → (head : Head) × IsSound platform ledger head × (head.last_position ≡ length legacy)
  unfolding backfill_legacy_rows
  backfill-IsSound legacy ledger e =
      elim (Result-cases (backfill_rows platform 0 genesis_hash legacy)) [
        | inr (failure, r) ↦ cc (rw (r, backfill_legacy_rows) at e)
        | inl (filled, r) ↦
            let (chain, count) =
              backfill_rows-ChainTo 0 genesis_hash legacy filled.0 filled.1 genesis-valid r in
            (
              filled.1,
              rw (← same_value (rw (r, backfill_legacy_rows) at e))
                  (record { stored = refl; chained = chain }),
              omega (arith, count),
            )
      ]
