-- ===== src/Audit/Write.antt =====
-- Appending to the audit ledger: `WriteTx` of internal/audit/service.go keeps the ledger sound.
use argus.Base.{
  ℕ, ◌+◌, String, ◌≡◌, refl, ◌∙◌, true, some, Option-cases, List, [], ◌∷◌, length, arith, ltb,
  str_eq_refl, inl, inr, if◌then◌else◌,
}
use argus.Base.Result.{ok, err, ◌>>=◌, or_err, Result-cases}
use argus.Audit.{
  Platform, Entry, Facts, Payload, Prepared, Row, Head, Ledger, duplicate_row, head_moved,
  genesis_hash, canonicalize_raw_json, calculate_hash, entry_facts, conflicts, insert_row,
  advance_head, prepare_entry, new_row, write_tx,
}
use argus.Audit.Hashing.{calculate_hash-digest}
use argus.Audit.Verify.{valid_hash}
use argus.Audit.Chain.{IsLink, ChainTo, IsSound}

-- What the code relies on: a digest is printed as 64 lower-case hex digits.
pub record IsReliable (platform : Platform) : Type 0 where
  pub hex : (p : Payload) → valid_hash (platform.digest p) ≡ true

-- The same three JSON values, in canonical form.
abbrev pub SameJson : Platform → Prepared → Prepared → Type 0
SameJson platform p q =
    (canonicalize_raw_json platform p.before_json ≡ canonicalize_raw_json platform q.before_json)
    × (canonicalize_raw_json platform p.after_json ≡ canonicalize_raw_json platform q.after_json)
    × (canonicalize_raw_json platform p.metadata_json
        ≡ canonicalize_raw_json platform q.metadata_json)

-- The JSONB columns keep the entry: where its JSON is stored, it comes back with the same canonical
-- form. A number in E notation is one that PostgreSQL prints in another way.
abbrev pub KeepsJson : Platform → String → ℕ → Entry → Type 0
KeepsJson platform new_id now entry =
    (prepared kept : Prepared)
    → prepare_entry platform entry ≡ ok prepared
    → platform.stored (entry_facts new_id now entry) prepared ≡ some kept
    → SameJson platform kept prepared

module _ (platform : Platform) where
  pub ChainTo-length :
      (previous : String) (position : ℕ) (rows : List Row) (last : String) (end : ℕ)
      → ChainTo platform previous position rows last end
      → position + length rows ≡ end
  ChainTo-length previous position [] last end c = omega (arith, c.1)
  ChainTo-length previous position (row ∷ rows) last end c =
      omega (arith, ChainTo-length row.entry_hash (position + 1) rows last end c.1)

  -- A link at the end of a chain is inserted behind all its rows.
  ChainTo-insert_row :
      (previous : String) (position : ℕ) (rows : List Row) (last : String) (end : ℕ) (row : Row)
      → ChainTo platform previous position rows last end
      → IsLink platform last end row
      → ChainTo platform previous position (insert_row row rows) row.entry_hash (end + 1)
  unfolding insert_row
  ChainTo-insert_row previous position [] last end row c l =
      (rw (c.0, c.1) l, (refl, omega (arith, c.1)))
  ChainTo-insert_row previous position (r ∷ rows) last end row c l =
      let before : ltb r.chain_position row.chain_position ≡ true = ground (
        arith,
        c.0.at_position,
        l.at_position,
        ChainTo-length previous position (r ∷ rows) last end c,
      ) in
      rw before (c.0, ChainTo-insert_row r.entry_hash (position + 1) rows last end row c.1 l)

  ChainTo-valid :
      (previous : String) (position : ℕ) (rows : List Row) (last : String) (end : ℕ)
      → valid_hash previous ≡ true
      → ChainTo platform previous position rows last end
      → valid_hash last ≡ true
  ChainTo-valid previous position [] last end v c = rw (← c.0) v
  ChainTo-valid previous position (row ∷ rows) last end v c =
      ChainTo-valid row.entry_hash (position + 1) rows last end c.0.entry_valid c.1

pub genesis-valid : valid_hash genesis_hash ≡ true
unfolding valid_hash
genesis-valid = refl

-- The head does not move between the two statements that touch it.
pub advance_head_self : (head new : Head) → advance_head head new head ≡ some new
unfolding advance_head
advance_head_self head new = ground (arith, str_eq_refl head.last_hash)

-- What a write leaves when nothing fails.
abbrev pub written : Ledger → Head → Row → Ledger
written ledger head row = record {
  rows = insert_row row ledger.rows;
  head = some (record { last_position = head.last_position + 1; last_hash = row.entry_hash });
}

module _ (platform : Platform) (reliable : IsReliable platform) where
  -- The stored texts hash to what the encoded ones did.
  calculate_hash-kept :
      (facts : Facts) (position : ℕ) (previous : String) (kept prepared : Prepared)
      → SameJson platform kept prepared
      → calculate_hash platform facts position previous kept.before_json kept.after_json
          kept.metadata_json
        ≡ calculate_hash platform facts position previous prepared.before_json prepared.after_json
            prepared.metadata_json
  unfolding calculate_hash
  calculate_hash-kept facts position previous kept prepared same = rw (same.0, same.1, same.2) refl

  pub calculate_hash-valid :
      (facts : Facts) (position : ℕ) (previous b a m h : String)
      → calculate_hash platform facts position previous b a m ≡ ok h
      → valid_hash h ≡ true
  calculate_hash-valid facts position previous b a m h e =
      let (p, _, is_digest) = calculate_hash-digest platform facts position previous b a m h e in
      rw (← is_digest) (reliable.hex p)

  new_row-IsLink :
      (facts : Facts) (kept prepared : Prepared) (head : Head) (h : String)
      → valid_hash head.last_hash ≡ true
      → SameJson platform kept prepared
      → calculate_hash platform facts
          (head.last_position + 1)
          head.last_hash
          prepared.before_json
          prepared.after_json
          prepared.metadata_json
        ≡ ok h
      → IsLink platform head.last_hash
          (head.last_position + 1)
          (new_row facts kept (head.last_position + 1) head.last_hash h)
  unfolding new_row
  new_row-IsLink facts kept prepared head h v same e = record {
    at_position = refl;
    version = refl;
    previous_valid = v;
    entry_valid =
        calculate_hash-valid facts (head.last_position + 1) head.last_hash prepared.before_json
          prepared.after_json prepared.metadata_json h e;
    follows = refl;
    hashed =
        calculate_hash-kept facts (head.last_position + 1) head.last_hash kept prepared same ∙ e;
  }

  write_tx-written :
      (new_id : String) (now : ℕ) (ledger ledger' : Ledger) (entry : Entry) (head : Head)
      → ledger.head ≡ some head
      → write_tx platform new_id now ledger entry ≡ ok ledger'
      → (prepared : Prepared) × (kept : Prepared) × (h : String) × (prepare_entry platform entry
          ≡ ok prepared)
        × (platform.stored (entry_facts new_id now entry) prepared ≡ some kept)
        × (calculate_hash platform
              (entry_facts new_id now entry)
              (head.last_position + 1)
              head.last_hash
              prepared.before_json
              prepared.after_json
              prepared.metadata_json
            ≡ ok h)
        × (ledger'
            ≡ written ledger head (
                new_row
                  (entry_facts new_id now entry)
                  kept
                  (head.last_position + 1)
                  head.last_hash
                  h))
  unfolding write_tx new_row
  write_tx-written new_id now ledger ledger' entry head stored w =
      elim (Result-cases (prepare_entry platform entry)) [
        | inr (bad, e) ↦ cc (rw (e, write_tx) at w)
        | inl (prepared, e) ↦
            elim (Result-cases (
              calculate_hash platform (entry_facts new_id now entry) (head.last_position + 1)
                head.last_hash prepared.before_json prepared.after_json prepared.metadata_json)) [
                  | inr (bad, c) ↦ cc (rw (e, stored, c, write_tx) at w)
                  | inl (h, c) ↦
                      elim (Option-cases
                        (platform.stored (entry_facts new_id now entry) prepared)) [
                          | inl refused ↦ cc (rw (e, stored, c, refused, write_tx) at w)
                          | inr (kept, k) ↦
                              let row =
                                new_row (entry_facts new_id now entry) kept (head.last_position + 1)
                                  head.last_hash h in
                              (
                                prepared,
                                kept,
                                h,
                                e,
                                k,
                                c,
                                finish row h (rw (e, stored, c, k, write_tx) at w),
                              )
                        ]
                ]
      ]
    where
      finish :
          (row : Row) (h : String)
          → ((if conflicts row ledger.rows
                then err duplicate_row
                else ok (insert_row row ledger.rows))
              >>= λ rows.
                  or_err head_moved (
                    advance_head head
                      (record { last_position = head.last_position + 1; last_hash = h })
                      head)
                  >>= λ head'. ok (record { rows = rows; head = some head' }))
            ≡ ok ledger'
          → ledger' ≡ record {
            rows = insert_row row ledger.rows;
            head = some (record { last_position = head.last_position + 1; last_hash = h });
          }
      finish row h p = ground (
        arith,
        advance_head_self head (record { last_position = head.last_position + 1; last_hash = h }),
      )

  length-insert_row : (row : Row) (rows : List Row) → length (insert_row row rows) ≡ length rows + 1
  unfolding insert_row
  length-insert_row row [] = refl
  length-insert_row row (r ∷ rows) = ground (arith, length-insert_row row rows)

  -- A write of an entry whose JSON is kept, when it succeeds, keeps a sound ledger sound, moves the head by one position, and inserts
  -- one row.
  pub write_tx-IsSound :
      (new_id : String) (now : ℕ) (ledger ledger' : Ledger) (entry : Entry) (head : Head)
      → IsSound platform ledger head
      → KeepsJson platform new_id now entry
      → write_tx platform new_id now ledger entry ≡ ok ledger'
      → (head' : Head) × IsSound platform ledger' head'
        × (head'.last_position ≡ head.last_position + 1)
        × (length ledger'.rows ≡ length ledger.rows + 1)
  write_tx-IsSound new_id now ledger ledger' entry head s keeps w =
      let (prepared, kept, h, e, k, c, same) =
        write_tx-written new_id now ledger ledger' entry head s.stored w in
      let facts = entry_facts new_id now entry in
      let row = new_row facts kept (head.last_position + 1) head.last_hash h in
      let head_valid =
        ChainTo-valid platform genesis_hash 1 ledger.rows head.last_hash (head.last_position + 1)
          genesis-valid s.chained in
      let link = new_row-IsLink facts kept prepared head h head_valid (keeps prepared kept e k) c in
      let chain =
        ChainTo-insert_row platform genesis_hash 1 ledger.rows head.last_hash
          (head.last_position + 1) row s.chained link in
      (
        record { last_position = head.last_position + 1; last_hash = row.entry_hash },
        rw same (record { stored = refl; chained = chain }),
        refl,
        rw same (length-insert_row row ledger.rows),
      )
