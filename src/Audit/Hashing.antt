-- ===== src/Audit/Hashing.antt =====
-- What `calculateHash` of internal/audit/chain.go hashes.
use argus.Base.{ℕ, String, ◌≡◌, refl, some, Option-cases, inl, inr}
use argus.Base.Result.{Result, ok}
use argus.Audit.{
  Platform, Facts, Payload, AuditError, hash_version, canonicalize_raw_json, calculate_hash,
}

-- The payload is that of the arguments, with the JSON in canonical form.
pub record IsPayload (platform : Platform) (facts : Facts) (position : ℕ) (previous b a m : String)
    (p : Payload) : Type 0 where
  pub facts_eq : p.facts ≡ facts
  pub position_eq : p.chain_position ≡ position
  pub previous_eq : p.previous_hash ≡ previous
  pub before_eq : canonicalize_raw_json platform b ≡ some p.before_state
  pub after_eq : canonicalize_raw_json platform a ≡ some p.after_state
  pub metadata_eq : canonicalize_raw_json platform m ≡ some p.metadata

pub calculate_hash-digest :
    (platform : Platform) (facts : Facts) (position : ℕ) (previous b a m h : String)
    → calculate_hash platform facts position previous b a m ≡ ok h
    → (p : Payload) × IsPayload platform facts position previous b a m p × (platform.digest p ≡ h)
unfolding calculate_hash
calculate_hash-digest platform facts position previous b a m h e =
    elim (Option-cases (canonicalize_raw_json platform b)) [
      | inl bad ↦ cc (rw (bad, calculate_hash) at e)
      | inr (b', eb) ↦ elim (Option-cases (canonicalize_raw_json platform a)) [
        | inl bad ↦ cc (rw (eb, bad, calculate_hash) at e)
        | inr (a', ea) ↦ elim (Option-cases (canonicalize_raw_json platform m)) [
          | inl bad ↦ cc (rw (eb, ea, bad, calculate_hash) at e)
          | inr (m', em) ↦ (
            record {
              hash_version = hash_version;
              chain_position = position;
              previous_hash = previous;
              facts = facts;
              before_state = b';
              after_state = a';
              metadata = m';
            },
            record {
              facts_eq = refl;
              position_eq = refl;
              previous_eq = refl;
              before_eq = eb;
              after_eq = ea;
              metadata_eq = em;
            },
            same_text (rw (eb, ea, em, calculate_hash) at e),
          )
        ]
      ]
    ]
  where
    same_text : {s t : String} → ◌≡◌ {A = Result AuditError String} (ok s) (ok t) → s ≡ t
    same_text p = cc
