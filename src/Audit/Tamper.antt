-- ===== src/Audit/Tamper.antt =====
-- What the head of the audit ledger protects: the hashes of internal/audit/chain.go.
use argus.Base.{
  ℕ, ◌+◌, String, ◌≡◌, ◌≢◌, ◌⊎◌, refl, sym, ◌∙◌, Bool, true, false, ◌&&◌, List, [], ◌∷◌, arith,
  str_eq, str_eq-eq, eq-str_eq, ◌==◌, Bool-cases, inl, inr,
}
use argus.Audit.{Platform, Facts, Payload, Row, Head, Ledger, genesis_hash, canonicalize_raw_json}
use argus.Audit.Hashing.{calculate_hash-digest}
use argus.Audit.Chain.{IsLink, ChainTo, IsSound}
use argus.Audit.Write.{ChainTo-length}

-- Whether two payloads are the same.
abbrev same_facts : Facts → Facts → Bool
same_facts a b =
    str_eq a.id b.id
    && (str_eq a.actor_id b.actor_id
        && (str_eq a.actor_type b.actor_type
            && (str_eq a.action b.action
                && (str_eq a.resource_type b.resource_type
                    && (str_eq a.resource_id b.resource_id
                        && (str_eq a.request_id b.request_id
                            && (str_eq a.ip_address b.ip_address
                                && (a.created_at == b.created_at))))))))

same_facts-eq : (a b : Facts) → same_facts a b ≡ true → a ≡ b
same_facts-eq a b h = ground (
  arith,
  str_eq-eq a.id b.id,
  str_eq-eq a.actor_id b.actor_id,
  str_eq-eq a.actor_type b.actor_type,
  str_eq-eq a.action b.action,
  str_eq-eq a.resource_type b.resource_type,
  str_eq-eq a.resource_id b.resource_id,
  str_eq-eq a.request_id b.request_id,
  str_eq-eq a.ip_address b.ip_address,
)

abbrev same_payload : Payload → Payload → Bool
same_payload a b =
    same_facts a.facts b.facts
    && ((a.hash_version == b.hash_version)
        && ((a.chain_position == b.chain_position)
            && (str_eq a.previous_hash b.previous_hash
                && (str_eq a.before_state b.before_state
                    && (str_eq a.after_state b.after_state && str_eq a.metadata b.metadata)))))

same_payload-eq : (a b : Payload) → same_payload a b ≡ true → a ≡ b
same_payload-eq a b h = ground (
  arith,
  same_facts-eq a.facts b.facts,
  str_eq-eq a.previous_hash b.previous_hash,
  str_eq-eq a.before_state b.before_state,
  str_eq-eq a.after_state b.after_state,
  str_eq-eq a.metadata b.metadata,
)

same_payload_refl : (a : Payload) → same_payload a a ≡ true
same_payload_refl a = ground (
  arith,
  eq-str_eq a.facts.id a.facts.id refl,
  eq-str_eq a.facts.actor_id a.facts.actor_id refl,
  eq-str_eq a.facts.actor_type a.facts.actor_type refl,
  eq-str_eq a.facts.action a.facts.action refl,
  eq-str_eq a.facts.resource_type a.facts.resource_type refl,
  eq-str_eq a.facts.resource_id a.facts.resource_id refl,
  eq-str_eq a.facts.request_id a.facts.request_id refl,
  eq-str_eq a.facts.ip_address a.facts.ip_address refl,
  eq-str_eq a.previous_hash a.previous_hash refl,
  eq-str_eq a.before_state a.before_state refl,
  eq-str_eq a.after_state a.after_state refl,
  eq-str_eq a.metadata a.metadata refl,
)

same_payload-ne : (a b : Payload) → same_payload a b ≡ false → a ≢ b
same_payload-ne a b h e = let self : same_payload a b ≡ true = rw (← e) (same_payload_refl a) in cc

-- Two payloads with one digest.
abbrev pub Collision : Platform → Type 0
Collision platform =
    (p : Payload) × (q : Payload) × (p ≢ q) × (platform.digest p ≡ platform.digest q)

-- Two rows record the same: they agree in every column, the JSON ones up to canonical form.
pub record SameRow (platform : Platform) (r s : Row) : Type 0 where
  pub facts : r.facts ≡ s.facts
  pub position : r.chain_position ≡ s.chain_position
  pub previous : r.previous_hash ≡ s.previous_hash
  pub entry : r.entry_hash ≡ s.entry_hash
  pub before :
      canonicalize_raw_json platform r.before_json ≡ canonicalize_raw_json platform s.before_json
  pub after :
      canonicalize_raw_json platform r.after_json ≡ canonicalize_raw_json platform s.after_json
  pub metadata :
      canonicalize_raw_json platform r.metadata_json
      ≡ canonicalize_raw_json platform s.metadata_json

abbrev pub SameRows : Platform → List Row → List Row → Type 0
SameRows platform [] [] = Unit
SameRows platform (r ∷ rs) (s ∷ ss) = SameRow platform r s × SameRows platform rs ss
SameRows platform _ _ = ⊥

module _ (platform : Platform) where
  -- Two links with one hash record the same.
  IsLink-same :
      (previous previous' : String) (position position' : ℕ) (r s : Row)
      → IsLink platform previous position r
      → IsLink platform previous' position' s
      → r.entry_hash ≡ s.entry_hash
      → SameRow platform r s ⊎ Collision platform
  IsLink-same previous previous' position position' r s l k e =
      let (p, is_p, dp) =
        calculate_hash-digest platform r.facts r.chain_position r.previous_hash r.before_json
          r.after_json r.metadata_json r.entry_hash l.hashed in
      let (q, is_q, dq) =
        calculate_hash-digest platform s.facts s.chain_position s.previous_hash s.before_json
          s.after_json s.metadata_json s.entry_hash k.hashed in
      elim (Bool-cases (same_payload p q)) [
        | inl same ↦
            let pq = same_payload-eq p q same in
            inl (record {
              facts = cc (is_p.facts_eq, is_q.facts_eq, pq);
              position = cc (is_p.position_eq, is_q.position_eq, pq);
              previous = cc (is_p.previous_eq, is_q.previous_eq, pq);
              entry = e;
              before = cc (is_p.before_eq, is_q.before_eq, pq);
              after = cc (is_p.after_eq, is_q.after_eq, pq);
              metadata = cc (is_p.metadata_eq, is_q.metadata_eq, pq);
            })
        | inr differ ↦ inr (p, q, same_payload-ne p q differ, dp ∙ e ∙ sym dq)
      ]

  ChainTo-same :
      (previous previous' : String) (position : ℕ) (rs ss : List Row) (last : String) (end : ℕ)
      → ChainTo platform previous position rs last end
      → ChainTo platform previous' position ss last end
      → (SameRows platform rs ss × (previous ≡ previous')) ⊎ Collision platform
  ChainTo-same previous previous' position [] [] last end c d = inl (tt, c.0 ∙ sym d.0)
  ChainTo-same previous previous' position [] (s ∷ ss) last end c d =
      absurd (omega (arith, c.1, ChainTo-length platform previous' position (s ∷ ss) last end d))
  ChainTo-same previous previous' position (r ∷ rs) [] last end c d =
      absurd (omega (arith, d.1, ChainTo-length platform previous position (r ∷ rs) last end c))
  ChainTo-same previous previous' position (r ∷ rs) (s ∷ ss) last end c d =
      elim (ChainTo-same r.entry_hash s.entry_hash (position + 1) rs ss last end c.1 d.1) [
        | inr collision ↦ inr collision
        | inl (tail, e) ↦ elim (IsLink-same previous previous' position position r s c.0 d.0 e) [
          | inr collision ↦ inr collision
          | inl same ↦ inl ((same, tail), sym c.0.follows ∙ same.previous ∙ d.0.follows)
        ]
      ]

  -- The head pins down the history: two sound ledgers with the same head hash and position have the
  -- same rows, with JSON up to canonical form, or exhibit two different payloads with one digest.
  pub same_head-SameRows :
      (ledger ledger' : Ledger) (head : Head)
      → IsSound platform ledger head
      → IsSound platform ledger' head
      → SameRows platform ledger.rows ledger'.rows ⊎ Collision platform
  same_head-SameRows ledger ledger' head s s' =
      elim (ChainTo-same genesis_hash genesis_hash 1 ledger.rows ledger'.rows head.last_hash
        (head.last_position + 1) s.chained s'.chained) [
          | inl (same, _) ↦ inl same
          | inr collision ↦ inr collision
        ]
