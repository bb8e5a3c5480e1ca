-- ===== src/Examples/Ledgers.antt =====
-- Runs of internal/audit/chain.go and internal/audit/service.go: a ledger with one migrated row, and
-- one write.
use argus.Base.{
  ℕ, String, ◌≡◌, ◌⊎◌, ◌↔◌, refl, true, some, List, [], ◌∷◌, ◌==◌, if◌then◌else◌, str_eq,
  trim_space, Bool-cases, inl, inr,
}
use argus.Base.Result.{ok}
use argus.Audit.{
  Prepared, Platform, Entry, Facts, Row, Head, Ledger, genesis_hash, canonicalize_raw_json,
  calculate_hash, write_tx, prepare_entry, entry_facts, new_row, conflicts, insert_row,
  advance_head,
}
use argus.Audit.Verify.{valid_hash}
use argus.Audit.Chain.{IsLink, IsSound}
use argus.Audit.Decides.{Passes, verify_iff}
use argus.Audit.Write.{IsReliable, SameJson, KeepsJson}
use argus.Audit.Backfill.{LegacyRow, backfill_legacy_rows, backfill-IsSound}
use argus.Audit.History.{Drawn, write_all, history-verifies}
use argus.Audit.Tamper.{SameRows, Collision, same_head-SameRows}

abbrev first_hash : String
first_hash = "aaaaaaaaaaaaaaaaaaaaaaaaaaaaaaaaaaaaaaaaaaaaaaaaaaaaaaaaaaaaaaaa"

abbrev other_hash : String
other_hash = "bbbbbbbbbbbbbbbbbbbbbbbbbbbbbbbbbbbbbbbbbbbbbbbbbbbbbbbbbbbbbbbb"

-- JSON is kept as it is, and the digest tells the first position from the others.
abbrev plain : Platform
plain = record {
  recode = λ s. some s;
  digest = λ p. if p.chain_position == 1 then first_hash else other_hash;
  stored = λ f p. some p;
}

first_valid : valid_hash first_hash ≡ true
unfolding valid_hash
first_valid = refl

other_valid : valid_hash other_hash ≡ true
unfolding valid_hash
other_valid = refl

plain-IsReliable : IsReliable plain
plain-IsReliable = record {
  hex = λ p. elim (Bool-cases (p.chain_position == 1)) [
    | inl first ↦ rw first first_valid
    | inr later ↦ rw later other_valid
  ];
}

abbrev facts : String → Facts
facts id = record {
  id = id;
  actor_id = "ops";
  actor_type = "user";
  action = "approve";
  resource_type = "remediation";
  resource_id = "r1";
  request_id = "";
  ip_address = "";
  created_at = 7000;
}

abbrev legacy : LegacyRow
legacy = record {
  facts = facts "a1";
  before_json = "null";
  after_json = "null";
  metadata_json = "null";
}

abbrev entry : Entry
entry = record {
  id = "";
  actor_id = "ops";
  actor_type = "user";
  action = "execute";
  resource_type = "remediation";
  resource_id = "r1";
  request_id = "";
  ip_address = "";
  before_state = some "null";
  after_state = some "null";
  metadata = some "null";
  created_at = 0;
}

abbrev first_head : Head
first_head = record { last_position = 1; last_hash = first_hash }

abbrev first_row : Row
first_row = record {
  facts = facts "a1";
  before_json = "null";
  after_json = "null";
  metadata_json = "null";
  chain_position = 1;
  previous_hash = genesis_hash;
  entry_hash = first_hash;
  hash_version = 1;
}

abbrev migrated : Ledger
migrated = record { rows = first_row ∷ []; head = some first_head }

abbrev second_head : Head
second_head = record { last_position = 2; last_hash = other_hash }

abbrev second_row : Row
second_row = record {
  facts = record (facts "a2") { action = "execute"; created_at = 9000 };
  before_json = "null";
  after_json = "null";
  metadata_json = "null";
  chain_position = 2;
  previous_hash = first_hash;
  entry_hash = other_hash;
  hash_version = 1;
}

abbrev appended : Ledger
appended = record { rows = first_row ∷ second_row ∷ []; head = some second_head }

migrates : backfill_legacy_rows plain (legacy ∷ []) ≡ ok migrated
unfolding backfill_legacy_rows calculate_hash canonicalize_raw_json trim_space str_eq
migrates = refl

writes : write_tx plain "a2" 9123 migrated entry ≡ ok appended
unfolding write_tx calculate_hash canonicalize_raw_json trim_space str_eq prepare_entry entry_facts
    new_row conflicts insert_row advance_head
writes = refl

genesis_valid : valid_hash genesis_hash ≡ true
unfolding valid_hash
genesis_valid = refl

first_IsLink : IsLink plain genesis_hash 1 first_row
unfolding calculate_hash canonicalize_raw_json trim_space str_eq
first_IsLink = record {
  at_position = refl;
  version = refl;
  previous_valid = genesis_valid;
  entry_valid = first_valid;
  follows = refl;
  hashed = refl;
}

migrated-IsSound : IsSound plain migrated first_head
migrated-IsSound = record { stored = refl; chained = (first_IsLink, (refl, refl)) }

verify_iff_example : Passes plain 5 migrated ↔ ((head : Head) × IsSound plain migrated head)
verify_iff_example = verify_iff plain 5 migrated

backfill_example : (head : Head) × IsSound plain migrated head × (head.last_position ≡ 1)
backfill_example = backfill-IsSound plain plain-IsReliable (legacy ∷ []) migrated migrates

plain-KeepsJson : (new_id : String) (now : ℕ) (e : Entry) → KeepsJson plain new_id now e
plain-KeepsJson new_id now e prepared kept is_prepared is_kept = same_json prepared kept is_kept
  where
    same_json : (p q : Prepared) → some p ≡ some q → SameJson plain q p
    same_json p q h = let e' : p ≡ q = cc in rw e' (refl, refl, refl)

abbrev one_write : List Drawn
one_write = record { new_id = "a2"; now = 9123; entry = entry } ∷ []

history_example : Passes plain 5 (write_all plain migrated one_write)
history_example =
    history-verifies plain plain-IsReliable (legacy ∷ []) migrated one_write 5 migrates
      (plain-KeepsJson "a2" 9123 entry, tt)

same_head_example : SameRows plain migrated.rows migrated.rows ⊎ Collision plain
same_head_example =
    same_head-SameRows plain migrated migrated first_head migrated-IsSound migrated-IsSound
