-- ===== src/Approvals/Final.antt =====
-- What no operation of internal/approvals takes back.
use argus.Base.{
  ℕ, String, ◌≡◌, refl, sym, ap, ◌∙◌, Bool, true, false, Option, none, some, List, arith, str_eq,
  str_eq-eq, Bool-cases, Option-cases, inl, inr,
}
use argus.Base.Result.{Result, ok, Result-cases}
use argus.Remediation.States.{awaiting_approval, timed_out, require_transition, can_transition}
use argus.Approvals.{
  RequestStatus, Request, Event, ApprovalError, Database, is_pending, update_where, find_request,
}
use argus.Approvals.Store.{
  has_id, is_pending_id, set_expired, set_state, write_audit, write_audits, expired_rows, expire_tx,
  expired_events,
}
use argus.Approvals.Rows.{
  Keyed, Moved, Moved-refl, Moved-trans, Moved-update_where, Keyed-update_where, KeepsId,
  find_request-update_where, find_request-id, updated,
}

-- The request that is found has this status.
abbrev pub HasStatus : String → RequestStatus → List Request → Type 0
HasStatus id status rs = (r : Request) × (find_request id rs ≡ some r) × (r.status ≡ status)

-- One database after another: the identifiers stay unique, a request that is no longer pending keeps
-- its status, and remediations move along allowed transitions.
pub record Follows {L : Type 0} (db db' : Database L) : Type 0 where
  pub keyed : Keyed db'.requests
  pub final :
      (id : String) (r : Request)
      → find_request id db.requests ≡ some r
      → is_pending r.status ≡ false
      → HasStatus id r.status db'.requests
  pub moved : Moved db.remediations db'.remediations

-- An update that touches only pending requests, or keeps their status.
abbrev pub Harmless : List Request → (Request → Bool) → (Request → Request) → Type 0
Harmless rs p f =
    (id : String) (r : Request)
    → find_request id rs ≡ some r
    → is_pending r.status ≡ false
    → (updated p f r).status ≡ r.status

-- The update of the row of a pending request.
pub Harmless-has_id :
    (rs : List Request) (q : Request) (f : Request → Request)
    → find_request q.id rs ≡ some q
    → is_pending q.status ≡ true
    → Harmless rs (has_id q.id) f
Harmless-has_id rs q f found waits id r h d = elim (Bool-cases (str_eq r.id q.id)) [
  | inr other ↦ ground arith
  | inl same ↦
      let r_id = find_request-id id rs r h in
      let qr : some q ≡ some r =
        sym found ∙ ap (λ i. find_request i rs) (sym (str_eq-eq r.id q.id same) ∙ r_id) ∙ h in
      absurd (cc (status_alike q r qr, waits, d))
]
  where
    status_alike : (a b : Request) → some a ≡ some b → is_pending a.status ≡ is_pending b.status
    status_alike a b e = cc

module _ {L : Type 0} where
  pub Follows-refl : (db : Database L) → Keyed db.requests → Follows db db
  Follows-refl db k = record {
    keyed = k;
    final = λ id r h d. (r, h, refl);
    moved = Moved-refl db.remediations;
  }

  pub Follows-trans : (a b c : Database L) → Follows a b → Follows b c → Follows a c
  Follows-trans a b c f g = record {
    keyed = g.keyed;
    final = λ id r h d.
        let (r', h', same) = f.final id r h d in
        let (r'', h'', same') = g.final id r' h' (ap is_pending same ∙ d) in
        (r'', h'', same' ∙ same);
    moved = Moved-trans a.remediations b.remediations c.remediations f.moved g.moved;
  }

  pub updated_rows :
      (db db' : Database L) (p : Request → Bool) (f : Request → Request)
      → Keyed db.requests
      → KeepsId f
      → Harmless db.requests p f
      → db'.requests ≡ update_where p f db.requests
      → Moved db.remediations db'.remediations
      → Follows db db'
  updated_rows db db' p f k keeps harmless same moved = record {
    keyed = rw same (Keyed-update_where p f keeps db.requests k);
    final = λ id r h d. (
      updated p f r,
      rw same (find_request-update_where p f keeps id db.requests r h),
      harmless id r h d,
    );
    moved = moved;
  }

module _ {L : Type 0} (write : Event → L → Option L) where
  -- An audit entry changes no row.
  pub write_audit-same :
      (e : Event) (db db' : Database L)
      → write_audit write e db ≡ ok db'
      → (db'.requests ≡ db.requests) × (db'.remediations ≡ db.remediations)
  unfolding write_audit
  write_audit-same e db db' h = elim (Option-cases (write e db.ledger)) [
    | inl lost ↦ cc (rw (lost, write_audit) at h)
    | inr (ledger, kept) ↦
        let same = same_database (rw (kept, write_audit) at h) in
        (
          ap (λ (d : Database L). d.requests) (sym same),
          ap (λ (d : Database L). d.remediations) (sym same),
        )
  ]
    where
      same_database :
          {a b : Database L} → ◌≡◌ {A = Result ApprovalError (Database L)} (ok a) (ok b) → a ≡ b
      same_database p = cc

  pub write_audits-same :
      (events : Event × Event) (db db' : Database L)
      → write_audits write events db ≡ ok db'
      → (db'.requests ≡ db.requests) × (db'.remediations ≡ db.remediations)
  unfolding write_audits
  write_audits-same events db db' h = elim (Result-cases (write_audit write events.0 db)) [
    | inr (bad, f) ↦ cc (rw (f, write_audits) at h)
    | inl (d, f) ↦
        let one = write_audit-same events.0 db d f in
        let two = write_audit-same events.1 d db' (rw (f, write_audits) at h) in
        (two.0 ∙ one.0, two.1 ∙ one.1)
  ]

  to_timed_out : require_transition awaiting_approval timed_out ≡ none
  unfolding require_transition can_transition
  to_timed_out = refl

  pub expire_tx-Follows :
      (r : Request) (now : ℕ) (db db' : Database L)
      → Keyed db.requests
      → expire_tx write r now db ≡ ok db'
      → Follows db db'
  unfolding expire_tx
  expire_tx-Follows r now db db' k h =
      let same = write_audits-same (expired_events r now) (expired_rows r now db) db' h in
      updated_rows db db' (is_pending_id r.id) (set_expired now) k (λ x. refl)
        (λ id x f d. ground arith) same.0
        (rw same.1 (
          Moved-update_where r.remediation_id (set_state timed_out) timed_out db.remediations
            (λ a. (refl, refl)) to_timed_out))
