-- ===== src/Approvals/Verdict.antt =====
-- What a decision that internal/approvals/service.go takes means.
use argus.Base.{
  ℕ, ◌<◌, String, ◌≡◌, ◌≢◌, ◌⊎◌, refl, ap, ◌∙◌, Bool, true, false, Option, none, some, arith,
  str_eq-eq, ne-str_eq, str_eq, ltb, codes, trim_space, equal_fold, Bool-cases, Option-cases, inl,
  inr,
}
use argus.Base.Result.{Result, ok, err, Result-cases}
use argus.Approvals.{
  RequestStatus, Request, Event, ApprovalError, Database, is_pending, count_where, find_request,
  transact,
}
use argus.Approvals.Store.{
  is_awaiting_id, verdict, approver, write_audits, decided_rows, decided_events, decide_tx, decide,
  expire_tx, after_expiry, decision_approve, decision_deny,
}
use argus.Approvals.Service.{
  Service, normalize_decision, validate_decision, validate_separation, or_refuse, decide_request,
}
use argus.Approvals.Final.{write_audits-same}
use argus.Approvals.Rows.{find_request-id}
use argus.Remediation.States.{State}
use argus.Approvals.Meaning.{
  Settles, Means, Settles-update_where, find_request-decided, find_request-others, Means-verdict,
}

-- The request was pending and in time, somebody else who is named gave a reason, one remediation
-- awaited approval, both rows now have what the decision means, and all others are as they were.
pub record IsDecided {L : Type 0} (write : Event → L → Option L) (s : Service) (r : Request)
    (actor decision reason source : String) (now : ℕ) (db db' : Database L) : Type 0 where
  pub request_status : RequestStatus
  pub status : State
  pub approved_by : Option String
  pub was_pending : is_pending r.status ≡ true
  pub in_time : now < r.expires_at
  pub separate :
      s.allow_self ≡ false
      → equal_fold (codes (trim_space r.requested_by)) (codes (trim_space actor)) ≡ false
  pub named : trim_space actor ≢ ""
  pub no_system : actor ≢ "system"
  pub reasoned : trim_space reason ≢ ""
  pub means : Means decision actor request_status status approved_by
  pub awaited : count_where (is_awaiting_id r.remediation_id) db.remediations ≡ 1
  pub request_after :
      find_request r.id db'.requests
      ≡ some (record r {
        status = request_status;
        decided_at = some now;
        decided_by = actor;
        decision_reason = reason;
        decision_source = source;
        updated_at = now;
      })
  pub other_requests :
      (k : String)
      → str_eq r.id k ≡ false
      → find_request k db'.requests ≡ find_request k db.requests
  pub remediations_after :
      Settles r.remediation_id status approved_by db.remediations db'.remediations

module _ {L : Type 0} (write : Event → L → Option L) where
  transact-ok :
      {A : Type 0} (db : Database L) (t : Result ApprovalError (Database L × A)) (a : A)
      → (transact db t).1 ≡ ok a
      → t ≡ ok ((transact db t).0, a)
  transact-ok {A = A} db (ok (d, b)) a h = ap (λ x. ok (d, x)) (same_value h)
    where
      same_value : {x y : A} → ◌≡◌ {A = Result ApprovalError A} (ok x) (ok y) → x ≡ y
      same_value e = cc
  transact-ok db (err e) a h = cc

  decide_tx-rows :
      (r : Request) (actor actor_type decision reason source : String) (now : ℕ)
      (db db' : Database L) (r' : Request)
      → decide_tx write r actor actor_type decision reason source now db ≡ ok (db', r')
      → (count_where (is_awaiting_id r.remediation_id) db.remediations ≡ 1)
        × (db'.requests ≡ (decided_rows r actor decision reason source now db).requests)
        × (db'.remediations ≡ (decided_rows r actor decision reason source now db).remediations)
  unfolding decide_tx
  decide_tx-rows r actor actor_type decision reason source now db db' r' h =
      let rows = decided_rows r actor decision reason source now db in
      let events = decided_events r actor actor_type decision reason source in
      elim (Result-cases (write_audits write events rows)) [
        | inr (bad, e) ↦ absurd (ground arith)
        | inl (d, e) ↦
            let same_d : d ≡ db' = ground arith in
            let same = write_audits-same write events rows d e in
            (ground arith, rw (← same_d) same.0, rw (← same_d) same.1)
      ]

  after_expiry-err :
      (db : Database L) (t : Result ApprovalError (Database L)) (r : Request)
      → (after_expiry db t).1 ≡ ok r
      → ⊥
  after_expiry-err db (ok d) r h = cc
  after_expiry-err db (err e) r h = cc

  or_refuse-ok :
      (db : Database L) (refusal : Option ApprovalError)
      (next : Database L × Result ApprovalError Request) (r : Request)
      → (or_refuse db refusal next).1 ≡ ok r
      → (refusal ≡ none) × (or_refuse db refusal next ≡ next)
  or_refuse-ok db none next r h = (refl, refl)
  or_refuse-ok db (some e) next r h = cc

  validated :
      (decision reason actor : String)
      → validate_decision decision reason actor ≡ none
      → (trim_space actor ≢ "")
        × (actor ≢ "system")
        × (trim_space reason ≢ "")
        × ((decision ≡ decision_approve) ⊎ (decision ≡ decision_deny))
  unfolding validate_decision
  validated decision reason actor h = (
    ne-str_eq (trim_space actor) "" (ground arith),
    ne-str_eq actor "system" (ground arith),
    ne-str_eq (trim_space reason) "" (ground arith),
    ground (arith, str_eq-eq decision decision_approve, str_eq-eq decision decision_deny),
  )

  separated :
      (requested_by actor : String) (allow_self : Bool)
      → validate_separation requested_by actor allow_self ≡ none
      → allow_self ≡ false
      → equal_fold (codes (trim_space requested_by)) (codes (trim_space actor)) ≡ false
  unfolding validate_separation
  separated requested_by actor allow_self h off = ground arith

  -- What the store decides, without the checks of the service.
  abbrev Stored : Request → String → String → String → String → ℕ → Database L → Database L → Type 0
  Stored r actor decision reason source now db db' =
      (is_pending r.status ≡ true)
      × (now < r.expires_at)
      × (count_where (is_awaiting_id r.remediation_id) db.remediations ≡ 1)
      × (db'.requests ≡ (decided_rows r actor decision reason source now db).requests)
      × (db'.remediations ≡ (decided_rows r actor decision reason source now db).remediations)

  decide-ok :
      (id actor actor_type decision reason source : String) (now : ℕ) (db : Database L)
      (r r' : Request)
      → find_request id db.requests ≡ some r
      → (decide write id actor actor_type decision reason source now db).1 ≡ ok r'
      → Stored r actor decision reason source now db
          (decide write id actor actor_type decision reason source now db).0
  unfolding decide
  decide-ok id actor actor_type decision reason source now db r r' found h =
      elim (Bool-cases (is_pending r.status)) [
        | inr done ↦ cc (rw (found, done, decide) at h)
        | inl waits ↦ elim (Bool-cases (ltb now r.expires_at)) [
          | inr late ↦ absurd (
              after_expiry-err db (expire_tx write r now db) r'
                (rw (found, waits, late, decide) at h))
          | inl in_time ↦
              let tx = decide_tx write r actor actor_type decision reason source now db in
              let done = transact-ok db tx r' (rw (found, waits, in_time, decide) at h) in
              let (awaited, requests, remediations) =
                decide_tx-rows r actor actor_type decision reason source now db (transact db tx).0
                  r' done in
              rw (found, waits, in_time, decide)
                (refl, ground arith, awaited, requests, remediations)
        ]
      ]

  -- A decision is a verdict of somebody else: when `Decide` of the service succeeds, the request was
  -- pending and not yet expired, the actor is named, is not system and, unless the service allows it,
  -- is not the proposer, there is a reason, and one remediation of the request awaited approval. An
  -- approval approves the request and that remediation, by the actor; a denial denies the request and
  -- rejects the remediation; the request holds who decided, when, why and from where; every other
  -- request and remediation is as before.
  pub decide_request-IsDecided :
      (s : Service) (id actor actor_type text reason source : String) (now : ℕ) (db : Database L)
      (r' : Request)
      → (decide_request write s id actor actor_type text reason source now db).1 ≡ ok r'
      → (r : Request) × (find_request id db.requests ≡ some r)
        × IsDecided write s r actor
            (normalize_decision text)
            (trim_space reason)
            source
            now
            db
            (decide_request write s id actor actor_type text reason source now db).0
  unfolding decide_request
  decide_request-IsDecided s id actor actor_type text reason source now db r' h =
      let decision = normalize_decision text in
      let (valid, same) =
        or_refuse-ok db (validate_decision decision (trim_space reason) actor) _ r' h in
      let (named, no_system, reasoned, clear) =
        validated decision (trim_space reason) actor valid in
      elim (Option-cases (find_request id db.requests)) [
        | inl absent ↦ cc (rw (valid, absent, decide_request) at h)
        | inr (r, found) ↦
            let tried =
              decide write id actor actor_type decision (trim_space reason) source now db in
            let (apart, _) =
              or_refuse-ok db (validate_separation r.requested_by actor s.allow_self) tried r'
                (rw (valid, found, decide_request) at h) in
            let stored =
              decide-ok id actor actor_type decision (trim_space reason) source now db r r' found
                (rw (valid, found, apart, decide_request) at h) in
            rw (valid, found, apart, decide_request)
              (
                r,
                refl,
                record {
                  was_pending = stored.0;
                  in_time = stored.1;
                  separate = separated r.requested_by actor s.allow_self apart;
                  named = named;
                  no_system = no_system;
                  reasoned = reasoned;
                  request_status = (verdict decision).0;
                  status = (verdict decision).1;
                  approved_by = approver decision actor;
                  means = Means-verdict decision actor clear named;
                  awaited = stored.2;
                  request_after = rw stored.3 (
                      find_request-decided r _ db.requests (λ x. refl)
                        (ap (λ i. find_request i db.requests)
                            (find_request-id id db.requests r found)
                          ∙ found));
                  other_requests = λ k apart.
                      rw stored.3 (find_request-others r.id k _ db.requests (λ x. refl) apart);
                  remediations_after = rw stored.4 (
                      Settles-update_where r.remediation_id (verdict decision).1
                        (approver decision actor) db.remediations);
                },
              )
      ]
