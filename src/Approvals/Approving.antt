-- ===== src/Approvals/Approving.antt =====
-- What approves a remediation: only a decision of internal/approvals/service.go does.
use argus.Base.{
  ℕ, String, ◌≡◌, refl, ap, sym, ◌∙◌, Option, List, [], ◌∷◌, trim_space, Option-cases, inl, inr,
}
use mathlib.Core.Path.{subst}
use argus.Base.Result.{Result-cases}
use argus.Remediation.States.{State}
use argus.Remediation.States.Lifecycle.{IsLive}
use argus.Approvals.{RequestStatus, Request, Remediation, Event, Database, find_by_remediation}
use argus.Approvals.Service.{Service, normalize_decision, decide_request, decide_by_remediation}
use argus.Approvals.Steps.{Step, requested, decided, decided_by_remediation, cancelled, swept}
use argus.Approvals.Meaning.{Means, Settles}
use argus.Approvals.Verdict.{IsDecided, decide_request-IsDecided}
use argus.Approvals.Approved.{Lets, Quiet-refl, Quiet-Lets}
use argus.Approvals.Quiet.{
  request_approval-Quiet, process_due-Quiet, cancel_request-Quiet, decide_request-Quiet,
}

module _ {L : Type 0} (write : Event → L → Option L) where
  -- A decision that approves the remediation with the identifier.
  abbrev pub Approval :
      Service → String → String → String → String → ℕ → Database L → Database L → String → Type 0
  Approval s actor text reason source now db db' id =
      (r : Request) × (r.remediation_id ≡ id)
      × (normalize_decision text ≡ "approve")
      × IsDecided write s r actor (normalize_decision text) (trim_space reason) source now db db'

  -- The operation decides, and so approves the remediation.
  abbrev pub Approves : {db db' : Database L} → Step write db db' → String → Type 0
  Approves {db} {db'} (decided s id actor actor_type text reason source now) rid =
      Approval s actor text reason source now db
        (decide_request write s id actor actor_type text reason source now db).0 rid
  Approves {db} {db'} (decided_by_remediation s remediation_id actor actor_type text reason now)
        rid =
      Approval s actor text reason "api" now db
        (decide_by_remediation write s remediation_id actor actor_type text reason now db).0 rid
  Approves (requested s id p notification now) rid = ⊥
  Approves (cancelled remediation_id actor reason now) rid = ⊥
  Approves (swept notify now) rid = ⊥

  IsLive-status : (s t : State) → s ≡ t → IsLive s → IsLive t
  IsLive-status s t e l = subst IsLive e l

  settled-Lets :
      (P : String → Type 0) (decision actor : String) (request_status : RequestStatus) (id : String)
      (status : State) (approved_by : Option String) (rows rows' : List Remediation)
      → Means decision actor request_status status approved_by
      → (decision ≡ "approve" → P id)
      → Settles id status approved_by rows rows'
      → Lets P rows rows'
  settled-Lets P decision actor q id status approved_by [] [] m p s = tt
  settled-Lets P decision actor q id status approved_by (a ∷ rest) (b ∷ rest') m p s = (
    elim s.0 [
      | inl (_, _, e) ↦ ap (λ (x : Remediation). x.id) (sym e)
      | inr (_, e) ↦ ap (λ (x : Remediation). x.id) (sym e)
    ],
    λ l. elim s.0 [
      | inr (_, e) ↦ inl (subst (λ (x : Remediation). IsLive x.status) e l)
      | inl (own, _, e) ↦ elim m [
        | inl (approves, _, _, _) ↦
            inr (subst P (sym own ∙ ap (λ (x : Remediation). x.id) (sym e)) (p approves))
        | inr (_, _, rejects, _) ↦ absurd (
            IsLive-status b.status State.rejected (ap (λ (x : Remediation). x.status) e ∙ rejects)
              l)
      ]
    ],
    settled-Lets P decision actor q id status approved_by rest rest' m p s.1,
  )
  settled-Lets P decision actor q id status approved_by [] (b ∷ rest') m p s = elim s [ ]
  settled-Lets P decision actor q id status approved_by (a ∷ rest) [] m p s = elim s [ ]

  decide_request-Lets :
      (s : Service) (id actor actor_type text reason source : String) (now : ℕ) (db : Database L)
      → let db' = (decide_request write s id actor actor_type text reason source now db).0 in
        Lets (Approval s actor text reason source now db db') db.remediations db'.remediations
  decide_request-Lets s id actor actor_type text reason source now db =
      let r = decide_request write s id actor actor_type text reason source now db in
      let P = Approval s actor text reason source now db r.0 in
      elim (Result-cases r.1) [
        | inr (e, failed) ↦
            Quiet-Lets P db.remediations r.0.remediations
              (decide_request-Quiet write s id actor actor_type text reason source now db e failed)
        | inl (r', done) ↦
            let (q, found, d) =
              decide_request-IsDecided write s id actor actor_type text reason source now db r'
                done in
            settled-Lets P (normalize_decision text) actor d.request_status q.remediation_id
              d.status d.approved_by db.remediations r.0.remediations d.means (λ e. (q, refl, e, d))
              d.remediations_after
      ]

  decide_by_remediation-Lets :
      (s : Service) (remediation_id actor actor_type text reason : String) (now : ℕ)
      (db : Database L)
      → let db' =
          (decide_by_remediation write s remediation_id actor actor_type text reason now db).0 in
        Lets (Approval s actor text reason "api" now db db') db.remediations db'.remediations
  unfolding decide_by_remediation
  decide_by_remediation-Lets s remediation_id actor actor_type text reason now db =
      elim (Option-cases (find_by_remediation remediation_id db.requests)) [
        | inl absent ↦
            rw (absent, decide_by_remediation)
              (Quiet-Lets (Approval s actor text reason "api" now db db) db.remediations
                db.remediations (Quiet-refl db.remediations))
        | inr (r, found) ↦
            rw (found, decide_by_remediation)
              (decide_request-Lets s r.id actor actor_type text reason "api" now db)
      ]

  -- No operation but a decision that approves makes a remediation approved.
  pub Step-Lets :
      (db db' : Database L) (one : Step write db db')
      → Lets (Approves one) db.remediations db'.remediations
  Step-Lets db _ (requested s id p notification now) =
      Quiet-Lets _ db.remediations _ (request_approval-Quiet write s id p notification now db)
  Step-Lets db _ (decided s id actor actor_type text reason source now) =
      decide_request-Lets s id actor actor_type text reason source now db
  Step-Lets db _ (decided_by_remediation s remediation_id actor actor_type text reason now) =
      decide_by_remediation-Lets s remediation_id actor actor_type text reason now db
  Step-Lets db _ (cancelled remediation_id actor reason now) =
      Quiet-Lets _ db.remediations _ (cancel_request-Quiet write remediation_id actor reason now db)
  Step-Lets db _ (swept notify now) =
      Quiet-Lets _ db.remediations _ (process_due-Quiet write notify now db)
