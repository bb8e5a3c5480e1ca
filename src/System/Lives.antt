-- ===== src/System/Lives.antt =====
-- Sequences of operations of internal/remediation, internal/workers and internal/approvals on one
-- database.
use argus.Base.{ℕ, String, ◌≡◌, sym, ◌⊎◌, Bool, Option, some, List, [], ◌∷◌, All, Dict}
use mathlib.Core.Path.{subst}
use argus.Actions.{Value}
use argus.Approvals.{Event, Database}
use argus.Approvals.Service.{Service}
use argus.Approvals.Steps.{Step as ApprovalStep, Step-Follows as approved-Follows}
use argus.Approvals.Approving.{Approves, Step-Lets}
use argus.Remediation.States.Lifecycle.{HandedOut}
use argus.Policy.{Engine, IncidentInput}
use argus.Rca.{Candidate}
use argus.Jobs.{Action, Message, World}
use argus.Jobs.Runner.{Handler}
use argus.Jobs.Steps.{Step as JobStep, Step-Follows as worked-Follows}
use argus.Jobs.Proposals.{propose}
use argus.Jobs.Proposing.{propose-Proposes}
use argus.System.{Requests, database, write_back, absorb, asks}
use argus.System.Shared.{
  LetsActions, write_back-LetsActions, Advances-LetsActions, asks-KeepsActions,
}
use argus.System.Born.{
  IsCovered, IsAuthorised, IsCovered-IsAuthorised, Grows, Grows-LetsActions, Grows-Proposes,
  Grows-IsCovered, LetsActions-refl,
}

module _ {L Q T : Type 0} (write : Event → L → Option L) (publish : Message → Q → Q × Option String)
    (handlers : Dict (Handler T)) where
  -- `Propose` through the approval service, an operation of that service, one on jobs, or anything that
  -- leaves the table of remediations alone.
  pub data Step (p : World L Q × Requests) : World L Q × Requests → Type 0 where
    proposed :
        (digest : Dict Value → String) (same : Dict Value → Dict Value → Bool) (engine : Engine)
        (s : Service) (fresh : Action → String) (notify : Action → Option String)
        (actor role : String) (incident : IncidentInput) (now : ℕ)
        (candidates : List (String × Candidate))
        → Step p
            (propose write digest same engine
              (some (asks write s fresh notify now))
              actor
              role
              incident
              now
              candidates
              p).0
    decided :
        (db : Database L) (one : ApprovalStep write (database p) db)
        → Step p (absorb db (approved-Follows write (database p) db p.1.1 one).keyed p.0)
    worked : (w : World L Q) → JobStep write publish handlers p.0 w → Step p (w, p.1)
    elsewhere : (q : World L Q × Requests) → q.0.actions ≡ p.0.actions → Step p q

  -- Any number of operations, in any order.
  pub data Life (p : World L Q × Requests) : World L Q × Requests → Type 0 where
    begin : Life p p
    then_step : {q r : World L Q × Requests} → Life p q → Step q r → Life p r

  -- The operation is a decision of the approval service that approves the remediation.
  abbrev pub Approving : {p q : World L Q × Requests} → Step p q → String → Type 0
  Approving (decided db one) id = Approves write one id
  Approving (proposed digest same engine s fresh notify actor role incident now candidates) id = ⊥
  Approving (worked w one) id = ⊥
  Approving (elsewhere q same) id = ⊥

  -- Some operation of the sequence is such a decision.
  abbrev pub WasApproved : {p q : World L Q × Requests} → Life p q → String → Type 0
  WasApproved begin id = ⊥
  WasApproved (then_step life one) id = Approving one id ⊎ WasApproved life id

  Step-Grows :
      (p q : World L Q × Requests) (one : Step p q) → Grows (Approving one) p.0.actions q.0.actions
  Step-Grows p _ (proposed digest same engine s fresh notify actor role incident now candidates) =
      let r =
        propose write digest same engine (some (asks write s fresh notify now)) actor role incident
          now candidates p in
      Grows-Proposes _ p.0.actions r.0.0.actions (
        propose-Proposes same write digest engine (some (asks write s fresh notify now)) actor role
          incident now candidates p (asks-KeepsActions write s fresh notify now))
  Step-Grows p _ (decided db one) =
      Grows-LetsActions (Approves write one) p.0.actions (write_back p.0.actions db.remediations) (
        write_back-LetsActions (Approves write one) p.0.actions db.remediations
          (Step-Lets write (database p) db one)
          (approved-Follows write (database p) db p.1.1 one).moved)
  Step-Grows p _ (worked w one) = Grows-LetsActions _ p.0.actions w.actions (
      Advances-LetsActions _ p.0.actions w.actions
        (worked-Follows write publish handlers one).advances)
  Step-Grows p _ (elsewhere q same) =
      Grows-LetsActions _ p.0.actions q.0.actions
        (subst (LetsActions _ p.0.actions) (sym same) (LetsActions-refl _ p.0.actions))

  Life-IsCovered :
      (p q : World L Q × Requests)
      → p.0.actions ≡ []
      → (life : Life p q) → All (IsCovered (WasApproved life)) q.0.actions
  Life-IsCovered p _ empty begin = rw empty tt
  Life-IsCovered p _ empty (then_step {q = q} {r = r} life one) =
      Grows-IsCovered (Approving one) (WasApproved life) q.0.actions r.0.actions
        (Step-Grows q r one) (Life-IsCovered p q empty life)

  authorised :
      (P : String → Type 0) (rows : List Action)
      → All (IsCovered P) rows
      → All (λ b. HandedOut b.status → IsAuthorised P b) rows
  authorised P [] all = tt
  authorised P (b ∷ rest) all = (IsCovered-IsAuthorised P b all.0, authorised P rest all.1)

  -- From an empty table of remediations on, whatever the approval service, `Propose`, Execute, Cancel,
  -- the dispatcher and the workers do, in whatever order: every remediation that is queued, running,
  -- succeeded or failed is valid for the catalog, and it only collects diagnostics or one of these
  -- operations was a decision to approve it, on its pending request in time, by somebody who is named,
  -- gave a reason and, unless the service allows it, did not propose it.
  pub Life-IsAuthorised :
      (p q : World L Q × Requests)
      → p.0.actions ≡ []
      → (life : Life p q)
      → All (λ b. HandedOut b.status → IsAuthorised (WasApproved life) b) q.0.actions
  Life-IsAuthorised p q empty life =
      authorised (WasApproved life) q.0.actions (Life-IsCovered p q empty life)
