-- ===== src/Jobs/Proposing.antt =====
-- What `Propose` of internal/remediation/service.go adds to the table of remediations.
use argus.Base.{
  ℕ, String, ◌≡◌, refl, sym, ap, ◌∙◌, Bool, Option, none, some, List, [], ◌∷◌, ◌++◌, arith, All,
  All-append, Dict, Bool-cases, Option-cases, inl, inr, ◌⊎◌,
}
use mathlib.Core.Path.{subst}
use argus.Base.Result.{ok, or_err, Result-cases, bind-ok}
use argus.Actions.{Value, validate, collect_diagnostics}
use argus.Approvals.{Event}
use argus.Remediation.States.{policy_blocked, awaiting_approval, approved}
use argus.Policy.{Engine, Input, IncidentInput, evaluate}
use argus.Policy.Safety.{evaluate-allow_iff, unattended_is_diagnostics}
use argus.Rca.{Candidate}
use argus.Jobs.{Action, World, audit_failed}
use argus.Jobs.Outbox.{write_entry}
use argus.Jobs.Execution.{is_awaiting}
use argus.Jobs.Proposals.{
  Workflow, count_recent, count_failed, input_of, proposed_status, new_action, assess,
  create_remediation, create_tx, proposed_event, ask, ask_again, reuse, propose_new, propose_one,
  propose_all, advance_incident, propose, find_active, proposal_reused_event,
}
use argus.Jobs.Settled.{record_entry-actions}
use argus.Jobs.Twins.{OneActive, OneActive-append, find_active-none}

-- A row that is blocked, or that the catalog accepts and that waits for a human unless it collects
-- diagnostics.
abbrev pub IsProposal : Action → Type 0
IsProposal a =
    (a.status ≡ policy_blocked)
    ⊎ ((validate a.action_type a.target a.parameters ≡ none)
        × ((a.status ≡ awaiting_approval)
            ⊎ ((a.status ≡ approved) × (a.action_type ≡ collect_diagnostics))))

pub ++-assoc : (xs ys zs : List Action) → (xs ++ ys) ++ zs ≡ xs ++ (ys ++ zs)
++-assoc [] ys zs = refl
++-assoc (x ∷ xs) ys zs = ap (λ l. x ∷ l) (++-assoc xs ys zs)

pub ++-nil : (xs : List Action) → xs ≡ xs ++ []
++-nil [] = refl
++-nil (x ∷ xs) = ap (λ l. x ∷ l) (++-nil xs)

-- The approval workflow leaves the table of remediations alone.
abbrev pub KeepsActions : {L Q S : Type 0} → Option (Workflow L Q S) → Type 0
KeepsActions none = Unit
KeepsActions {L} {Q} {S} (some request) =
    (i : IncidentInput) (a : Action) (p : World L Q × S) → (request i a p).0.0.actions ≡ p.0.actions

module _ (same : Dict Value → Dict Value → Bool) where
  -- Rows with proposals at their end.
  pub record Proposes (rows rows' : List Action) : Type 0 where
    pub added : List Action
    pub shape : rows' ≡ rows ++ added
    pub proposals : All IsProposal added
    pub single : OneActive same rows → OneActive same rows'

  Proposes-same : (rows rows' : List Action) → rows' ≡ rows → Proposes rows rows'
  Proposes-same rows rows' e = record {
    added = [];
    shape = e ∙ ++-nil rows;
    proposals = tt;
    single = λ one. subst (OneActive same) (sym e) one;
  }

  Proposes-trans :
      (rows rows' rows'' : List Action)
      → Proposes rows rows'
      → Proposes rows' rows''
      → Proposes rows rows''
  Proposes-trans rows rows' rows'' p q = record {
    added = p.added ++ q.added;
    shape = q.shape ∙ ap (λ l. l ++ q.added) p.shape ∙ ++-assoc rows p.added q.added;
    proposals = All-append IsProposal p.added q.added p.proposals q.proposals;
    single = λ one. q.single (p.single one);
  }

  proposed_status-IsProposal :
      (engine : Engine) (input : Input)
      → let s = proposed_status (evaluate engine input) in
        let r = input.remediation in
        (s ≡ policy_blocked)
        ⊎ ((validate r.action r.target r.parameters ≡ none)
            × ((s ≡ awaiting_approval) ⊎ ((s ≡ approved) × (r.action ≡ collect_diagnostics))))
  unfolding proposed_status
  proposed_status-IsProposal engine input = elim (Bool-cases (evaluate engine input).allow) [
    | inr no' ↦ inl (rw no' refl)
    | inl yes' ↦
        let permit = (evaluate-allow_iff engine input).0 yes' in
        elim (Bool-cases (evaluate engine input).requires_approval) [
          | inl asks ↦ inr (permit.valid_action, inl (rw (yes', asks) refl))
          | inr free ↦ inr (
            permit.valid_action,
            inr (rw (yes', free) refl, unattended_is_diagnostics engine input yes' free),
          )
        ]
  ]

  create_remediation-ok :
      (a : Action) (rows rows' : List Action)
      → create_remediation a rows ≡ ok rows'
      → rows' ≡ rows ++ a ∷ []
  unfolding create_remediation
  create_remediation-ok a rows rows' h = ground arith

  module _ (digest : Dict Value → String) (engine : Engine) (actor role : String)
      (incident : IncidentInput) (now : ℕ) where
    assess-Proposes :
        (id : String) (c : Candidate) (rows rows' : List Action)
        → find_active same incident.id c rows ≡ none
        → create_remediation (assess digest same engine actor role incident now id c rows).0 rows
          ≡ ok rows'
        → Proposes rows rows'
    unfolding assess new_action
    assess-Proposes id c rows rows' absent h =
        let a = (assess digest same engine actor role incident now id c rows).0 in
        let shape = create_remediation-ok a rows rows' h in
        record {
          added = a ∷ [];
          shape = shape;
          proposals = (
            proposed_status-IsProposal engine (
                input_of actor role incident c (count_recent same incident.id c now rows)
                  (count_failed same incident.id c rows)),
            tt,
          );
          single = λ one. subst (OneActive same) (sym shape) (
              OneActive-append same rows a
                (find_active-none same incident.id c a rows refl refl refl refl absent) one);
        }

    create_tx-Proposes :
        {L Q : Type 0} (write : Event → L → Option L) (id : String) (c : Candidate)
        (w w' : World L Q)
        → find_active same incident.id c w.actions ≡ none
        → let r = assess digest same engine actor role incident now id c w.actions in
          create_tx write actor r.0 r.1 w ≡ ok w' → Proposes w.actions w'.actions
    unfolding create_tx
    create_tx-Proposes write id c w w' absent h =
        let r = assess digest same engine actor role incident now id c w.actions in
        let (rows, made, h') = bind-ok (create_remediation r.0 w.actions) _ h in
        let (ledger, wrote, e) =
          bind-ok (or_err audit_failed (write (proposed_event actor r.0 r.1) w.ledger)) _
            (unfold write_entry in h') in
        subst (Proposes w.actions) (ground arith) (assess-Proposes id c w.actions rows absent made)

  module _ {L Q S : Type 0} where
    ask-actions :
        (approvals : Option (Workflow L Q S)) (incident : IncidentInput) (a : Action)
        (p : World L Q × S)
        → KeepsActions approvals
        → (ask approvals incident a p).0.0.actions ≡ p.0.actions
    unfolding ask
    ask-actions none incident a p keeps = refl
    ask-actions (some request) incident a p keeps = elim (Bool-cases (request incident a p).1) [
      | inl yes' ↦ rw yes' (keeps incident a p)
      | inr no' ↦ rw no' (keeps incident a p)
    ]

    ask_again-actions :
        (approvals : Option (Workflow L Q S)) (incident : IncidentInput) (a : Action)
        (p : World L Q × S)
        → KeepsActions approvals
        → (ask_again approvals incident a p).0.0.actions ≡ p.0.actions
    unfolding ask_again
    ask_again-actions none incident a p keeps = refl
    ask_again-actions (some request) incident a p keeps = elim (Bool-cases (is_awaiting a.status)) [
      | inl yes' ↦ rw yes' (ask-actions (some request) incident a p keeps)
      | inr no' ↦ rw no' refl
    ]

    module _ (write : Event → L → Option L) (digest : Dict Value → String) (engine : Engine)
        (approvals : Option (Workflow L Q S)) (actor role : String) (incident : IncidentInput)
        (now : ℕ) where
      reuse-actions :
          (a : Action) (p : World L Q × S)
          → KeepsActions approvals
          → (reuse write digest same engine approvals actor role incident now a p).0.0.actions
            ≡ p.0.actions
      unfolding reuse
      reuse-actions a p keeps = elim (Result-cases (ask_again approvals incident a p).1) [
        | inr (e, failed') ↦ rw (failed', reuse) (ask_again-actions approvals incident a p keeps)
        | inl (b, asked) ↦
            rw (asked, reuse)
              (record_entry-actions write (proposal_reused_event actor a)
                  (ask_again approvals incident a p).0.0
                ∙ ask_again-actions approvals incident a p keeps)
      ]

      propose_new-Proposes :
          (id : String) (c : Candidate) (p : World L Q × S)
          → KeepsActions approvals
          → find_active same incident.id c p.0.actions ≡ none
          → let r = propose_new write digest same engine approvals actor role incident now id c p in
            Proposes p.0.actions r.0.0.actions
      unfolding propose_new
      propose_new-Proposes id c (w, s) keeps absent =
          let r = assess digest same engine actor role incident now id c w.actions in
          elim (Result-cases (create_tx write actor r.0 r.1 w)) [
            | inr (e, failed') ↦ rw (failed', propose_new) (Proposes-same w.actions w.actions refl)
            | inl (w', made) ↦
                let there =
                  create_tx-Proposes digest engine actor role incident now write id c w w' absent
                    made in
                elim (Bool-cases (is_awaiting r.0.status)) [
                  | inr no' ↦ rw (made, no', propose_new) there
                  | inl yes' ↦
                      rw (made, yes', propose_new)
                        (Proposes-trans w.actions w'.actions
                          (ask approvals incident r.0 (w', s)).0.0.actions there
                          (Proposes-same w'.actions (ask approvals incident r.0 (w', s)).0.0.actions
                            (ask-actions approvals incident r.0 (w', s) keeps)))
                ]
          ]

      propose_one-Proposes :
          (id : String) (c : Candidate) (p : World L Q × S)
          → KeepsActions approvals
          → let r = propose_one write digest same engine approvals actor role incident now id c p in
            Proposes p.0.actions r.0.0.actions
      unfolding propose_one
      propose_one-Proposes id c p keeps =
          elim (Option-cases (find_active same incident.id c p.0.actions)) [
            | inl absent ↦ rw (absent, propose_one) (propose_new-Proposes id c p keeps absent)
            | inr (a, found) ↦
                rw (found, propose_one)
                  (Proposes-same p.0.actions
                    (reuse write digest same engine approvals actor role incident now a
                      p).0.0.actions
                    (reuse-actions a p keeps))
          ]

      propose_all-Proposes :
          (candidates : List (String × Candidate)) (p : World L Q × S)
          → KeepsActions approvals
          → let r =
              propose_all write digest same engine approvals actor role incident now candidates p in
            Proposes p.0.actions r.0.0.actions
      unfolding propose_all
      propose_all-Proposes [] p keeps = Proposes-same p.0.actions p.0.actions refl
      propose_all-Proposes ((id, c) ∷ rest) p keeps =
          let one = propose_one write digest same engine approvals actor role incident now id c p in
          let others =
            propose_all write digest same engine approvals actor role incident now rest one.0 in
          let first = propose_one-Proposes id c p keeps in
          elim (Result-cases one.1) [
            | inr (e, failed') ↦ rw (failed', propose_all) first
            | inl (a, made) ↦
                let both =
                  Proposes-trans p.0.actions one.0.0.actions others.0.0.actions first
                    (propose_all-Proposes rest one.0 keeps) in
                elim (Result-cases others.1) [
                  | inr (e, failed') ↦ rw (made, failed', propose_all) both
                  | inl (actions, made') ↦ rw (made, made', propose_all) both
                ]
          ]

      advance_incident-actions :
          (actions : List Action) (w : World L Q)
          → (advance_incident incident.id now actions w).actions ≡ w.actions
      unfolding advance_incident
      advance_incident-actions [] w = refl
      advance_incident-actions (a ∷ rest) w = refl

      -- Whatever the candidates, and whether or not it ends in an error: `Propose` keeps the rows that
      -- are there and puts proposals behind them, each blocked, or valid for the catalog and waiting for
      -- approval, or collecting diagnostics; and if no two active rows of one incident did the same
      -- before, none do afterwards. The approval workflow leaves the table of remediations alone.
      pub propose-Proposes :
          (candidates : List (String × Candidate)) (p : World L Q × S)
          → KeepsActions approvals
          → let r =
              propose write digest same engine approvals actor role incident now candidates p in
            Proposes p.0.actions r.0.0.actions
      unfolding propose
      propose-Proposes candidates p keeps =
          let r =
            propose_all write digest same engine approvals actor role incident now candidates p in
          let all = propose_all-Proposes candidates p keeps in
          elim (Result-cases r.1) [
            | inr (e, failed') ↦ rw (failed', propose) all
            | inl (actions, made) ↦
                rw (made, propose)
                  (subst (Proposes p.0.actions) (sym (advance_incident-actions actions r.0.0)) all)
          ]
