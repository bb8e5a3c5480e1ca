-- ===== src/Jobs/Moves.antt =====
-- The statements on `remediation_actions` against the transition table of
-- internal/remediation/states.go.
use argus.Base.{
  ℕ, String, ◌≡◌, ◌≢◌, refl, sym, ap, ◌∙◌, Bool, true, Option, none, some, List, [], ◌∷◌, arith,
  Dict, str_eq, Bool-cases, inl, inr, if◌then◌else◌,
}
use argus.Actions.{Value}
use argus.Approvals.{Remediation, update_where}
use argus.Remediation.States.{
  State, approved, queued, running, cancelled, state_eq, require_transition,
}
use argus.Remediation.States.Lifecycle.{state_eq-eq}
use argus.Jobs.{Action}
use argus.Jobs.Store.{
  row_where, is_open, is_approved, update_one, set_cancelled, set_queued, set_claimed, set_running,
  set_completed, cancel_remediation, mark_queued, claim_remediation, mark_running,
  complete_remediation,
}

-- What the approval store reads of a row.
abbrev pub view : Action → Remediation
view a = record {
  id = a.id;
  status = a.status;
  approved_by = if str_eq a.approved_by "" then none else some a.approved_by;
}

-- What a remediation does and who proposed it.
abbrev pub content : Action → String × String × String × Dict Value × String × String
content a = (a.incident_id, a.action_type, a.target, a.parameters, a.idempotency_key, a.proposed_by)

-- The states that a remediation goes through without a decision: each step is one that
-- `RequireTransition` returned nil for, and none leads to approved.
pub data Work (s : State) : State → Type 0 where
  unmoved : Work s s
  move : {t u : State} → Work s t → require_transition t u ≡ none → u ≢ approved → Work s u

Work-append : {s t u : State} → Work s t → Work t u → Work s u
Work-append h unmoved = h
Work-append h (move k e n) = move (Work-append h k) e n

-- Every row keeps its place, its identifier and its content, and its status moves along allowed
-- transitions, none of which approves it.
abbrev pub Advances : List Action → List Action → Type 0
Advances [] [] = Unit
Advances (a ∷ as') (b ∷ bs) =
    (a.id ≡ b.id) × (content a ≡ content b) × Work a.status b.status × Advances as' bs
Advances _ _ = ⊥

pub Advances-refl : (rows : List Action) → Advances rows rows
Advances-refl [] = tt
Advances-refl (a ∷ rest) = (refl, refl, unmoved, Advances-refl rest)

pub Advances-trans : (xs ys zs : List Action) → Advances xs ys → Advances ys zs → Advances xs zs
Advances-trans [] [] [] m n = tt
Advances-trans (x ∷ xs) (y ∷ ys) (z ∷ zs) m n =
    (m.0 ∙ n.0, m.1 ∙ n.1, Work-append m.2 n.2, Advances-trans xs ys zs m.3 n.3)
Advances-trans [] [] (z ∷ zs) m n = elim n [ ]
Advances-trans [] (y ∷ ys) zs m n = elim m [ ]
Advances-trans (x ∷ xs) [] zs m n = elim m [ ]
Advances-trans (x ∷ xs) (y ∷ ys) [] m n = elim n [ ]

-- An update allowed by the table wherever its test holds, which approves nothing.
abbrev pub Allows : (Action → Bool) → (Action → Action) → Type 0
Allows p f =
    (a : Action)
    → p a ≡ true
    → ((f a).id ≡ a.id)
      × (content (f a) ≡ content a)
      × (require_transition a.status (f a).status ≡ none)
      × ((f a).status ≢ approved)

pub update_where-Advances :
    (p : Action → Bool) (f : Action → Action) (rows : List Action)
    → Allows p f
    → Advances rows (update_where p f rows)
unfolding update_where
update_where-Advances p f [] allows = tt
update_where-Advances p f (a ∷ rest) allows = elim (Bool-cases (p a)) [
  | inl yes' ↦
      let (same, kept, moves, unapproved) = allows a yes' in
      rw yes'
        (sym same, sym kept, move unmoved moves unapproved, update_where-Advances p f rest allows)
  | inr no' ↦ rw no' (refl, refl, unmoved, update_where-Advances p f rest allows)
]

row_where-status :
    (id : String) (p : State → Bool) (a : Action) → row_where id p a ≡ true → p a.status ≡ true
unfolding row_where
row_where-status id p a h = ground arith

open-moves :
    (s t : State)
    → is_open s ≡ true
    → require_transition running t ≡ none
    → require_transition queued t ≡ none
    → require_transition s t ≡ none
open-moves queued t h r q = q
open-moves running t h r q = r
open-moves _ t h r q = ground arith

running-moves : (s : State) → is_open s ≡ true → require_transition s running ≡ none
unfolding require_transition
running-moves s h = ground arith

queued-moves : (s : State) → is_approved s ≡ true → require_transition s queued ≡ none
unfolding require_transition
queued-moves s h = ground arith

pub mark_queued-Advances :
    (id : String) (dry_run : Bool) (now : ℕ) (rows rows' : List Action)
    → mark_queued id dry_run now rows ≡ some rows'
    → Advances rows rows'
unfolding mark_queued
mark_queued-Advances id dry_run now rows rows' h =
    let shape : update_where (row_where id is_approved) (set_queued dry_run now) rows ≡ rows' =
      ground arith in
    rw (← shape) (
      update_where-Advances (row_where id is_approved) (set_queued dry_run now) rows
        (λ a e. (refl, refl, queued-moves a.status (row_where-status id is_approved a e), λ u. cc)))

pub claim-Advances :
    (id : String) (now : ℕ) (rows : List Action) → Advances rows (claim_remediation id now rows).0
unfolding claim_remediation update_one
claim-Advances id now rows =
    update_where-Advances (row_where id is_open) (set_claimed now) rows
      (λ a e. (refl, refl, running-moves a.status (row_where-status id is_open a e), λ u. cc))

pub mark_running-Advances :
    (id : String) (result : Option (Dict Value)) (now : ℕ) (rows : List Action)
    → Advances rows (mark_running id result now rows).0
unfolding mark_running update_one
mark_running-Advances id result now rows =
    update_where-Advances (row_where id is_open) (set_running result now) rows
      (λ a e. (refl, refl, running-moves a.status (row_where-status id is_open a e), λ u. cc))

-- The terminal states in which a job may end.
abbrev pub IsEnd : State → Type 0
IsEnd status =
    (require_transition running status ≡ none) × (require_transition queued status ≡ none)

end-unapproved : (s : State) → require_transition queued s ≡ none → s ≢ approved
unfolding require_transition
end-unapproved s h e = ground arith

pub complete-Advances :
    (id : String) (status : State) (result : Option (Dict Value)) (error : String) (now : ℕ)
    (rows : List Action)
    → IsEnd status
    → Advances rows (complete_remediation id status result error now rows).0
unfolding complete_remediation update_one
complete-Advances id status result error now rows ends =
    update_where-Advances (row_where id is_open) (set_completed status result error now) rows
      (λ a e. (
        refl,
        refl,
        open-moves a.status status (row_where-status id is_open a e) ends.0 ends.1,
        end-unapproved status ends.1,
      ))

pub cancel-Advances :
    (id : String) (expected : State) (now : ℕ) (rows : List Action)
    → require_transition expected cancelled ≡ none
    → Advances rows (cancel_remediation id expected now rows).0
unfolding cancel_remediation update_one
cancel-Advances id expected now rows moves =
    update_where-Advances (row_where id (λ s. state_eq s expected)) (set_cancelled now) rows (λ a e.
      (
        refl,
        refl,
        ap (λ s. require_transition s cancelled)
              (state_eq-eq a.status expected (row_where-status id (λ s. state_eq s expected) a e))
            ∙ moves,
        λ u. cc,
      ))
