-- ===== src/Approvals/Approved.antt =====
-- Which remediations an operation of internal/approvals approves.
use argus.Base.{String, ◌≡◌, refl, ◌∙◌, Bool, ◌⊎◌, List, [], ◌∷◌, Bool-cases, inl, inr}
use argus.Remediation.States.{State}
use argus.Remediation.States.Lifecycle.{IsLive}
use argus.Approvals.{Remediation, update_where}
use argus.Approvals.Store.{set_state}

-- Every remediation keeps its place and its identifier, and none is approved or beyond that was not,
-- unless `P` holds of its identifier.
abbrev pub Lets : (String → Type 0) → List Remediation → List Remediation → Type 0
Lets P [] [] = Unit
Lets P (a ∷ as') (b ∷ bs) =
    (a.id ≡ b.id) × (IsLive b.status → IsLive a.status ⊎ P b.id) × Lets P as' bs
Lets P _ _ = ⊥

abbrev Nobody : String → Type 0
Nobody id = ⊥

abbrev pub Quiet : List Remediation → List Remediation → Type 0
Quiet = Lets Nobody

pub Quiet-refl : (rows : List Remediation) → Quiet rows rows
Quiet-refl [] = tt
Quiet-refl (a ∷ rest) = (refl, λ l. inl l, Quiet-refl rest)

pub Quiet-same : (rows rows' : List Remediation) → rows' ≡ rows → Quiet rows rows'
Quiet-same rows rows' e = rw e (Quiet-refl rows)

pub Quiet-trans : (xs ys zs : List Remediation) → Quiet xs ys → Quiet ys zs → Quiet xs zs
Quiet-trans [] [] [] m n = tt
Quiet-trans (x ∷ xs) (y ∷ ys) (z ∷ zs) m n = (
  m.0 ∙ n.0,
  λ l. elim (n.1 l) [ inl l' ↦ m.1 l' | inr no' ↦ inr no' ],
  Quiet-trans xs ys zs m.2 n.2,
)
Quiet-trans [] [] (z ∷ zs) m n = elim n [ ]
Quiet-trans [] (y ∷ ys) zs m n = elim m [ ]
Quiet-trans (x ∷ xs) [] zs m n = elim m [ ]
Quiet-trans (x ∷ xs) (y ∷ ys) [] m n = elim n [ ]

pub Quiet-Lets : (P : String → Type 0) (xs ys : List Remediation) → Quiet xs ys → Lets P xs ys
Quiet-Lets P [] [] m = tt
Quiet-Lets P (x ∷ xs) (y ∷ ys) m =
    (m.0, λ l. elim (m.1 l) [ inl l' ↦ inl l' | inr no' ↦ absurd no' ], Quiet-Lets P xs ys m.2)
Quiet-Lets P [] (y ∷ ys) m = elim m [ ]
Quiet-Lets P (x ∷ xs) [] m = elim m [ ]

-- An update to a state that needs no approval.
pub Quiet-update_where :
    (p : Remediation → Bool) (to : State) (rows : List Remediation)
    → (IsLive to → ⊥)
    → Quiet rows (update_where p (set_state to) rows)
unfolding update_where
Quiet-update_where p to [] ends = tt
Quiet-update_where p to (a ∷ rest) ends =
    let others = Quiet-update_where p to rest ends in
    elim (Bool-cases (p a)) [
      | inl yes' ↦ rw yes' (refl, λ l. absurd (ends l), others)
      | inr no' ↦ rw no' (refl, λ l. inl l, others)
    ]
