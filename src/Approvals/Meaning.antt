-- ===== src/Approvals/Meaning.antt =====
-- What a decision of internal/approvals/store.go means for the rows of the two tables.
use argus.Base.{
  String, ◌≡◌, ◌≢◌, ◌⊎◌, refl, ap, ◌∙◌, true, false, Option, none, some, arith, str_eq-eq,
  eq-str_eq, str_eq, List, [], ◌∷◌, if◌then◌else◌, trim_space, Bool-cases, inl, inr,
}
use argus.Approvals.{RequestStatus, Request, Remediation, is_awaiting, update_where, find_request}
use argus.Approvals.Store.{
  has_id, is_awaiting_id, set_verdict, verdict, approver, decision_approve, decision_deny,
}
use argus.Approvals.Rows.{KeepsId, is_awaiting-eq, find_request-update_where}
use argus.Remediation.States.{State, awaiting_approval}

-- Every remediation with the identifier that awaited approval has the status and the approver now, and
-- every other row is as it was.
abbrev pub Settles : String → State → Option String → List Remediation → List Remediation → Type 0
Settles id status approved_by [] [] = Unit
Settles id status approved_by (a ∷ as') (b ∷ bs) =
    (((a.id ≡ id)
        × (a.status ≡ awaiting_approval)
        × (b ≡ record a { status = status; approved_by = approved_by }))
      ⊎ (((a.id ≡ id) × (a.status ≡ awaiting_approval) → ⊥) × (b ≡ a)))
    × Settles id status approved_by as' bs
Settles id status approved_by _ _ = ⊥

-- What a decision means: approve approves the request and the remediation, by the actor; deny denies
-- the request and rejects the remediation.
abbrev pub Means : String → String → RequestStatus → State → Option String → Type 0
Means decision actor request_status status approved_by =
    ((decision ≡ "approve")
      × (request_status ≡ RequestStatus.approved)
      × (status ≡ State.approved)
      × (approved_by ≡ some actor))
    ⊎ ((decision ≡ "deny")
        × (request_status ≡ RequestStatus.denied)
        × (status ≡ State.rejected)
        × (approved_by ≡ none))

pub Settles-update_where :
    (id : String) (status : State) (approved_by : Option String) (rows : List Remediation)
    → Settles id status approved_by rows
        (update_where (is_awaiting_id id) (set_verdict status approved_by) rows)
unfolding update_where
Settles-update_where id status approved_by [] = tt
Settles-update_where id status approved_by (a ∷ rest) =
    let others = Settles-update_where id status approved_by rest in
    elim (Bool-cases (is_awaiting_id id a)) [
      | inl yes' ↦
          let same : str_eq a.id id ≡ true = ground arith in
          let waits : is_awaiting a.status ≡ true = ground arith in
          rw yes' (inl (str_eq-eq a.id id same, is_awaiting-eq a.status waits, refl), others)
      | inr no' ↦ rw no' (inr (λ h. not_awaiting_id id a h no', refl), others)
    ]
  where
    not_awaiting_id :
        (id : String) (a : Remediation)
        → (a.id ≡ id) × (a.status ≡ awaiting_approval)
        → is_awaiting_id id a ≡ false
        → ⊥
    not_awaiting_id id a (same, waits) no' =
        let e = eq-str_eq a.id id same in
        let w : is_awaiting a.status ≡ true = ap is_awaiting waits in ground arith

pub find_request-decided :
    (r : Request) (f : Request → Request) (rows : List Request)
    → KeepsId f
    → find_request r.id rows ≡ some r
    → find_request r.id (update_where (has_id r.id) f rows) ≡ some (f r)
find_request-decided r f rows keeps found =
    let own : has_id r.id r ≡ true = eq-str_eq r.id r.id refl in
    find_request-update_where (has_id r.id) f keeps r.id rows r found
    ∙ ap (λ b. some (if b then f r else r)) own

pub find_request-others :
    (id k : String) (f : Request → Request) (rows : List Request)
    → KeepsId f
    → str_eq id k ≡ false
    → find_request k (update_where (has_id id) f rows) ≡ find_request k rows
unfolding find_request update_where
find_request-others id k f [] keeps apart = refl
find_request-others id k f (x ∷ rest) keeps apart =
    let others = find_request-others id k f rest keeps apart in
    elim (Bool-cases (str_eq x.id id)) [
      | inr other ↦ ground (arith, others)
      | inl same ↦
          let aside : str_eq x.id k ≡ false =
            ap (λ i. str_eq i k) (str_eq-eq x.id id same) ∙ apart in
          ground (arith, others, keeps x)
    ]

trim_nothing : trim_space "" ≡ ""
unfolding trim_space
trim_nothing = refl

no_actor : (actor : String) → trim_space actor ≢ "" → str_eq actor "" ≡ false
no_actor actor named = elim (Bool-cases (str_eq actor "")) [
  | inl empty ↦ absurd (named (ap trim_space (str_eq-eq actor "" empty) ∙ trim_nothing))
  | inr full ↦ full
]

pub Means-verdict :
    (decision actor : String)
    → (decision ≡ decision_approve) ⊎ (decision ≡ decision_deny)
    → trim_space actor ≢ ""
    → Means decision actor (verdict decision).0 (verdict decision).1 (approver decision actor)
unfolding verdict str_eq
Means-verdict decision actor (inl e) named =
    let full = no_actor actor named in rw (e, full) (inl (refl, refl, refl, refl))
Means-verdict decision actor (inr e) named = rw e (inr (refl, refl, refl, refl))
