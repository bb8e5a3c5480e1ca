-- ===== src/Incidents/Lifecycle.antt =====
-- What the life cycle of internal/incidents/service.go allows, and that `TransitionIncident` follows
-- it.
use argus.Base.{
  ℕ, String, ◌≡◌, refl, ◌∙◌, Bool, true, false, ◌||◌, some, List, [], ◌∷◌, arith, ◌&&◌,
  if◌then◌else◌, str_eq, elem, elem-sort_strings,
}
use argus.Incidents.{
  Status, Incident, detected, triaged, investigating, rca_generated, remediation_proposed,
  awaiting_approval, remediating, mitigated, resolved, failed, cancelled, other, can_transition,
  is_closed, name, sources, allowed_among, allowed_from, find_incident, transition_incident,
}

-- A status that is one of the eleven constants.
abbrev pub IsKnown : Status → Type 0
IsKnown (other s) = ⊥
IsKnown _ = Unit

-- Whether a name is among those of the listed statuses that the table lets go to the target.
abbrev listed : String → List Status → Status → Bool
listed k [] to = false
listed k (s ∷ l) to = (str_eq (name s) k && can_transition s to) || listed k l to

elem-if :
    (k n : String) (b x : Bool) (rest : List String)
    → elem k rest ≡ x
    → elem k (if b then n ∷ rest else rest) ≡ (str_eq n k && b) || x
unfolding elem
elem-if k n true x rest h = ground arith
elem-if k n false x rest h = ground arith

elem-allowed_among :
    (k : String) (l : List Status) (to : Status) → elem k (allowed_among l to) ≡ listed k l to
unfolding allowed_among
elem-allowed_among k [] to = unfold elem in refl
elem-allowed_among k (s ∷ l) to =
    elem-if k (name s) (can_transition s to) (listed k l to) (allowed_among l to)
      (elem-allowed_among k l to)

or_false : (b : Bool) → (b || false) ≡ b
or_false true = refl
or_false false = refl

listed-sources : (s to : Status) → IsKnown s → listed (name s) sources to ≡ can_transition s to
unfolding str_eq can_transition
listed-sources detected to k = or_false (can_transition detected to)
listed-sources triaged to k = or_false (can_transition triaged to)
listed-sources investigating to k = or_false (can_transition investigating to)
listed-sources rca_generated to k = or_false (can_transition rca_generated to)
listed-sources remediation_proposed to k = or_false (can_transition remediation_proposed to)
listed-sources awaiting_approval to k = or_false (can_transition awaiting_approval to)
listed-sources remediating to k = or_false (can_transition remediating to)
listed-sources mitigated to k = or_false (can_transition mitigated to)
listed-sources failed to k = or_false (can_transition failed to)
listed-sources resolved to k = refl
listed-sources cancelled to k = refl
listed-sources (other s) to k = elim k [ ]

-- `AllowedFrom` lists exactly the statuses that the table lets go to the target.
elem-allowed_from :
    (s to : Status) → IsKnown s → elem (name s) (allowed_from to) ≡ can_transition s to
unfolding allowed_from
elem-allowed_from s to k =
    elem-sort_strings (name s) (allowed_among sources to)
    ∙ elem-allowed_among (name s) sources to
    ∙ listed-sources s to k

closed-stays : (s to : Status) → is_closed s ≡ true → can_transition s to ≡ false
unfolding is_closed can_transition
closed-stays resolved to h = refl
closed-stays cancelled to h = refl
closed-stays _ to h = cc

closed-IsKnown : (s : Status) → is_closed s ≡ true → IsKnown s
unfolding is_closed
closed-IsKnown (other s) h = cc
closed-IsKnown _ h = tt

-- A closed incident stays closed as it is, whatever transition is asked for.
pub closed_absorbs :
    (id : String) (status : Status) (now : ℕ) (rows : List Incident) (i : Incident)
    → find_incident id rows ≡ some i
    → is_closed i.status ≡ true
    → transition_incident id status now rows ≡ (rows, some (i.status, false))
unfolding transition_incident
closed_absorbs id status now rows i found closed =
    let stays : can_transition i.status status ≡ false = closed-stays i.status status closed in
    let missing = elem-allowed_from i.status status (closed-IsKnown i.status closed) ∙ stays in
    rw (found, missing, transition_incident) refl
