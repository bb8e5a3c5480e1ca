-- ===== src/Incidents.antt =====
-- The life cycle of an incident: the transition table of internal/incidents/service.go and
-- `TransitionIncident` of internal/incidents/store.go.
pub mod Lifecycle
use argus.Base.{
  ℕ, String, Bool, true, false, ◌||◌, Option, none, some, List, [], ◌∷◌, str_eq, elem, sort_strings,
  if◌then◌else◌,
}

-- The status strings; a text that is none of the eleven constants is `other`.
pub data Status : Type 0 where
  detected triaged investigating rca_generated remediation_proposed awaiting_approval : Status
  remediating mitigated resolved failed cancelled : Status
  other : String → Status

-- The nested map `transitions`; a key that is missing at either level reads as false.
unfoldable pub can_transition : Status → Status → Bool
can_transition detected triaged = true
can_transition detected investigating = true
can_transition detected rca_generated = true
can_transition detected resolved = true
can_transition detected cancelled = true
can_transition triaged investigating = true
can_transition triaged rca_generated = true
can_transition triaged resolved = true
can_transition triaged cancelled = true
can_transition investigating rca_generated = true
can_transition investigating resolved = true
can_transition investigating failed = true
can_transition rca_generated remediation_proposed = true
can_transition rca_generated awaiting_approval = true
can_transition rca_generated resolved = true
can_transition remediation_proposed awaiting_approval = true
can_transition remediation_proposed remediating = true
can_transition remediation_proposed resolved = true
can_transition awaiting_approval remediating = true
can_transition awaiting_approval resolved = true
can_transition awaiting_approval cancelled = true
can_transition remediating mitigated = true
can_transition remediating resolved = true
can_transition remediating failed = true
can_transition mitigated resolved = true
can_transition failed investigating = true
can_transition failed resolved = true
can_transition _ _ = false

-- `IsClosed`
unfoldable pub is_closed : Status → Bool
is_closed resolved = true
is_closed cancelled = true
is_closed _ = false

abbrev pub name : Status → String
name detected = "detected"
name triaged = "triaged"
name investigating = "investigating"
name rca_generated = "rca_generated"
name remediation_proposed = "remediation_proposed"
name awaiting_approval = "awaiting_approval"
name remediating = "remediating"
name mitigated = "mitigated"
name resolved = "resolved"
name failed = "failed"
name cancelled = "cancelled"
name (other s) = s

-- The keys of `transitions`.
abbrev pub sources : List Status
sources =
    detected ∷ triaged ∷ investigating ∷ rca_generated ∷ remediation_proposed ∷ awaiting_approval
    ∷ remediating ∷ mitigated ∷ failed ∷ []

unfoldable pub allowed_among : List Status → Status → List String
unfolding can_transition
allowed_among [] to = []
allowed_among (s ∷ rest) to =
    if can_transition s to then name s ∷ allowed_among rest to else allowed_among rest to

-- `AllowedFrom`
unfoldable pub allowed_from : Status → List String
unfolding allowed_among sort_strings
allowed_from to = sort_strings (allowed_among sources to)

-- The columns of `incidents` that a transition reads and writes.
pub record Incident : Type 0 where
  pub id : String
  pub status : Status
  pub updated_at : ℕ
  pub resolved_at : Option ℕ

unfoldable pub find_incident : String → List Incident → Option Incident
find_incident id [] = none
find_incident id (i ∷ rest) = if str_eq i.id id then some i else find_incident id rest

abbrev is_resolved : Status → Bool
is_resolved resolved = true
is_resolved _ = false

abbrev pub set_status : Status → ℕ → Incident → Incident
set_status status now i = record i {
  status = status;
  updated_at = now;
  resolved_at = if is_resolved status then some now else i.resolved_at;
}

-- `WHERE incidents.id = $1 AND current.status = ANY($3)`
unfoldable pub update_status : String → Status → ℕ → List Incident → List Incident
update_status id status now [] = []
update_status id status now (i ∷ rest) =
    (if str_eq i.id id then set_status status now i else i) ∷ update_status id status now rest

-- `TransitionIncident`: the rows, and for an incident that exists the status it had and whether the
-- change applied; none is `ErrIncidentNotFound`.
unfoldable pub transition_incident :
    String → Status → ℕ → List Incident → List Incident × Option (Status × Bool)
unfolding allowed_from
transition_incident id status now rows = elim (find_incident id rows) [
  | none ↦ (rows, none)
  | some i ↦
      if elem (name i.status) (allowed_from status)
      then (update_status id status now rows, some (i.status, true))
      else (rows, some (i.status, false))
]
