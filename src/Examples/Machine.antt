-- ===== src/Examples/Machine.antt =====
-- Runs of the transition table of internal/remediation/states.go.
use argus.Base.{◌≡◌, refl, none}
use argus.Remediation.States.{
  proposed, approved, queued, failed, rejected, can_transition, require_transition,
}
use argus.Remediation.States.Lifecycle.{History, start, step, Visits, HandedOut-needs_approval}

-- Two steps of a history.
to_approved : require_transition proposed approved ≡ none
unfolding require_transition can_transition
to_approved = refl

to_queued : require_transition approved queued ≡ none
unfolding require_transition can_transition
to_queued = refl

retried : require_transition failed approved ≡ none
unfolding require_transition can_transition
retried = refl

stays : require_transition rejected rejected ≡ none
unfolding require_transition can_transition
stays = refl

abbrev queued_history : History proposed queued
queued_history = step (step start to_approved) to_queued

handed_out_example : Visits queued_history approved × Visits queued_history queued
handed_out_example = HandedOut-needs_approval queued_history tt
