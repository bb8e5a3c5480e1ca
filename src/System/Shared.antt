-- ===== src/System/Shared.antt =====
-- The rows that the approval service and the jobs share.
use argus.Base.{
  ℕ, String, ◌≡◌, ◌≢◌, ◌⊎◌, refl, ap, sym, ◌∙◌, Option, none, some, List, [], ◌∷◌, map, str_eq,
  str_eq-eq, Bool-cases, inl, inr, if◌then◌else◌,
}
use mathlib.Core.Path.{subst}
use argus.Actions.{get_or}
use argus.Remediation.States.{
  State, approved, queued, running, succeeded, failed, policy_blocked, is_terminal_state,
  require_transition,
}
use argus.Remediation.States.Lifecycle.{
  History, start, step, final_states_absorb, IsLive, HandedOut, HandedOut-IsLive, HandedOut-source,
}
use argus.Approvals.{Remediation, Event}
use argus.Approvals.Approved.{Lets}
use argus.Approvals.Quiet.{request_approval-remediations}
use argus.Approvals.Service.{Service}
use argus.Approvals.Rows.{Moved}
use argus.Jobs.{Action}
use argus.Jobs.Moves.{view, content, Work, unmoved, move, Advances}
use argus.Jobs.Proposing.{KeepsActions}
use argus.System.{Requests, database, write_back, proposal_of, asks}

-- Every row keeps its place, its identifier and its content, none is approved or beyond that was not,
-- unless `P` holds of its identifier, and a blocked row stays blocked.
abbrev pub LetsActions : (String → Type 0) → List Action → List Action → Type 0
LetsActions P [] [] = Unit
LetsActions P (a ∷ as') (b ∷ bs) =
    (a.id ≡ b.id)
    × (content a ≡ content b)
    × (IsLive b.status → IsLive a.status ⊎ P b.id)
    × (a.status ≡ policy_blocked → b.status ≡ policy_blocked)
    × LetsActions P as' bs
LetsActions P _ _ = ⊥

blocked_stays : (s t : State) → History s t → s ≡ policy_blocked → t ≡ policy_blocked
unfolding is_terminal_state
blocked_stays s t h e =
    final_states_absorb s t (ap is_terminal_state e) (λ f. absurd (unlike (sym e ∙ f))) h ∙ e
  where
    unlike : policy_blocked ≡ failed → ⊥
    unlike f = cc

Work-History : {s t : State} → Work s t → History s t
Work-History unmoved = start
Work-History (move h e n) = step (Work-History h) e

-- What the approval store approves is approved in the table.
pub write_back-LetsActions :
    (P : String → Type 0) (rows : List Action) (seen : List Remediation)
    → Lets P (map view rows) seen
    → Moved (map view rows) seen
    → LetsActions P rows (write_back rows seen)
unfolding write_back
write_back-LetsActions P [] [] m h = tt
write_back-LetsActions P (a ∷ rest) (r ∷ seen) m h = (
  refl,
  refl,
  λ l. elim (m.1 l) [ inl l' ↦ inl l' | inr p ↦ inr (subst P (sym m.0) p) ],
  blocked_stays a.status r.status h.1,
  write_back-LetsActions P rest seen m.2 h.2,
)
write_back-LetsActions P [] (r ∷ seen) m h = elim m [ ]
write_back-LetsActions P (a ∷ rest) [] m h = elim m [ ]

move-IsLive : (s t : State) → require_transition s t ≡ none → t ≢ approved → IsLive t → IsLive s
move-IsLive s t e n l = elim (HandedOut-source s t e (handed_out t n l)) [
  | inl (from, to) ↦ subst IsLive (sym from) tt
  | inr h ↦ HandedOut-IsLive s h
]
  where
    handed_out : (t : State) → t ≢ approved → IsLive t → HandedOut t
    handed_out approved n l = absurd (n refl)
    handed_out queued n l = tt
    handed_out running n l = tt
    handed_out succeeded n l = tt
    handed_out failed n l = tt
    handed_out _ n l = elim l [ ]

-- Work on jobs approves nothing.
Work-IsLive : {s t : State} → Work s t → IsLive t → IsLive s
Work-IsLive unmoved l = l
Work-IsLive (move {t = t} {u = u} h e n) l = Work-IsLive h (move-IsLive t u e n l)

pub Advances-LetsActions :
    (P : String → Type 0) (rows rows' : List Action)
    → Advances rows rows'
    → LetsActions P rows rows'
Advances-LetsActions P [] [] m = tt
Advances-LetsActions P (a ∷ rest) (b ∷ rest') m = (
  m.0,
  m.1,
  λ l. inl (Work-IsLive m.2 l),
  blocked_stays a.status b.status (Work-History m.2),
  Advances-LetsActions P rest rest' m.3,
)
Advances-LetsActions P [] (b ∷ rest') m = elim m [ ]
Advances-LetsActions P (a ∷ rest) [] m = elim m [ ]

read_back : (name : String) → get_or (if str_eq name "" then none else some name) "" ≡ name
read_back name = elim (Bool-cases (str_eq name "")) [
  | inl empty ↦ rw empty (sym (str_eq-eq name "" empty))
  | inr named ↦ rw named refl
]

-- Writing back what was read changes nothing.
pub write_back-view : (rows : List Action) → write_back rows (map view rows) ≡ rows
unfolding write_back
write_back-view [] = refl
write_back-view (a ∷ rest) =
    ap (λ name. record a { approved_by = name } ∷ write_back rest (map view rest))
      (read_back a.approved_by)
    ∙ ap (λ l. a ∷ l) (write_back-view rest)

module _ {L : Type 0} (write : Event → L → Option L) where
  pub asks-KeepsActions :
      {Q : Type 0} (s : Service) (fresh : Action → String) (notify : Action → Option String)
      (now : ℕ)
      → KeepsActions {L = L} {Q = Q} {S = Requests} (some (asks write s fresh notify now))
  unfolding asks
  asks-KeepsActions s fresh notify now incident a (w, requests) =
      let same =
        request_approval-remediations write s (fresh a) (proposal_of incident a) (notify a) now
          (database (w, requests)) in
      ap (write_back w.actions) same ∙ write_back-view w.actions
