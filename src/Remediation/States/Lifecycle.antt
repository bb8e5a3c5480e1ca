-- ===== src/Remediation/States/Lifecycle.antt =====
-- What the transition table of internal/remediation/states.go allows over whole histories.
use argus.Base.{sym, ◌≡◌, refl, ◌≢◌, ◌⊎◌, inl, inr, true, none, arith, str_eq-eq}
use argus.Remediation.States.{
  State, proposed, approved, queued, running, succeeded, failed, other, is_terminal_state, state_eq,
  require_transition,
}

pub state_eq-eq : (s t : State) → state_eq s t ≡ true → s ≡ t
unfolding state_eq
state_eq-eq (other s) (other t) h = ground (arith, str_eq-eq s t)
state_eq-eq _ _ h = ground arith

-- A history: the states that a remediation goes through, each step one that
-- `RequireTransition` returned nil for.
pub data History (s : State) : State → Type 0 where
  start : History s s
  step : {t u : State} → History s t → require_transition t u ≡ none → History s u

-- A transition out of a terminal state stays in that state, unless it is the retry of a failed
-- remediation, which goes to approved.
pub terminal-leave :
    (s t : State)
    → is_terminal_state s ≡ true
    → require_transition s t ≡ none
    → (t ≡ s) ⊎ ((s ≡ failed) × (t ≡ approved))
unfolding is_terminal_state require_transition
terminal-leave s t k h = ground arith

-- The states that a history goes through, its ends included.
abbrev pub Visits : {s t : State} → History s t → State → Type 0
Visits {s} start x = x ≡ s
Visits (step {u = u} h e) x = (x ≡ u) ⊎ Visits h x

-- The states of a remediation whose job was handed out.
abbrev pub HandedOut : State → Type 0
HandedOut queued = Unit
HandedOut running = Unit
HandedOut succeeded = Unit
HandedOut failed = Unit
HandedOut _ = ⊥

-- The states that a remediation can only be in once it was approved.
abbrev pub IsLive : State → Type 0
IsLive approved = Unit
IsLive queued = Unit
IsLive running = Unit
IsLive succeeded = Unit
IsLive failed = Unit
IsLive _ = ⊥

pub HandedOut-IsLive : (s : State) → HandedOut s → IsLive s
HandedOut-IsLive queued h = tt
HandedOut-IsLive running h = tt
HandedOut-IsLive succeeded h = tt
HandedOut-IsLive failed h = tt
HandedOut-IsLive _ h = elim h [ ]

-- The only ways into such a state are the step from approved to queued, and from another one.
pub HandedOut-source :
    (s t : State)
    → require_transition s t ≡ none
    → HandedOut t
    → ((s ≡ approved) × (t ≡ queued)) ⊎ HandedOut s
unfolding require_transition
HandedOut-source s queued e r = ground arith
HandedOut-source s running e r = ground arith
HandedOut-source s succeeded e r = ground arith
HandedOut-source s failed e r = ground arith
HandedOut-source s _ e r = elim r [ ]

Visits-end : {s t : State} (h : History s t) → Visits h t
Visits-end start = refl
Visits-end (step h e) = inl refl

-- From a state in which nothing is handed out, the way into one in which it is leads through
-- approved and queued.
pub HandedOut-Visits :
    {s t : State} (h : History s t)
    → (HandedOut s → ⊥)
    → HandedOut t
    → Visits h approved × Visits h queued
HandedOut-Visits start no_job r = absurd (no_job r)
HandedOut-Visits (step {t = m} {u = t} h e) no_job r = elim (HandedOut-source m t e r) [
  | inl (from, to) ↦ (inr (rw (← from) (Visits-end h)), inl (sym to))
  | inr r' ↦ let ih = HandedOut-Visits h no_job r' in (inr ih.0, inr ih.1)
]

-- Nothing is handed out unapproved: however a remediation got from proposed into queued, running,
-- succeeded or failed through allowed transitions, it was approved and it was queued on the way.
pub HandedOut-needs_approval :
    {t : State} (h : History proposed t) → HandedOut t → Visits h approved × Visits h queued
HandedOut-needs_approval h r = HandedOut-Visits h (λ r'. r') r

-- The terminal states other than failed are final: every history that begins in one ends in it.
pub final_states_absorb :
    (s t : State) → is_terminal_state s ≡ true → s ≢ failed → History s t → t ≡ s
final_states_absorb s _ k f start = refl
final_states_absorb s _ k f (step {t = u} {u = t} h e) =
    let same = final_states_absorb s u k f h in ground (arith, same, terminal-leave u t)
