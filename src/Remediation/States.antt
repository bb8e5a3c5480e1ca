-- ===== src/Remediation/States.antt =====
-- The life cycle of a remediation: internal/remediation/states.go.
pub mod Lifecycle
use argus.Base.{String, ◌≡◌, Bool, true, false, ◌||◌, Option, none, some, str_eq, if◌then◌else◌}

-- The state strings. A text that is none of the eleven constants is `other`.
pub data State : Type 0 where
  proposed policy_blocked awaiting_approval approved rejected queued running : State
  succeeded failed timed_out cancelled : State
  other : String → State

-- `switch state` of `IsTerminalState`.
unfoldable pub is_terminal_state : State → Bool
is_terminal_state policy_blocked = true
is_terminal_state rejected = true
is_terminal_state succeeded = true
is_terminal_state failed = true
is_terminal_state timed_out = true
is_terminal_state cancelled = true
is_terminal_state _ = false

-- `from == to` on strings; `other` texts are compared as they are.
unfoldable pub state_eq : State → State → Bool
state_eq proposed proposed = true
state_eq policy_blocked policy_blocked = true
state_eq awaiting_approval awaiting_approval = true
state_eq approved approved = true
state_eq rejected rejected = true
state_eq queued queued = true
state_eq running running = true
state_eq succeeded succeeded = true
state_eq failed failed = true
state_eq timed_out timed_out = true
state_eq cancelled cancelled = true
state_eq (other s) (other t) = str_eq s t
state_eq _ _ = false

-- The nested map `allowed`; a key that is missing at either level reads as false.
unfoldable pub allowed : State → State → Bool
allowed proposed policy_blocked = true
allowed proposed awaiting_approval = true
allowed proposed approved = true
allowed proposed cancelled = true
allowed awaiting_approval approved = true
allowed awaiting_approval rejected = true
allowed awaiting_approval timed_out = true
allowed awaiting_approval cancelled = true
allowed approved queued = true
allowed approved cancelled = true
allowed queued running = true
allowed queued succeeded = true
allowed queued failed = true
allowed queued timed_out = true
allowed queued cancelled = true
allowed running succeeded = true
allowed running failed = true
allowed running timed_out = true
allowed failed approved = true
allowed _ _ = false

unfoldable pub can_transition : State → State → Bool
unfolding state_eq allowed
can_transition from to = if state_eq from to then true else allowed from to

pub data TransitionError : Type 0 where
  invalid_transition : State → State → TransitionError

-- `nil` is none.
unfoldable pub require_transition : State → State → Option TransitionError
unfolding can_transition
require_transition from to =
    if can_transition from to then none else some (invalid_transition from to)
