-- ===== src/Operator/StateMachine.antt =====
-- internal/operator/state/machine.go: the incident's state machine. A transition returns the incident
-- as it leaves it, with the error of a refused move; log, metrics and timeline lines are left out.
pub mod History
mod Examples
use summer_project.Prelude.{
  Bool, true, false, ◌||◌, if◌then◌else◌, Option, none, some, List, [], ◌∷◌, ◌++◌, String,
}
use summer_project.Prelude.Text.{str_eq, sprint}
use summer_project.Operator.Models.{
  Time, State, unset, healthy, warning, investigating, decision_made, recovery_planned,
  executing_rollback, rollback_complete, verifying, verification_failed, retrying, waiting,
  recovered, failed, StateTransition, Incident,
}

-- The text of a state, and a number for it: two states are equal when their numbers are.
abbrev pub state_text : State → String
state_text unset = ""
state_text healthy = "Healthy"
state_text warning = "Warning"
state_text investigating = "Investigating"
state_text decision_made = "DecisionMade"
state_text recovery_planned = "RecoveryPlanned"
state_text executing_rollback = "ExecutingRollback"
state_text rollback_complete = "RollbackComplete"
state_text verifying = "Verifying"
state_text verification_failed = "VerificationFailed"
state_text retrying = "Retrying"
state_text waiting = "Waiting"
state_text recovered = "Recovered"
state_text failed = "Failed"

abbrev pub same_state : State → State → Bool
same_state s t = str_eq (state_text s) (state_text t)

-- The map `allowed` of the source, read at two states.
pub targets : State → State → Bool
targets healthy warning = true
targets warning investigating = true
targets warning recovered = true
targets investigating decision_made = true
targets investigating recovered = true
targets investigating failed = true
targets decision_made recovery_planned = true
targets decision_made waiting = true
targets decision_made failed = true
targets recovery_planned executing_rollback = true
targets recovery_planned waiting = true
targets recovery_planned failed = true
targets executing_rollback rollback_complete = true
targets executing_rollback verification_failed = true
targets executing_rollback failed = true
targets executing_rollback retrying = true
targets rollback_complete verifying = true
targets rollback_complete verification_failed = true
targets rollback_complete failed = true
targets verifying recovered = true
targets verifying verification_failed = true
targets verifying failed = true
targets verification_failed retrying = true
targets verification_failed failed = true
targets retrying executing_rollback = true
targets retrying failed = true
targets waiting executing_rollback = true
targets waiting recovered = true
targets waiting failed = true
targets waiting investigating = true
targets recovered healthy = true
targets recovered warning = true
targets failed investigating = true
targets failed warning = true
targets failed healthy = true
targets _ _ = false

unfoldable pub is_transition_allowed : State → State → Bool
unfolding targets
is_transition_allowed from to = if same_state from to then true else targets from to

-- An incident that was never given a state counts as healthy.
abbrev pub from_state : State → State
from_state unset = healthy
from_state s = s

pub refusal : State → State → String
refusal from to =
    sprint ("invalid state transition from " ∷ state_text from ∷ " to " ∷ state_text to ∷ [])

abbrev pub moved : Time → Incident → State → State → String → Incident
moved now incident from to reason = record incident {
  current_state = to;
  last_update = now;
  history =
      incident.history
      ++ record { from_state = from; to_state = to; timestamp = now; reason = reason } ∷ [];
}

-- `now` is the clock's reading; the result is none where the source returns nil.
unfoldable pub transition : Time → Incident → State → String → Incident × Option String
unfolding is_transition_allowed refusal
transition now incident to reason =
    let from = from_state incident.current_state in
    if is_transition_allowed from to
    then (moved now incident from to reason, none)
    else (incident, some (refusal from to))
