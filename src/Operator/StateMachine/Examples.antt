-- ===== src/Operator/StateMachine/Examples.antt =====
-- An incident's way to a rollback and back, and the theorems at it.
use summer_project.Prelude.{◌≡◌, refl, List, [], ◌∷◌}
use summer_project.Prelude.Int.{pos}
use summer_project.Operator.Models.{
  warning, investigating, decision_made, recovery_planned, executing_rollback, recovered,
}
use summer_project.Operator.Samples.{fresh_incident}
use summer_project.Operator.StateMachine.{transition}
use summer_project.Operator.StateMachine.History.{
  Request, Visits, requests, run_requests, rollback_needs_decision,
}

abbrev to_rollback : List Request
to_rollback = requests (pos 5) (
    warning ∷ recovered ∷ warning ∷ executing_rollback ∷ investigating ∷ decision_made
    ∷ recovery_planned ∷ executing_rollback ∷ [])

-- The direct request for a rollback is refused, the one after a decision is not.
run_test : (run_requests fresh_incident to_rollback).current_state ≡ executing_rollback
unfolding run_requests transition
run_test = refl

rollback_needs_decision_example :
    Visits decision_made (run_requests fresh_incident to_rollback).history
rollback_needs_decision_example =
    rollback_needs_decision fresh_incident to_rollback refl (rw run_test)
