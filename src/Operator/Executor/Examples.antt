-- ===== src/Operator/Executor/Examples.antt =====
-- A rollback from revision 4 to 2.
use summer_project.Prelude.{◌≡◌, refl, none, some}
use summer_project.Prelude.Int.{pos}
use summer_project.Operator.Models.{recovery_planned}
use summer_project.Operator.Samples.{incident_in, order_plan}
use summer_project.Operator.StateMachine.{transition}
use summer_project.Operator.Helm.{ok}
use summer_project.Operator.Executor.{HelmClient, execute}
use summer_project.Operator.Executor.Outcomes.{Outcome, execute-Outcome}

abbrev willing : HelmClient
willing = record {
  current_revision = λ _ _. ok (pos 4);
  last_healthy_revision = λ _ _. ok (pos 2);
  rollback = λ _ _ _. none;
}

execute_test :
    (execute (pos 5) (pos 9) "" willing order_plan (incident_in recovery_planned)).requested
    ≡ some (pos 2)
unfolding execute transition
execute_test = refl

execute-Outcome_example :
    Outcome "" willing order_plan
      (incident_in recovery_planned)
      (pos 5)
      (execute (pos 5) (pos 9) "" willing order_plan (incident_in recovery_planned))
execute-Outcome_example =
    execute-Outcome (pos 5) (pos 9) "" willing order_plan (incident_in recovery_planned)
