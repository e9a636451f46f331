-- ===== src/Operator/Planner/Examples.antt =====
-- A plan under a policy that leaves the timeout unset.
use summer_project.Prelude.{some}
use summer_project.Prelude.Int.{pos}
use summer_project.Operator.Models.{prepare_rollback, RecoveryPlan}
use summer_project.Operator.Samples.{fresh_incident, decided_on, order_policy}
use summer_project.Operator.Planner.{plan_for}

abbrev planned : RecoveryPlan
planned = plan_for (pos 7) "ab12" fresh_incident (decided_on prepare_rollback) (some order_policy)
