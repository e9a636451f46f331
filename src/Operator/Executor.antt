-- ===== src/Operator/Executor.antt =====
-- internal/operator/executor/executor.go: HelmRollbackExecutor.Execute and the no-op executors. What
-- the Helm client answers in this run is an argument; the clock is read at the start and at the end.
-- Logs and metrics are left out.
pub mod Outcomes
mod Examples
use summer_project.Prelude.{
  Bool, true, false, if◌then◌else◌, Option, none, some, List, [], ◌∷◌, String,
}
use summer_project.Prelude.Int.{ℤ, pos, ◌-ℤ◌}
use summer_project.Prelude.Text.{str_eq, sprint, show_ℤ}
use summer_project.Operator.Models.{
  Time, State, executing_rollback, rollback_complete, Incident, RecoveryPlan, RecoveryResult,
}
use summer_project.Operator.StateMachine.{transition}
use summer_project.Operator.Helm.{Result, ok, err}

-- What the client answers for a namespace and a release; `rollback` gives none for nil.
pub record HelmClient : Type 0 where
  pub current_revision : String → String → Result ℤ
  pub last_healthy_revision : String → String → Result ℤ
  pub rollback : String → String → ℤ → Option String

-- ResolveReleaseAndNamespace, over the value of TARGET_NAMESPACE.
pub resolve_release_and_namespace : String → String → String × String
resolve_release_and_namespace target_namespace service =
    (service, if str_eq target_namespace "" then "cloud-native-platform" else target_namespace)

-- The plan and the incident as the run leaves them, what it returns, and the revision that Helm was
-- asked to roll back to.
pub record Execution : Type 0 where
  pub plan : RecoveryPlan
  pub incident : Incident
  pub result : Option RecoveryResult
  pub error : Option String
  pub requested : Option ℤ

abbrev stopped : RecoveryPlan → Incident → String → Execution
stopped plan incident e = record {
  plan = plan;
  incident = incident;
  result = none;
  error = some e;
  requested = none;
}

abbrev result_of : Bool → ℤ → ℤ → String → ℤ → RecoveryResult
result_of success old target message duration = record {
  success = success;
  old_revision = old;
  rollback_revision = target;
  message = message;
  execution_time = duration;
}

-- Step 5, on what the state machine answers: the rollback has been done.
complete : Time → Time → RecoveryPlan → ℤ → ℤ → Incident × Option String → Execution
complete start end plan current target (incident, some e) = record {
  plan = plan;
  incident = incident;
  result = none;
  error = some (sprint ("failed to transition to RollbackComplete: " ∷ e ∷ []));
  requested = some target;
}
complete start end plan current target (incident, none) = record {
  plan = plan;
  incident = incident;
  result = some (
      result_of true current target
        (sprint (
          "Successfully rolled back "
          ∷ plan.service_id
          ∷ " from v"
          ∷ show_ℤ current
          ∷ " to v"
          ∷ show_ℤ target
          ∷ []))
        (end -ℤ start));
  error = none;
  requested = some target;
}

-- Step 4, on what Helm answers to the rollback.
perform : Time → Time → RecoveryPlan → Incident → ℤ → ℤ → Option String → Execution
unfolding complete
perform start end plan incident current target (some e) = record {
  plan = plan;
  incident = incident;
  result = some (result_of false current target e (end -ℤ start));
  error = some e;
  requested = some target;
}
perform start end plan incident current target none = complete start end plan current target (
    transition end incident rollback_complete
      (sprint ("Rollback to revision v" ∷ show_ℤ target ∷ " finished successfully" ∷ [])))

-- Step 3, on the target that Helm's history gives.
with_target :
    Time → Time → HelmClient → String → String → RecoveryPlan → Incident → ℤ → Result ℤ → Execution
unfolding perform
with_target start end helm release namespace plan incident current (err e) =
    stopped plan incident (sprint ("failed to determine rollback target revision: " ∷ e ∷ []))
with_target start end helm release namespace plan incident current (ok target) =
    perform start end (record plan { target_revision = some target }) incident current target
      (helm.rollback namespace release target)

-- Step 2, on the current revision.
with_current :
    Time → Time → HelmClient → String → String → RecoveryPlan → Incident → Result ℤ → Execution
unfolding with_target
with_current start end helm release namespace plan incident (err e) =
    stopped plan incident (sprint ("failed to get current helm revision: " ∷ e ∷ []))
with_current start end helm release namespace plan incident (ok current) =
    with_target start end helm release namespace plan incident current
      (helm.last_healthy_revision namespace release)

-- Step 1, on what the state machine answers.
begin :
    Time → Time → HelmClient → String → String → RecoveryPlan → Incident × Option String → Execution
unfolding with_current
begin start end helm release namespace plan (incident, some e) =
    stopped plan incident (sprint ("failed to transition to ExecutingRollback: " ∷ e ∷ []))
begin start end helm release namespace plan (incident, none) =
    with_current start end helm release namespace plan incident
      (helm.current_revision namespace release)

unfoldable pub execute : Time → Time → String → HelmClient → RecoveryPlan → Incident → Execution
unfolding begin resolve_release_and_namespace
execute start end target_namespace helm plan incident =
    let (release, namespace) = resolve_release_and_namespace target_namespace plan.service_id in
    begin start end helm release namespace plan
      (transition start incident executing_rollback "Initiating Helm Rollback")

-- The executors that do nothing.
abbrev stub : String → Option RecoveryResult
stub message = some (result_of true (pos 0) (pos 0) message (pos 0))

pub restart_execute : Option RecoveryResult
restart_execute = stub "Restart executed (no-op stub)"

pub scale_execute : Option RecoveryResult
scale_execute = stub "Scale executed (no-op stub)"

pub canary_execute : Option RecoveryResult
canary_execute = stub "Canary rollback executed (no-op stub)"
