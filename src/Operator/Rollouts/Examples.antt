-- ===== src/Operator/Rollouts/Examples.antt =====
-- Runs of internal/operator/progressive/manager.go, and the theorems at them.
use summer_project.Prelude.{
  ℕ, true, false, none, some, Bool, Option, List, [], ◌∷◌, ◌≡◌, refl, String,
}
use summer_project.Prelude.Int.{ℤ, pos}
use summer_project.Prelude.Maps.{lookup, insert}
use summer_project.Operator.Models.{Time}
use summer_project.Operator.Risk.{returned}
use summer_project.Operator.Rollouts.{
  run_key, DeliveryManager, Told, abort_rollout, helm_rollback, create_rollout, with_risk,
  monitor_rollout, monitor_at, settle, followed, transition, after_analysis, Call, create, monitor,
  run, new_manager,
}
use summer_project.Operator.Rollouts.Monitoring.{MonitorEnd, monitor_rollout-MonitorEnd}
use summer_project.Operator.Rollouts.Lasting.{Keeps, IsDelivering}
use summer_project.Operator.Helm.{ok}
use summer_project.Operator.Executor.{HelmClient}
use summer_project.Operator.Rollouts.Aborts.{abort_incident, abort_recovery, abort_recovery_refused}
use summer_project.Operator.Rollouts.Runs.{run-new_manager-IsDelivering}

abbrev begin_at : Time → Call ℤ
begin_at now =
    create now "orders" "prod" "order-service" (returned (true, ""))
      (returned (some (record { score = pos 10_000; decision = "Deploy" })))

abbrev weight : ℕ → Option Bool → Told
weight n healthy = record {
  rollout = some (record { is_aborted = false; current_weight = pos n });
  healthy = healthy;
  verified = some true;
}

abbrev started : DeliveryManager ℤ
started = run (begin_at (pos 70_000_000_000_000_000_000) ∷ []) new_manager

degraded_canary :
    (monitor_rollout (pos 9) "orders" "prod" (weight 20 (some false)) started).commands
    ≡ abort_rollout ∷ helm_rollback "order-service" ∷ []
unfolding monitor_rollout monitor_at settle followed transition after_analysis run create_rollout
    with_risk lookup insert
degraded_canary = refl

monitor_rollout-MonitorEnd_example :
    MonitorEnd
      (pos 9)
      (run_key "orders" "prod")
      (weight 20 (some false))
      started
      (monitor_rollout (pos 9) "orders" "prod" (weight 20 (some false)) started)
monitor_rollout-MonitorEnd_example =
    monitor_rollout-MonitorEnd (pos 9) "orders" "prod" (weight 20 (some false)) started

abbrev first_calls : List (Call ℤ)
first_calls = begin_at (pos 5) ∷ monitor (pos 9) "orders" "prod" (weight 100 none) ∷ []

abbrev later_calls : List (Call ℤ)
later_calls = begin_at (pos 12) ∷ monitor (pos 20) "orders" "prod" (weight 20 (some false)) ∷ []

run-new_manager-IsDelivering_example :
    IsDelivering (run first_calls new_manager)
    × Keeps (run first_calls new_manager) (run later_calls (run first_calls new_manager))
run-new_manager-IsDelivering_example = run-new_manager-IsDelivering first_calls later_calls

-- Helm would do all that it is asked.
abbrev ready : HelmClient
ready = record {
  current_revision = λ n r. ok (pos 4);
  last_healthy_revision = λ n r. ok (pos 3);
  rollback = λ n r v. none;
}

abort_recovery_refused_example :
    ((abort_recovery (pos 9) (pos 10) "" ready "order-service").requested ≡ none)
    × ((abort_recovery (pos 9) (pos 10) "" ready "order-service").incident
        ≡ abort_incident "order-service")
    × ((e : String) × ((abort_recovery (pos 9) (pos 10) "" ready "order-service").error ≡ some e))
abort_recovery_refused_example = abort_recovery_refused (pos 9) (pos 10) "" ready "order-service"
