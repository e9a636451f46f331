-- ===== src/Operator/Risk/Examples.antt =====
-- Runs of internal/operator/progressive/guard.go and risk.go, and the theorems at them.
use summer_project.Prelude.{true, false, none, some, [], ◌∷◌, ◌≡◌, refl}
use summer_project.Prelude.Int.{ℤ, pos}
use summer_project.Prelude.Milli.{milli}
use summer_project.Operator.Models.{investigating}
use summer_project.Operator.Reports.{Signals}
use summer_project.Operator.Samples.{incident_in, burning}
use summer_project.Operator.Risk.{
  panicked, DeploymentGuardConfig, evaluate_guard, calculate_risk, violating, ongoing,
}
use summer_project.Operator.Risk.Bounds.{RiskEnd, calculate_risk-RiskEnd}
use summer_project.Operator.Risk.Allowed.{GuardEnd, evaluate_guard-GuardEnd, is_allowed}

abbrev limits : DeploymentGuardConfig milli
limits = record {
  max_allowed_burn_rate = pos 30_000;
  min_remaining_budget = pos 20_000;
  block_on_critical_incidents = true;
}

-- Prometheus does not answer, so that there is no budget report.
abbrev silent : Signals ℤ
silent = record {
  analyze = λ _. none;
  evaluate = λ _. none;
  evaluate_budget = λ _ _. none;
  calculate_burn_rate = λ _ _ _. none;
  list_rollbacks = none;
}

allowed :
    is_allowed milli (evaluate_guard milli limits (burning []) ("redis" ∷ []) none "order-service")
    ≡ true
unfolding evaluate_guard violating
allowed = refl

hindered :
    is_allowed milli (
      evaluate_guard milli limits
        (burning [])
        []
        (some (incident_in investigating ∷ []))
        "order-service")
    ≡ false
unfolding evaluate_guard ongoing
hindered = refl

silent_guard : evaluate_guard milli limits silent [] none "order-service" ≡ panicked
unfolding evaluate_guard
silent_guard = refl

silent_risk : calculate_risk milli silent [] "order-service" ≡ panicked
unfolding calculate_risk
silent_risk = refl

evaluate_guard-GuardEnd_example :
    GuardEnd milli limits
      (burning [])
      ("redis" ∷ [])
      none
      "order-service"
      (evaluate_guard milli limits (burning []) ("redis" ∷ []) none "order-service")
evaluate_guard-GuardEnd_example =
    evaluate_guard-GuardEnd milli limits (burning []) ("redis" ∷ []) none "order-service"

calculate_risk-RiskEnd_example :
    RiskEnd milli
      (burning [])
      "order-service"
      (calculate_risk milli (burning []) ("redis" ∷ []) "order-service")
calculate_risk-RiskEnd_example =
    calculate_risk-RiskEnd milli (burning []) ("redis" ∷ []) "order-service"
