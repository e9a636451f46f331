-- ===== src/Operator/RootCause/Examples.antt =====
-- A run of internal/operator/rootcause/analyzer.go, and the theorem at it.
use summer_project.Prelude.{if◌then◌else◌, Option, some, String, ◌≡◌, refl, ◌||◌}
use summer_project.Prelude.Int.{ℤ, pos}
use summer_project.Prelude.Text.{str_eq}
use summer_project.Prelude.Maps.{lookup}
use summer_project.Prelude.Milli.{milli}
use summer_project.Operator.Reports.{SloReport}
use summer_project.Operator.Engines.{slo_report}
use summer_project.Operator.Dependency.{
  new_graph, as_dependency_graph, get_upstream, get_downstream, closure, dfs, visit_each, without,
}
use summer_project.Operator.RootCause.{analyze, analyze_downstream, degraded_nodes, blame, deepest}
use summer_project.Operator.RootCause.Blame.{RootCause, analyze-RootCause}

-- The order service and the payment service fail more often than they may.
abbrev failing : String → Option (SloReport ℤ)
failing service = some (
    slo_report milli service
      (record {
        service_id = service;
        availability_target = pos 990;
        latency_p95_max = pos 300;
        error_rate_max = pos 10;
        throughput_min = pos 0;
      })
      (pos 995) (pos 100)
      (pos (if str_eq service "order-service" || str_eq service "payment-service" then 200 else 1))
      (pos 5000))

payment_blamed :
    (analyze milli
      (as_dependency_graph (λ xs. xs) new_graph)
      failing
      "api-gateway").root_cause_service_id
    ≡ "payment-service"
unfolding analyze analyze_downstream degraded_nodes blame deepest get_upstream get_downstream
    closure dfs visit_each without new_graph lookup
payment_blamed = refl

analyze-RootCause_example :
    RootCause milli failing
      (λ xs. xs)
      new_graph
      "api-gateway"
      (analyze milli
        (as_dependency_graph (λ xs. xs) new_graph)
        failing
        "api-gateway").root_cause_service_id
analyze-RootCause_example =
    analyze-RootCause milli failing (λ xs. xs) new_graph "api-gateway" (λ names x. refl)
