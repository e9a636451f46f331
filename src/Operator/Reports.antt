-- ===== src/Operator/Reports.antt =====
-- What the decision engine and the deployment engines are told of a service: the result types of
-- internal/operator/slo, budget, burnrate and rootcause, over a type of floats. Where the source
-- returns a result and an error, and one of the two is nil, none stands for the error.
use summer_project.Prelude.{Bool, Option, List, String}
use summer_project.Operator.Models.{Duration, RollbackHistory}

module _ (F : Type 0) where
  pub record SloReport : Type 0 where
    pub service_id : String
    pub availability_slo : F
    pub availability_actual : F
    pub availability_violated : Bool
    pub latency_slo : F
    pub latency_actual : F
    pub latency_violated : Bool
    pub error_rate_slo : F
    pub error_rate_actual : F
    pub error_rate_violated : Bool
    pub throughput_slo : F
    pub throughput_actual : F
    pub throughput_violated : Bool
    pub any_violation : Bool

  pub record BudgetReport : Type 0 where
    pub service_id : String
    pub window : Duration
    pub availability_target : F
    pub total_requests : F
    pub allowed_errors : F
    pub consumed_errors : F
    pub remaining_absolute : F
    pub remaining_percent : F

  pub record BurnRateReport : Type 0 where
    pub service_id : String
    pub window : Duration
    pub current_burn_rate : F
    pub projected_exhaustion : Duration
    pub is_high_alert : Bool

  pub record RootCauseAnalysis : Type 0 where
    pub alerted_service_id : String
    pub root_cause_service_id : String
    pub reason : String
    pub confidence_score : F

  -- The engines behind the interfaces SLOEvaluator, ErrorBudgetManager, BurnRateEngine,
  -- RootCauseAnalyzer and RollbackHistoryStore, as one decision sees them.
  pub record Signals : Type 0 where
    pub analyze : String → Option RootCauseAnalysis
    pub evaluate : String → Option SloReport
    pub evaluate_budget : String → Duration → Option BudgetReport
    pub calculate_burn_rate : String → Duration → F → Option BurnRateReport
    pub list_rollbacks : Option (List RollbackHistory)
