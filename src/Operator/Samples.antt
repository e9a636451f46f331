-- ===== src/Operator/Samples.antt =====
-- Values of the operator's types on which the examples run.
use summer_project.Prelude.{◌*◌, none, some, List, [], String, true}
use summer_project.Operator.Reports.{BudgetReport, Signals}
use summer_project.Prelude.Int.{ℤ, pos}
use summer_project.Operator.Models.{
  State, healthy, Action, prepare_rollback, Alert, Policy, Incident, DecisionEntry, RecoveryPlan,
  RollbackHistory, minute, second, hour,
}

abbrev pub incident_in : State → Incident
incident_in s = record {
  id = "inc-1";
  alert_id = "fp-1";
  service = "order-service";
  severity = "critical";
  alert_name = "HighErrorRate";
  start_time = pos 1000;
  last_update = pos 1000;
  status = "firing";
  current_state = s;
  history = [];
  recovery_attempts = pos 0;
  decision_history = [];
  namespace = "";
  root_cause = "";
  decision = "";
  recovery_action = "";
  helm_release = "";
  rollback_revision = pos 0;
  end_time = pos 0;
  duration = pos 0;
  verification_result = "";
  operator_version = "";
  recovery_confidence = 0;
}

abbrev pub fresh_incident : Incident
fresh_incident = incident_in healthy

abbrev pub alert_with : String → Alert
alert_with status = record {
  fingerprint = "fp-1";
  name = "HighErrorRate";
  service = "order-service";
  severity = "critical";
  status = status;
  starts_at = pos 1000;
  ends_at = pos 0;
}

abbrev pub order_policy : Policy
order_policy = record {
  id = "policy-order";
  service = "order-service";
  alert_name = "HighErrorRate";
  recommended_action = prepare_rollback;
  cooldown_duration = pos (10 * minute);
  timeout = pos 0;
  max_retries = pos 3;
}

abbrev pub decided_on : Action → DecisionEntry
decided_on action = record {
  timestamp = pos 2000;
  decision = action;
  policy_used = "policy-order";
  reason = "";
  operator_version = "1.0.0";
  recovery_plan = none;
  recovery_target_service_id = "";
}

abbrev pub order_plan : RecoveryPlan
order_plan = record {
  id = "plan-order-service-ab";
  service_id = "order-service";
  desired_action = prepare_rollback;
  priority = 1;
  timeout = pos minute;
  verification_window = pos minute;
  retry_policy = record { max_retries = pos 2; backoff = pos (30 * second) };
  cooldown = pos (5 * minute);
  target_revision = none;
  execution_state = "Pending";
  created_at = pos 2000;
}

abbrev pub rollback_of : String → String → RollbackHistory
rollback_of service result = record {
  incident_id = "inc-0";
  service = service;
  namespace = "cloud-native-platform";
  helm_release = service;
  old_revision = pos 3;
  rollback_revision = pos 2;
  start_time = pos 10;
  finish_time = pos 20;
  recovery_duration = pos 10;
  verification_result = result;
  operator_version = "";
}

abbrev pub budget_left : BudgetReport ℤ
budget_left = record {
  service_id = "order-service";
  window = pos (24 * hour);
  availability_target = pos 999;
  total_requests = pos 100_000;
  allowed_errors = pos 100;
  consumed_errors = pos 50;
  remaining_absolute = pos 50;
  remaining_percent = pos 50_000;
}

-- A burn rate of 20, and no error in the analysis.
abbrev pub burning : List RollbackHistory → Signals ℤ
burning rollbacks = record {
  analyze = λ _. none;
  evaluate = λ _. none;
  evaluate_budget = λ _ _. some budget_left;
  calculate_burn_rate = λ service window _. some (record {
    service_id = service;
    window = window;
    current_burn_rate = pos 20_000;
    projected_exhaustion = pos 0;
    is_high_alert = true;
  });
  list_rollbacks = some rollbacks;
}
