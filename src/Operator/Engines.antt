-- ===== src/Operator/Engines.antt =====
-- internal/operator/slo/engine.go, budget/manager.go and burnrate/engine.go: what Prometheus measures of a
-- service, held against its targets. What Prometheus answers is an argument; an error is none, as in the
-- reports. The gauges and counters are left out.

pub mod Alerts
mod Examples
use summer_project.Prelude.{
  ◌*◌, Bool, true, false, ◌&&◌, ◌||◌, if◌then◌else◌, Option, none, some, List, [], ◌∷◌, String,
}
use summer_project.Prelude.Int.{pos, leb_ℤ}
use summer_project.Prelude.Float.{Float64}
use summer_project.Prelude.Maps.{Map, lookup, insert}
use summer_project.Operator.Models.{Duration, hour}
use summer_project.Operator.Reports.{SloReport, BudgetReport, BurnRateReport}

module _ (F : Type 0) where
  pub record Slo : Type 0 where
    pub service_id : String
    pub availability_target : F
    pub latency_p95_max : F
    pub error_rate_max : F
    pub throughput_min : F

  -- The golden signals of the interface PrometheusClient.
  pub record PrometheusClient : Type 0 where
    pub get_latency : String → Option F
    pub get_availability : String → Option F
    pub get_error_rate : String → Option F
    pub get_traffic : String → Option F

module _ (fl : Float64) where
  open fl use {F, lit, of_seconds, truncate, sub, mul, div, lt, le}

  -- The map that NewEngine and NewManager build: of two with one name the last counts.
  unfoldable pub slo_map : List (Slo F) → Map (Slo F) → Map (Slo F)
  slo_map [] m = m
  slo_map (s ∷ rest) m = slo_map rest (insert s.service_id s m)

  -- The comparisons of Evaluate. Throughput counts only where there is traffic.
  abbrev pub slo_report : String → Slo F → F → F → F → F → SloReport F
  slo_report service slo availability latency error_rate throughput =
      let low = lt availability slo.availability_target in
      let slow = lt slo.latency_p95_max latency in
      let failing = lt slo.error_rate_max error_rate in
      let idle = lt throughput slo.throughput_min && lt (lit 0 0) throughput in
      record {
        service_id = service;
        availability_slo = slo.availability_target;
        availability_actual = availability;
        availability_violated = low;
        latency_slo = slo.latency_p95_max;
        latency_actual = latency;
        latency_violated = slow;
        error_rate_slo = slo.error_rate_max;
        error_rate_actual = error_rate;
        error_rate_violated = failing;
        throughput_slo = slo.throughput_min;
        throughput_actual = throughput;
        throughput_violated = idle;
        any_violation = low || slow || failing || idle;
      }

  infixl 5 ◌>>=◌
  abbrev ◌>>=◌ : {A B : Type 0} → Option A → (A → Option B) → Option B
  none >>= f = none
  some a >>= f = f a

  unfoldable pub evaluate : Map (Slo F) → PrometheusClient F → String → Option (SloReport F)
  evaluate slos prom service = do
    slo ← lookup service slos
    availability ← prom.get_availability service
    latency ← prom.get_latency service
    error_rate ← prom.get_error_rate service
    throughput ← prom.get_traffic service
    some (slo_report service slo availability latency error_rate throughput)

  abbrev pub target_or : F → Option (Slo F) → F
  target_or default_target none = default_target
  target_or default_target (some s) = s.availability_target

  abbrev pub budget_report : String → Duration → F → F → F → BudgetReport F
  budget_report service window target error_rate traffic =
      let total = mul traffic (of_seconds window) in
      let allowed = mul total (sub (lit 1 0) target) in
      let consumed = mul total error_rate in
      let left = sub allowed consumed in
      let remaining = if lt left (lit 0 0) then lit 0 0 else left in
      record {
        service_id = service;
        window = window;
        availability_target = target;
        total_requests = total;
        allowed_errors = allowed;
        consumed_errors = consumed;
        remaining_absolute = remaining;
        remaining_percent =
            if lt (lit 0 0) allowed then mul (div remaining allowed) (lit 100 0) else lit 100 0;
      }

  -- A service without a configured target gets 0.99 here.
  unfoldable pub evaluate_budget :
      Map (Slo F) → PrometheusClient F → String → Duration → Option (BudgetReport F)
  evaluate_budget slos prom service window = do
    error_rate ← prom.get_error_rate service
    traffic ← prom.get_traffic service
    some (
        budget_report service window (target_or (lit 99 2) (lookup service slos)) error_rate
          traffic)

  abbrev pub is_high_alert : Duration → F → Bool
  is_high_alert window burn_rate =
      if leb_ℤ window (pos hour) && lt (lit 144 1) burn_rate
      then true
      else if leb_ℤ window (pos (6 * hour)) && lt (lit 6 0) burn_rate
      then true
      else false

  -- The time until the budget of thirty days is spent, at most a thousand hours.
  abbrev pub projected : F → F → Duration
  projected remaining_percent burn_rate =
      if le burn_rate (lit 0 0)
      then pos (1000 * (24 * hour))
      else let hours = div (mul (div remaining_percent (lit 100 0)) (lit 720 0)) burn_rate in
        let capped = if lt (lit 1000 0) hours then lit 1000 0 else hours in
        truncate (mul capped (lit hour 0))

  abbrev pub burn_rate_of : F → F → F
  burn_rate_of target error_rate =
      let allowed = sub (lit 1 0) target in
      div error_rate (if le allowed (lit 0 0) then lit 1 3 else allowed)

  abbrev pub burn_report : String → Duration → F → F → BurnRateReport F
  burn_report service window remaining_percent burn_rate = record {
    service_id = service;
    window = window;
    current_burn_rate = burn_rate;
    projected_exhaustion = projected remaining_percent burn_rate;
    is_high_alert = is_high_alert window burn_rate;
  }

  -- And 0.999 here.
  unfoldable pub calculate_burn_rate :
      Map (Slo F) → PrometheusClient F → String → Duration → F → Option (BurnRateReport F)
  calculate_burn_rate slos prom service window remaining_percent = do
    error_rate ← prom.get_error_rate service
    some (
        burn_report service window remaining_percent
          (burn_rate_of (target_or (lit 999 3) (lookup service slos)) error_rate))
