-- ===== src/Operator/Engines/Examples.antt =====
-- Runs of the engines of internal/operator/slo, budget and burnrate, and the theorems at them.
use summer_project.Prelude.{◌*◌, ◌&&◌, none, some, [], ◌∷◌, ◌≡◌, refl}
use summer_project.Prelude.Int.{ℤ, pos, leb_ℤ, ◌-ℤ◌}
use summer_project.Prelude.Maps.{lookup, insert, Map}
use summer_project.Prelude.Milli.{milli, milli_lt}
use summer_project.Operator.Models.{hour}
use summer_project.Operator.Engines.{
  Slo, PrometheusClient, slo_map, evaluate, burn_report, calculate_burn_rate,
}
use summer_project.Operator.Engines.Alerts.{calculate_burn_rate-is_high_alert}

abbrev orders : Slo ℤ
orders = record {
  service_id = "order-service";
  availability_target = pos 990;
  latency_p95_max = pos 300;
  error_rate_max = pos 10;
  throughput_min = pos 0;
}

abbrev slos : Map (Slo ℤ)
slos = ("order-service", orders) ∷ []

-- Eight errors in a hundred requests.
abbrev prom : PrometheusClient ℤ
prom = record {
  get_latency = λ s. some (pos 100);
  get_availability = λ s. some (pos 920);
  get_error_rate = λ s. some (pos 80);
  get_traffic = λ s. some (pos 1000);
}

registered : slo_map milli (orders ∷ []) [] ≡ slos
unfolding slo_map insert
registered = refl

not_registered : evaluate milli slos prom "redis" ≡ none
unfolding evaluate lookup
not_registered = refl

eight_times :
    calculate_burn_rate milli slos prom "order-service" (pos hour) (pos 50_000)
    ≡ some (burn_report milli "order-service" (pos hour) (pos 50_000) (pos 8000))
unfolding calculate_burn_rate lookup ◌-ℤ◌
eight_times = refl

-- A rate of 8 in the window of one hour raises the alert.
calculate_burn_rate-is_high_alert_example :
    (burn_report milli "order-service" (pos hour) (pos 50_000) (pos 8000)).is_high_alert
    ≡ (leb_ℤ (pos hour) (pos (6 * hour)) && milli_lt (pos 6000) (pos 8000))
calculate_burn_rate-is_high_alert_example =
    calculate_burn_rate-is_high_alert milli slos prom "order-service" (pos hour) (pos 50_000) _
      eight_times
