-- ===== src/Operator/Intake/Examples.antt =====
-- Runs of internal/operator/alert/parser.go and webhook/handler.go, and the theorem at a payload.
use summer_project.Prelude.{some, [], ◌∷◌, ◌≡◌, ◌≢◌, ◌↔◌, refl, All, map}
use summer_project.Prelude.Int.{pos}
use summer_project.Prelude.Maps.{lookup}
use summer_project.Operator.Helm.{ok}
use summer_project.Operator.Intake.{
  RawAlert, AlertmanagerPayload, alert_of, parse_alert, parse_alerts, parse, serve_http,
}
use summer_project.Operator.Intake.Parsing.{IsComplete, parse_iff}

abbrev stalled : RawAlert
stalled = record {
  status = "firing";
  labels =
      ("alertname", "RolloutStuck")
      ∷ ("service", "monitoring-kube-state-metrics")
      ∷ ("helm_release", "order-service")
      ∷ [];
  starts_at = pos 0;
  ends_at = pos 0;
  fingerprint = "fp-7";
}

abbrev payload : AlertmanagerPayload
payload = record { version = "4"; alerts = stalled ∷ [] }

accepted : (serve_http (pos 900) "POST" (some payload)).processed ≡ alert_of (pos 900) stalled ∷ []
unfolding serve_http parse parse_alerts parse_alert lookup
accepted = refl

the_release : (alert_of (pos 900) stalled).service ≡ "order-service"
unfolding lookup
the_release = refl

not_posted : (serve_http (pos 900) "GET" (some payload)).status ≡ 405
unfolding serve_http
not_posted = refl

parse_iff_example : (parse (pos 900) (some payload) ≡ ok (alert_of (pos 900) stalled ∷ [])) ↔ (
    (payload.version ≢ "")
    × (payload.alerts ≢ [])
    × All IsComplete payload.alerts
    × (alert_of (pos 900) stalled ∷ [] ≡ map (alert_of (pos 900)) payload.alerts))
parse_iff_example = parse_iff (pos 900) payload (alert_of (pos 900) stalled ∷ [])
