-- ===== src/Operator/Engines/Alerts.antt =====
-- internal/operator/burnrate/engine.go and budget/manager.go: which burn rates raise the high alert, and the
-- floor of the budget.
use summer_project.Prelude.{
  ◌*◌, true, ◌&&◌, ◌≡◌, sym, subst, inl, inr, some, String, arith, Bool-cases, Option-cases,
}
use summer_project.Prelude.Int.{pos, leb_ℤ}
use summer_project.Prelude.Float.{Float64}
use summer_project.Prelude.Maps.{Map, lookup}
use summer_project.Operator.Models.{Duration, hour}
use summer_project.Operator.Reports.{BurnRateReport}
use summer_project.Operator.Engines.{
  Slo, PrometheusClient, is_high_alert, burn_report, burn_rate_of, target_or, calculate_burn_rate,
}

module _ (fl : Float64) where
  open fl use {F, lit, lt, lit-lt, lt_trans, lt_asymm, lit_scale}

  six-lt : lt (lit 6 0) (lit 144 1) ≡ true
  six-lt =
      subst (λ (six : F). lt six (lit 144 1) ≡ true) (sym (lit_scale 6 0 (omega arith)))
        (lit-lt 60 144 1 (omega arith) (omega arith))

  -- A rate above 14.4 is above 6 as well, so the first threshold never decides.
  high_alert_lem :
      (window : Duration) (rate : F)
      → is_high_alert fl window rate ≡ (leb_ℤ window (pos (6 * hour)) && lt (lit 6 0) rate)
  high_alert_lem window rate = elim (Bool-cases (lt (lit 6 0) rate)) [
    | inl high ↦ ground (arith, high)
    | inr low ↦ elim (Bool-cases (lt (lit 144 1) rate)) [
      | inl above ↦ cc (low, lt_trans (lit 6 0) (lit 144 1) rate six-lt above)
      | inr below ↦ ground (arith, low, below)
    ]
  ]

  -- Whatever Prometheus answers, a report of the burn rate raises the high alert exactly if the window is
  -- at most six hours and the rate is above 6, also for the window of one hour.
  pub calculate_burn_rate-is_high_alert :
      (slos : Map (Slo F)) (prom : PrometheusClient F) (service : String) (window : Duration)
      (remaining : F) (r : BurnRateReport F)
      → calculate_burn_rate fl slos prom service window remaining ≡ some r
      → r.is_high_alert ≡ (leb_ℤ window (pos (6 * hour)) && lt (lit 6 0) r.current_burn_rate)
  unfolding calculate_burn_rate
  calculate_burn_rate-is_high_alert slos prom service window remaining r h =
      elim (Option-cases (prom.get_error_rate service)) [
        | inl e ↦ absurd (cc (rw (e, calculate_burn_rate) at h))
        | inr (x, e) ↦
            let rate = burn_rate_of fl (target_or fl (lit 999 3) (lookup service slos)) x in
            subst
              (λ (b : BurnRateReport F).
                b.is_high_alert
                ≡ (leb_ℤ window (pos (6 * hour)) && lt (lit 6 0) b.current_burn_rate))
              (report_eq rate (rw (e, calculate_burn_rate) at h)) (high_alert_lem window rate)
      ]
    where
      report_eq :
          (rate : F)
          → some (burn_report fl service window remaining rate) ≡ some r
          → burn_report fl service window remaining rate ≡ r
      report_eq rate h = cc h
