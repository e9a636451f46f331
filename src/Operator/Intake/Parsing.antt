-- ===== src/Operator/Intake/Parsing.antt =====
-- internal/operator/alert/parser.go: which payloads are parsed, and into what.
use summer_project.Prelude.{
  ℕ, suc, ◌≡◌, ◌≢◌, refl, sym, ap, ◌∙◌, ◌⊎◌, inl, inr, ◌↔◌, some, Bool-cases, List, [], ◌∷◌, All,
  map, arith,
}
use summer_project.Prelude.Text.{str_eq, eq_iff, str_eq-false}
use summer_project.Operator.Models.{Time, Alert}
use summer_project.Operator.Helm.{ok, Result-cases}
use summer_project.Operator.Intake.{
  RawAlert, AlertmanagerPayload, label, service_of, alert_of, parse_alert, parse_alerts,
  parse_listed, parse,
}

pub record IsComplete (r : RawAlert) : Type 0 where
  pub fingerprinted : r.fingerprint ≢ ""
  pub known : (r.status ≡ "firing") ⊎ (r.status ≡ "resolved")
  pub named : label "alertname" r ≢ ""
  pub of_service : service_of r ≢ ""

parse_alert_iff :
    (now : Time) (i : ℕ) (r : RawAlert) (a : Alert)
    → (parse_alert now i r ≡ ok a) ↔ (IsComplete r × (a ≡ alert_of now r))
unfolding parse_alert
parse_alert_iff now i r a = (
  λ h. (
    record {
      fingerprinted = λ e. ground (arith, eq_iff r.fingerprint "");
      known = ground (arith, eq_iff r.status "firing", eq_iff r.status "resolved");
      named = λ e. ground (arith, eq_iff (label "alertname" r) "");
      of_service = λ e. ground (arith, eq_iff (service_of r) "");
    },
    ground arith,
  ),
  λ (c, e). ground (
    arith,
    e,
    c.known,
    str_eq-false r.fingerprint "" c.fingerprinted,
    str_eq-false (label "alertname" r) "" c.named,
    str_eq-false (service_of r) "" c.of_service,
    eq_iff r.status "firing",
    eq_iff r.status "resolved",
  ),
)

parse_alerts-ok :
    (now : Time) (i : ℕ) (rs : List RawAlert)
    → All IsComplete rs
    → parse_alerts now i rs ≡ ok (map (alert_of now) rs)
unfolding parse_alerts
parse_alerts-ok now i [] c = refl
parse_alerts-ok now i (r ∷ rs) c = ground (
  arith,
  (parse_alert_iff now i r (alert_of now r)).1 (c.0, refl),
  parse_alerts-ok now (suc i) rs c.1,
)

parse_alerts-IsComplete :
    (now : Time) (i : ℕ) (rs : List RawAlert) (alerts : List Alert)
    → parse_alerts now i rs ≡ ok alerts
    → All IsComplete rs
unfolding parse_alerts
parse_alerts-IsComplete now i [] alerts h = tt
parse_alerts-IsComplete now i (r ∷ rs) alerts h = elim (Result-cases (parse_alert now i r)) [
  | inr (e, bad) ↦ absurd (cc (rw (bad, parse_alerts) at h))
  | inl (a, good) ↦ elim (Result-cases (parse_alerts now (suc i) rs)) [
    | inr (e, bad) ↦ absurd (cc (rw (good, bad, parse_alerts) at h))
    | inl (more, rest) ↦
        (((parse_alert_iff now i r a).0 good).0, parse_alerts-IsComplete now (suc i) rs more rest)
  ]
]

abbrev Taken : Time → List RawAlert → List Alert → Type 0
Taken now rs alerts = (rs ≢ []) × All IsComplete rs × (alerts ≡ map (alert_of now) rs)

parse_listed_iff :
    (now : Time) (rs : List RawAlert) (alerts : List Alert)
    → (parse_listed now rs ≡ ok alerts) ↔ Taken now rs alerts
unfolding parse_listed
parse_listed_iff now [] alerts = (λ h. absurd (cc h), λ t. absurd (t.0 refl))
parse_listed_iff now (r ∷ rs) alerts = (
  λ h.
      let complete = parse_alerts-IsComplete now 0 (r ∷ rs) alerts h in
      (λ e. cc e, complete, cc (h, parse_alerts-ok now 0 (r ∷ rs) complete)),
  λ t. parse_alerts-ok now 0 (r ∷ rs) t.1 ∙ ap ok (sym t.2),
)

-- Parse succeeds exactly on a payload that has a version and at least one alert, each of them with a
-- fingerprint, a known status, a name and a service; what it then answers is, in their order, the
-- translation of each.
pub parse_iff :
    (now : Time) (p : AlertmanagerPayload) (alerts : List Alert)
    → (parse now (some p) ≡ ok alerts) ↔ (
        (p.version ≢ "")
        × (p.alerts ≢ [])
        × All IsComplete p.alerts
        × (alerts ≡ map (alert_of now) p.alerts))
unfolding parse
parse_iff now p alerts = elim (Bool-cases (str_eq p.version "")) [
  | inl missing ↦
      rw missing (λ h. absurd (cc h), λ t. absurd (t.0 ((eq_iff p.version "").0 missing)))
  | inr there ↦
      let (parsed, parsed') = parse_listed_iff now p.alerts alerts in
      rw there (
        λ h.
            let (some_alert, complete, e) = parsed h in
            (λ v. cc (there, (eq_iff p.version "").1 v), some_alert, complete, e),
        λ t. parsed' (t.1, t.2, t.3),
      )
]
