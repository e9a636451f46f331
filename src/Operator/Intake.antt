-- ===== src/Operator/Intake.antt =====
-- internal/operator/alert/parser.go and webhook/handler.go: how a webhook call becomes alerts. The clock is
-- an argument, and so is what the JSON decoder makes of the body. Annotations and the generator's URL are
-- copied and nowhere read; they are left out, as are the trace id and the log lines.
pub mod Parsing
mod Examples
use summer_project.Prelude.{
  ℕ, suc, Bool, true, false, not, ◌&&◌, ◌||◌, if◌then◌else◌, Option, none, some, List, [], ◌∷◌,
  String,
}
use summer_project.Prelude.Int.{ℤ, pos, eqb_ℤ}
use summer_project.Prelude.Text.{str_eq, sprint, show_ℕ}
use summer_project.Prelude.Maps.{Map, lookup}
use summer_project.Operator.Models.{Time, Alert}
use summer_project.Operator.Helm.{Result, ok, err}

pub record RawAlert : Type 0 where
  pub status : String
  pub labels : Map String
  pub starts_at : Time
  pub ends_at : Time
  pub fingerprint : String

pub record AlertmanagerPayload : Type 0 where
  pub version : String
  pub alerts : List RawAlert

-- Indexing a map of texts gives "" for a missing key.
abbrev text_or_empty : Option String → String
text_or_empty none = ""
text_or_empty (some s) = s

abbrev pub label : String → RawAlert → String
label key r = text_or_empty (lookup key r.labels)

abbrev pub or_else : String → String → String
or_else s t = if str_eq s "" then t else s

-- helm_release comes before service, and service before app.
abbrev pub service_of : RawAlert → String
service_of r = or_else (or_else (label "helm_release" r) (label "service" r)) (label "app" r)

abbrev pub is_zero : Time → Bool
is_zero t = eqb_ℤ t (pos 0)

abbrev pub alert_of : Time → RawAlert → Alert
alert_of now r = record {
  fingerprint = r.fingerprint;
  name = label "alertname" r;
  service = service_of r;
  severity = or_else (label "severity" r) "warning";
  status = r.status;
  starts_at = if is_zero r.starts_at then now else r.starts_at;
  ends_at = r.ends_at;
}

abbrev pub at_index : ℕ → List String → String
at_index i what = sprint ("alert at index " ∷ show_ℕ i ∷ what)

-- The body of the loop.
unfoldable pub parse_alert : Time → ℕ → RawAlert → Result Alert
parse_alert now i r =
    if str_eq r.fingerprint ""
    then err (at_index i (" is missing fingerprint" ∷ []))
    else if not (str_eq r.status "firing") && not (str_eq r.status "resolved")
    then err (at_index i (" has invalid status: \"" ∷ r.status ∷ "\"" ∷ []))
    else if str_eq (label "alertname" r) ""
    then err (at_index i (" is missing alertname label" ∷ []))
    else if str_eq (service_of r) ""
    then err (at_index i (" is missing service/app/helm_release label" ∷ []))
    else ok (alert_of now r)

abbrev then_cons : Alert → Result (List Alert) → Result (List Alert)
then_cons a (ok alerts) = ok (a ∷ alerts)
then_cons a (err e) = err e

-- The clock is read once for all alerts here; it only replaces a missing start.
unfoldable pub parse_alerts : Time → ℕ → List RawAlert → Result (List Alert)
parse_alerts now i [] = ok []
parse_alerts now i (r ∷ rs) =
    let rest = parse_alerts now (suc i) rs in
    elim (parse_alert now i r) [ err e ↦ err e | ok a ↦ then_cons a rest ]

parse_listed : Time → List RawAlert → Result (List Alert)
parse_listed now [] = err "payload contains no alerts"
parse_listed now (r ∷ rs) = parse_alerts now 0 (r ∷ rs)

-- none is the nil payload.
unfoldable pub parse : Time → Option AlertmanagerPayload → Result (List Alert)
unfolding parse_listed
parse now none = err "nil payload"
parse now (some p) =
    if str_eq p.version ""
    then err "missing version in Alertmanager payload"
    else parse_listed now p.alerts

-- The answer of the webhook, and the alerts that are handed to ProcessAlert, each in a goroutine.
pub record Response : Type 0 where
  pub status : ℕ
  pub processed : List Alert

abbrev respond : Result (List Alert) → Response
respond (ok alerts) = record { status = 200; processed = alerts }
respond (err e) = record { status = 400; processed = [] }

abbrev decoded_response : Time → Option AlertmanagerPayload → Response
decoded_response now none = record { status = 400; processed = [] }
decoded_response now (some p) = respond (parse now (some p))

-- The body is none where it does not decode.
unfoldable pub serve_http : Time → String → Option AlertmanagerPayload → Response
serve_http now http_method body =
    if str_eq http_method "POST"
    then decoded_response now body
    else record { status = 405; processed = [] }
