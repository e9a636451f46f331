-- ===== src/Operator/Verification.antt =====
-- internal/operator/verification/engine.go, and VerifyRelease of internal/operator/progressive/verification.go:
-- whether a service is healthy again. What Kubernetes, Prometheus and the engine of targets answer is an
-- argument. Metrics and log lines are left out.
pub mod Health
mod Examples
use summer_project.Prelude.{
  ℕ, ◌*◌, Bool, true, false, not, ◌&&◌, ◌||◌, if◌then◌else◌, Option, none, some, List, [], ◌∷◌,
  String,
}
use summer_project.Prelude.Int.{ℤ, ltb_ℤ}
use summer_project.Prelude.Text.{str_eq, sprint, show_ℤ}
use summer_project.Prelude.Float.{Float64}
use summer_project.Operator.Helm.{Result, ok, err}
use summer_project.Operator.Reports.{SloReport}

-- The fields of Kubernetes' objects that the code reads; `desired` is none for a nil pointer.
pub record Deployment : Type 0 where
  pub desired : Option ℤ
  pub replicas : ℤ
  pub ready : ℤ
  pub updated : ℤ

pub record ContainerStatus : Type 0 where
  pub ready : Bool
  pub waiting : Option String

pub record Pod : Type 0 where
  pub phase : String
  pub container_statuses : List ContainerStatus

-- What Kubernetes answers in one check; `selector` is the error of its compilation.
pub record Cluster : Type 0 where
  pub deployment : Result Deployment
  pub selector : Option String
  pub pods : Result (List Pod)

-- The Boolean and the error.
abbrev pub Verdict : Type 0
Verdict = Bool × Option String

abbrev pub is_critical : Option String → Bool
is_critical none = false
is_critical (some reason) =
    str_eq reason "CrashLoopBackOff"
    || str_eq reason "ImagePullBackOff"
    || str_eq reason "ErrImagePull"

abbrev pub container_passes : ContainerStatus → Bool
container_passes status =
    if not status.ready then false else if is_critical status.waiting then false else true

unfoldable pub containers_pass : List ContainerStatus → Bool
containers_pass [] = true
containers_pass (status ∷ statuses) =
    let rest = containers_pass statuses in if container_passes status then rest else false

unfoldable pub pods_pass : List Pod → Bool
pods_pass [] = true
pods_pass (pod ∷ pods) =
    let rest = pods_pass pods in
    if not (str_eq pod.phase "Running")
    then false
    else if containers_pass pod.container_statuses
    then rest
    else false

with_pods : Result (List Pod) → Verdict
with_pods (err e) = (false, some (sprint ("failed to list pods: " ∷ e ∷ [])))
with_pods (ok []) = (false, none)
with_pods (ok (pod ∷ pods)) = (pods_pass (pod ∷ pods), none)

with_selector : Option String → Result (List Pod) → Verdict
unfolding with_pods
with_selector (some e) pods = (false, some (sprint ("failed to compile selector: " ∷ e ∷ [])))
with_selector none pods = with_pods pods

with_desired : Option ℤ → Deployment → Cluster → Verdict
unfolding with_selector
with_desired none d c = (false, some "deployment Spec.Replicas is nil")
with_desired (some n) d c =
    if ltb_ℤ d.ready n || ltb_ℤ d.updated n then (false, none) else with_selector c.selector c.pods

with_deployment : Result Deployment → Cluster → Verdict
unfolding with_desired
with_deployment (err e) c = (false, some (sprint ("failed to get deployment: " ∷ e ∷ [])))
with_deployment (ok d) c = with_desired d.desired d c

unfoldable pub verify : Cluster → Verdict
unfolding with_deployment
verify c = with_deployment c.deployment c

module _ (fl : Float64) where
  open fl use {F, lit, lt, mul, show2, show3}

  -- The query for the alert's firing instances.
  abbrev pub still_firing : Result F → Verdict
  still_firing (err e) = (true, none)
  still_firing (ok firing) = if lt (lit 0 0) firing then (false, none) else (true, none)

  -- The client is none if none is attached.
  unfoldable pub verify_slo : Option (String → Result F) → String → Verdict
  verify_slo none alert_name = (true, none)
  verify_slo (some query) alert_name =
      if str_eq alert_name "" then (true, none) else still_firing (query alert_name)

  abbrev on_targets : Option (SloReport F) → Bool × String
  on_targets none = (true, "Release successfully verified and stable")
  on_targets (some r) =
      if r.any_violation
      then (
        false,
        sprint (
            "Service is violating active SLO targets (Latency: "
            ∷ show3 r.latency_actual
            ∷ "s, Availability: "
            ∷ show2 (mul r.availability_actual (lit 100 0))
            ∷ "%)"
            ∷ []),
      )
      else (true, "Release successfully verified and stable")

  abbrev pub on_replicas : Result Deployment → Option (SloReport F) → Bool × String
  on_replicas (err e) slo = on_targets slo
  on_replicas (ok d) slo =
      if ltb_ℤ d.ready d.replicas
      then (
        false,
        sprint (
            "Deployment has ready replicas "
            ∷ show_ℤ d.ready
            ∷ " / expected replicas "
            ∷ show_ℤ d.replicas
            ∷ []),
      )
      else on_targets slo

  -- No error is ever returned.
  unfoldable pub verify_release : Result Deployment → Option (SloReport F) → Bool × String
  verify_release deployment slo = on_replicas deployment slo

  -- The manager's check: an attached client is asked only if the pods are healthy.
  abbrev pub after_health : Verdict → Verdict → Verdict
  after_health (true, none) slo = slo
  after_health (healthy, e) slo = (healthy, e)

  unfoldable pub verify_health_and_slo : Cluster → Option (String → Result F) → String → Verdict
  verify_health_and_slo c client alert_name = after_health (verify c) (verify_slo client alert_name)
