-- ===== src/Operator/Verification/Examples.antt =====
-- Checks of internal/operator/verification/engine.go, and the theorem at one.
use summer_project.Prelude.{◌≡◌, ◌↔◌, refl, true, false, none, some, [], ◌∷◌, String}
use summer_project.Prelude.Int.{ℤ, pos}
use summer_project.Prelude.Milli.{milli}
use summer_project.Operator.Helm.{Result, ok, err}
use summer_project.Operator.Verification.{
  Cluster, ContainerStatus, containers_pass, pods_pass, verify, verify_release, verify_slo,
  verify_health_and_slo,
}
use summer_project.Operator.Verification.Health.{IsUp, IsQuiet, verify_health_and_slo_iff}

abbrev cluster_with : ContainerStatus → Cluster
cluster_with status = record {
  deployment =
      ok (record { desired = some (pos 1); replicas = pos 1; ready = pos 1; updated = pos 1 });
  selector = none;
  pods = ok (record { phase = "Running"; container_statuses = status ∷ [] } ∷ []);
}

abbrev up : ContainerStatus
up = record { ready = true; waiting = none }

abbrev firing : ℤ → String → Result ℤ
firing n alert_name = ok n

still_firing_test :
    verify_health_and_slo milli (cluster_with up) (some (firing (pos 1000))) "HighErrorRate"
    ≡ (false, none)
unfolding verify_health_and_slo verify verify_slo containers_pass pods_pass
still_firing_test = refl

-- Neither Kubernetes nor Prometheus answers, and the release counts as verified.
unanswered_test :
    verify_release milli (err "connection refused") none
    ≡ (true, "Release successfully verified and stable")
unfolding verify_release
unanswered_test = refl

verify_health_and_slo_iff_example :
    ((verify_health_and_slo milli (cluster_with up) (some (firing (pos 0))) "HighErrorRate").0
      ≡ true)
    ↔ (IsUp (cluster_with up) × IsQuiet milli (some (firing (pos 0))) "HighErrorRate")
verify_health_and_slo_iff_example =
    verify_health_and_slo_iff milli (cluster_with up) (some (firing (pos 0))) "HighErrorRate"
