-- ===== src/Operator/Pipeline/Examples.antt =====
-- A pipeline whose first rollback does not help and whose second does, and the theorem at it.
use summer_project.Prelude.{
  ℕ, zero, suc, ◌≡◌, refl, Bool, true, false, none, some, [], ◌∷◌, String, if◌then◌else◌, arith,
}
use summer_project.Prelude.Int.{ℤ, pos, ◌+ℤ◌, ◌-ℤ◌, int_laws}
use summer_project.Prelude.Text.{str_eq, show_ℤ, show_ℕ}
use summer_project.Prelude.Maps.{lookup, insert}
use summer_project.Operator.Models.{recovery_planned, healthy}
use summer_project.Operator.Incidents.{update}
use summer_project.Operator.StateMachine.{transition, is_transition_allowed}
use summer_project.Operator.Helm.{ok, Release, deployed}
use summer_project.Operator.Executor.{HelmClient, execute}
use summer_project.Operator.Cooldown.{try_start_execution}
use summer_project.Operator.Samples.{incident_in, order_plan}
use summer_project.Operator.Pipeline.{max_attempts, Attempt, Pipeline, run_recovery_pipeline}
use summer_project.Operator.Pipeline.Peers.{coordinate, PeersEnd, run_recovery_pipeline-PeersEnd}
use summer_project.Operator.Coordinator.{
  HelmOps, Coordinator, find_deployed, deploy_time, attempted, targeted, gated, dated, at_revision,
  consider_peer, consider_peers, batch_at, rollback_batch_peers,
}
use summer_project.Prelude.Milli.{milli}
use summer_project.Operator.Pipeline.Verified.{
  Check, Sight, attempt_of, RecordedBy, run_recovery_pipeline-RecordedBy,
}
use summer_project.Operator.Pipeline.Closing.{PipelineEnd, run_recovery_pipeline-PipelineEnd}

abbrev helm_at : ℤ → ℤ → HelmClient
helm_at current target = record {
  current_revision = λ _ _. ok current;
  last_healthy_revision = λ _ _. ok target;
  rollback = λ _ _ _. none;
}

abbrev attempt_with : ℤ → ℤ → Bool → Attempt
attempt_with current target passes = record {
  retried_at = pos 3000;
  started_at = pos 3001;
  ended_at = pos 3002;
  verified_at = pos 3003;
  helm = helm_at current target;
  first_check = false;
  checks = false ∷ passes ∷ [];
}

abbrev inputs : ℕ → Attempt
inputs zero = attempt_with (pos 5) (pos 4) false
inputs (suc zero) = attempt_with (pos 5) (pos 4) false
inputs (suc (suc n)) = attempt_with (pos 6) (pos 5) true

abbrev run : Pipeline
run =
    run_recovery_pipeline none "1m0s" "" inputs (pos 2500) (pos 4000) [] [] []
      (incident_in recovery_planned) order_plan

run_test : (run.incident.current_state ≡ healthy) × (run.requests ≡ pos 4 ∷ pos 5 ∷ [])
unfolding run_recovery_pipeline transition is_transition_allowed update lookup execute
    try_start_execution ◌+ℤ◌ ◌-ℤ◌ show_ℤ show_ℕ
run_test = (refl, refl)

run_recovery_pipeline-PipelineEnd_example : PipelineEnd true [] 2 run
unfolding try_start_execution lookup
run_recovery_pipeline-PipelineEnd_example =
    run_recovery_pipeline-PipelineEnd none "1m0s" "" inputs (pos 2500) (pos 4000) [] [] []
      (incident_in recovery_planned) order_plan refl

abbrev released : ℤ → Release String
released version = record {
  version = version;
  config = none;
  info = some (record { status = deployed; last_deployed = pos 1000 });
}

-- The gateway is at its first revision, and the payments were released with the order service.
abbrev peer_answers : HelmOps String
peer_answers = record {
  get_history = λ s. ok (released (pos 4) ∷ []);
  get_current_revision = λ s. ok (pos (if str_eq s "api-gateway" then 1 else 4));
  get_last_healthy_revision = λ s. ok (pos 3);
  rollback = λ s v. none;
}

-- The service calls itself, too.
abbrev coordinator : Coordinator
coordinator = record {
  graph = record {
    parents_of = λ s. "api-gateway" ∷ "order-service" ∷ [];
    children_of = λ s. "payment-service" ∷ [];
    upstream_of = λ s. [];
    downstream_of = λ s. [];
  };
  batch_window = pos 500;
  gate_window = pos 5000;
}

abbrev batch_run : Pipeline
batch_run =
    run_recovery_pipeline
      (some (
        coordinate show_ℤ (λ _. pos 3500) (λ _. peer_answers) coordinator
          (ok (released (pos 6) ∷ []))))
      "1m0s" "" inputs (pos 2500) (pos 4000) [] [] [] (incident_in recovery_planned) order_plan

batch_test : batch_run.peers ≡ ("payment-service", pos 3) ∷ []
unfolding run_recovery_pipeline transition is_transition_allowed update lookup execute
    try_start_execution ◌+ℤ◌ ◌-ℤ◌ show_ℤ show_ℕ rollback_batch_peers batch_at consider_peers
    consider_peer at_revision dated gated targeted attempted deploy_time find_deployed insert
batch_test = refl

run_recovery_pipeline-PeersEnd_example :
    PeersEnd show_ℤ
      (λ _. pos 3500)
      (λ _. peer_answers)
      coordinator
      (ok (released (pos 6) ∷ []))
      ""
      inputs
      (max_attempts order_plan.retry_policy.max_retries)
      "order-service"
      batch_run
run_recovery_pipeline-PeersEnd_example =
    run_recovery_pipeline-PeersEnd show_ℤ (λ _. pos 3500) (λ _. peer_answers) coordinator
      (ok (released (pos 6) ∷ [])) (pos 3500) (λ i. (omega arith, omega int_laws)) "1m0s" "" inputs
      (pos 2500) (pos 4000) [] [] [] (incident_in recovery_planned) order_plan (omega int_laws)

-- Prometheus says of the first check that the alert fires, and of the next that it does not.
abbrev check_when : ℤ → Check milli
check_when firing = record {
  cluster = record {
    deployment =
        ok (record { desired = some (pos 1); replicas = pos 1; ready = pos 1; updated = pos 1 });
    selector = none;
    pods = ok (record { phase = "Running"; container_statuses = [] } ∷ []);
  };
  client = some (λ name. ok firing);
}

abbrev sights : ℕ → Sight milli
sights k = record {
  retried_at = pos 3000;
  started_at = pos 3001;
  ended_at = pos 3002;
  verified_at = pos 3003;
  helm = helm_at (pos 5) (pos 4);
  first = check_when (pos 1000);
  later = check_when (pos 0) ∷ [];
}

run_recovery_pipeline-RecordedBy_example : RecordedBy milli "HighErrorRate" sights [] (
    run_recovery_pipeline none "1m0s" ""
      (λ k. attempt_of milli "HighErrorRate" (sights k))
      (pos 2500)
      (pos 4000)
      []
      []
      []
      (incident_in recovery_planned)
      order_plan)
run_recovery_pipeline-RecordedBy_example =
    run_recovery_pipeline-RecordedBy milli sights none "1m0s" "" (pos 2500) (pos 4000) [] [] []
      (incident_in recovery_planned) order_plan
