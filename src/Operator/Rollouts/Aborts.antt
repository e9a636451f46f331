-- ===== src/Operator/Rollouts/Aborts.antt =====
-- internal/operator/progressive/manager.go: the recovery that an automatic abort starts in a goroutine, over
-- internal/operator/executor.
use summer_project.Prelude.{◌*◌, ◌≡◌, refl, none, some, [], ◌∷◌, String}
use summer_project.Prelude.Int.{pos}
use summer_project.Prelude.Text.{sprint}
use summer_project.Operator.Models.{Time, warning, prepare_rollback, Incident, RecoveryPlan, minute}
use summer_project.Operator.StateMachine.{transition}
use summer_project.Operator.Executor.{HelmClient, Execution, execute}

abbrev pub abort_id : String → String
abort_id release = sprint ("abort-" ∷ release ∷ [])

abbrev pub abort_plan : String → RecoveryPlan
abort_plan release = record {
  id = abort_id release;
  service_id = release;
  desired_action = prepare_rollback;
  priority = 0;
  timeout = pos (5 * minute);
  verification_window = pos 0;
  retry_policy = record { max_retries = pos 0; backoff = pos 0 };
  cooldown = pos 0;
  target_revision = none;
  execution_state = "";
  created_at = pos 0;
}

abbrev pub abort_incident : String → Incident
abort_incident release = record {
  id = abort_id release;
  alert_id = "";
  service = release;
  severity = "";
  alert_name = "";
  start_time = pos 0;
  last_update = pos 0;
  status = "";
  current_state = warning;
  history = [];
  recovery_attempts = pos 0;
  decision_history = [];
  namespace = "";
  root_cause = "";
  decision = "";
  recovery_action = "";
  helm_release = "";
  rollback_revision = pos 0;
  end_time = pos 0;
  duration = pos 0;
  verification_result = "";
  operator_version = "";
  recovery_confidence = 0;
}

-- What the goroutine runs; what it returns is dropped.
unfoldable pub abort_recovery : Time → Time → String → HelmClient → String → Execution
abort_recovery start end env helm release =
    execute start end env helm (abort_plan release) (abort_incident release)

-- Whatever Helm would answer, the recovery that an automatic abort starts asks Helm for no rollback: its
-- incident is in the state Warning, from which the state machine does not allow a rollback, and the
-- error is dropped.
pub abort_recovery_refused :
    (start end : Time) (env : String) (helm : HelmClient) (release : String)
    → ((abort_recovery start end env helm release).requested ≡ none)
      × ((abort_recovery start end env helm release).incident ≡ abort_incident release)
      × ((e : String) × ((abort_recovery start end env helm release).error ≡ some e))
unfolding abort_recovery execute transition
abort_recovery_refused start end env helm release = (refl, refl, (_, refl))
