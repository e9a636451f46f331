-- ===== src/Operator/Pipeline/Closing.antt =====
-- The end of a recovery pipeline: the incident's state, the history it records, the requests it made.
use summer_project.Prelude.{
  ℕ, Option, ◌+◌, ◌≤◌, Bool, true, false, ◌≡◌, refl, ap, List, [], ◌∷◌, ◌++◌, String, arith, length,
  none,
}
use summer_project.Prelude.Int.{ℤ}
use summer_project.Operator.Models.{
  Time, healthy, recovery_planned, verifying, waiting, recovered, failed, Incident, RecoveryPlan,
  RollbackHistory,
}
use summer_project.Operator.Incidents.{Store}
use summer_project.Operator.StateMachine.{is_transition_allowed}
use summer_project.Operator.Cooldown.{CooldownManager, try_start_execution}
use summer_project.Operator.Pipeline.{
  Coordinate, Attempt, Run, End, again, max_attempts, Pipeline, summary, finish, gated,
  run_recovery_pipeline,
}
use summer_project.Operator.Pipeline.Ends.{
  allowed_move, moves_on, Closes, closes_verified, closes_exhausted, goes_again, first, Closes-mono,
  attempts-Closes,
}

-- How a pipeline may end: suppressed at the gate; or with the incident resolved, or failed, and one
-- entry of that verdict in the rollback history.
pub data PipelineEnd (open_gate : Bool) (rollbacks : List RollbackHistory) (most : ℕ) (p : Pipeline)
    : Type 0 where
  suppressed :
      open_gate ≡ false
      → p.incident.current_state ≡ waiting
      → p.rollbacks ≡ rollbacks
      → p.requests ≡ []
      → p.peers ≡ []
      → PipelineEnd open_gate rollbacks most p
  resolved :
      open_gate ≡ true
      → p.incident.current_state ≡ healthy
      → p.incident.status ≡ "resolved"
      → (entry : RollbackHistory) → p.rollbacks ≡ rollbacks ++ entry ∷ []
      → entry.verification_result ≡ "Success"
      → length p.requests ≤ most
      → PipelineEnd open_gate rollbacks most p
  given_up :
      open_gate ≡ true
      → p.incident.current_state ≡ failed
      → (entry : RollbackHistory) → p.rollbacks ≡ rollbacks ++ entry ∷ []
      → entry.verification_result ≡ "Failed"
      → length p.requests ≤ most
      → p.peers ≡ []
      → PipelineEnd open_gate rollbacks most p

finish-PipelineEnd :
    (coordinator : Option Coordinate) (start end : Time) (namespace : String) (cm : CooldownManager)
    (rollbacks : List RollbackHistory) (most : ℕ) (e : End)
    → Closes most e
    → PipelineEnd true rollbacks most (finish coordinator start end namespace cm rollbacks e)
unfolding finish is_transition_allowed
finish-PipelineEnd coordinator start end namespace cm rollbacks most _
      (closes_verified run result s few) =
    let better =
      allowed_move end (summary start end namespace run result) recovered "System verified healthy"
        (moves_on _ verifying recovered s refl) in
    let home =
      allowed_move end _ healthy "Incident resolved and archived"
        (moves_on _ recovered healthy better refl) in
    resolved refl home refl _ refl refl few
finish-PipelineEnd coordinator start end namespace cm rollbacks most _
      (closes_exhausted run result may few) =
    given_up refl (allowed_move end _ failed _ may) _ refl refl few refl

gated-PipelineEnd :
    (coordinator : Option Coordinate) (text env : String) (inputs : ℕ → Attempt) (start end : Time)
    (rollbacks : List RollbackHistory) (run : Run) (gate : CooldownManager × Bool × ℤ)
    → run.incident.current_state ≡ recovery_planned
    → run.requests ≡ []
    → PipelineEnd gate.1 rollbacks
        (max_attempts run.plan.retry_policy.max_retries)
        (gated coordinator text env inputs start end rollbacks run gate)
unfolding gated is_transition_allowed
gated-PipelineEnd coordinator text env inputs start end rollbacks run (cm, false, left) s quiet =
    suppressed refl
      (allowed_move start run.incident waiting _ (moves_on _ recovery_planned waiting s refl)) refl
      quiet refl
gated-PipelineEnd coordinator text env inputs start end rollbacks run (cm, true, left) s quiet =
    let most = max_attempts run.plan.retry_policy.max_retries in
    finish-PipelineEnd coordinator start end _ cm rollbacks most _ (
      Closes-mono (0 + most) most _ (omega arith) (
        attempts-Closes text env inputs most 1 0 (again run none none)
          (goes_again run none none (first refl refl s) (omega (arith, ap length quiet)))))

-- Whatever Helm, the health checks and the coordinator of peers answer, a pipeline for an incident
-- in the state RecoveryPlanned ends, and closes it: it is suppressed if the gate of its service is
-- shut, with the incident waiting and Helm not asked; else the incident ends healthy and resolved with
-- one success put into the rollback history, or failed with one failure, and Helm was asked for no
-- more rollbacks of the service than the plan allows attempts. Peers are asked to be rolled back only if
-- the incident is resolved.
pub run_recovery_pipeline-PipelineEnd :
    (coordinator : Option Coordinate) (text env : String) (inputs : ℕ → Attempt) (start end : Time)
    (cm : CooldownManager) (store : Store) (rollbacks : List RollbackHistory) (i : Incident)
    (plan : RecoveryPlan)
    → i.current_state ≡ recovery_planned
    → PipelineEnd
        (try_start_execution start cm plan.service_id plan.cooldown).1
        rollbacks
        (max_attempts plan.retry_policy.max_retries)
        (run_recovery_pipeline coordinator text env inputs start end cm store rollbacks i plan)
unfolding run_recovery_pipeline
run_recovery_pipeline-PipelineEnd coordinator text env inputs start end cm store rollbacks i plan
      s =
    gated-PipelineEnd coordinator text env inputs start end rollbacks _ _ s refl
