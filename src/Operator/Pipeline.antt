-- ===== src/Operator/Pipeline.antt =====
-- internal/operator/incident/manager.go: runRecoveryPipeline, the attempts at a recovery and how they
-- end. Of each attempt the clock, Helm's answers and the health checks are arguments. The coordinator of
-- peers is an interface, which Pipeline/Peers fills by internal/operator/dependency/coordinator.go. The
-- background context is never cancelled. Logs, metrics, timeline lines and the knowledge base are left out.
pub mod Ends
pub mod Closing
pub mod Faulty
pub mod Peers
pub mod Verified
mod Examples
use summer_project.Prelude.{
  ℕ, zero, suc, ltb, Bool, true, false, ◌&&◌, ◌||◌, if◌then◌else◌, Option, none, some, List, [],
  ◌∷◌, ◌++◌, String,
}
use summer_project.Prelude.Int.{ℤ, pos, negsuc, ◌-ℤ◌}
use summer_project.Prelude.Text.{sprint, show_ℕ}
use summer_project.Operator.Models.{
  Time, Action, prepare_rollback, verifying, verification_failed, retrying, waiting, recovered,
  healthy, failed, Incident, RecoveryPlan, RecoveryResult, RollbackHistory,
}
use summer_project.Operator.Incidents.{Store, update}
use summer_project.Operator.StateMachine.{transition}
use summer_project.Operator.Cooldown.{CooldownManager, try_start_execution}
use summer_project.Operator.Executor.{HelmClient, Execution, execute, resolve_release_and_namespace}
use summer_project.Operator.Decision.{action_text}
use summer_project.Operator.Retry.{is_transient}
use summer_project.Operator.Coordinator.{Batch}

-- What one attempt meets: `checks` are those after the first that come before the timeout.
pub record Attempt : Type 0 where
  pub retried_at : Time
  pub started_at : Time
  pub ended_at : Time
  pub verified_at : Time
  pub helm : HelmClient
  pub first_check : Bool
  pub checks : List Bool

-- What an attempt changes: the plan and the incident that all share, the store, and the revisions that
-- Helm was asked to roll back to, the newest last.
pub record Run : Type 0 where
  pub plan : RecoveryPlan
  pub incident : Incident
  pub store : Store
  pub requests : List ℤ

abbrev pub saved : Run → Incident → Run
saved run i = record run { incident = i; store = (update run.store i).0 }

-- How the attempts end: verified, or without success.
pub data End : Type 0 where
  verified : Run → Option RecoveryResult → End
  exhausted : Run → Option RecoveryResult → End

-- What follows an attempt: its end, or one more attempt with the last error and result.
pub data Next : Type 0 where
  done : End → Next
  again : Run → Option String → Option RecoveryResult → Next

abbrev pub any_passed : List Bool → Bool
any_passed [] = false
any_passed (b ∷ bs) = b || any_passed bs

-- The move to Retrying, from the second attempt on.
retry_move : ℕ → Time → Run → Option String → Run
retry_move attempt now run none = run
retry_move attempt now run (some e) =
    if ltb 1 attempt
    then saved run
        (transition now run.incident retrying
          (sprint ("Retrying rollback attempt " ∷ show_ℕ attempt ∷ " after error: " ∷ e ∷ []))).0
    else run

-- After a rollback: verify, and on a timeout fail the attempt.
verify_attempt : String → Attempt → Run → Option RecoveryResult → Next
verify_attempt timeout_text a run result =
    let checking =
      saved run (transition a.ended_at run.incident verifying "Validating system health").0 in
    if a.first_check || any_passed a.checks
    then done (verified checking result)
    else again
        (saved checking
          (transition a.verified_at checking.incident verification_failed
            "System failed readiness checks").0)
        (some (sprint ("verification timed out after " ∷ timeout_text ∷ []))) result

-- After Execute.
after_execution : String → Attempt → Run → Option RecoveryResult → Option String → Next
unfolding verify_attempt
after_execution timeout_text a run result (some e) =
    if is_transient (some e) then again run (some e) result else done (exhausted run result)
after_execution timeout_text a run result none = verify_attempt timeout_text a run result

abbrev asked_for : Option ℤ → List ℤ → List ℤ
asked_for none requests = requests
asked_for (some v) requests = requests ++ v ∷ []

abbrev pub executed : Run → Execution → Run
executed run x = record {
  plan = x.plan;
  incident = x.incident;
  store = (update run.store x.incident).0;
  requests = asked_for x.requested run.requests;
}

next_attempt : String → String → Attempt → ℕ → Run → Option String → Next
unfolding retry_move after_execution
next_attempt timeout_text env a attempt run last =
    let begun = retry_move attempt a.retried_at run last in
    let x = execute a.started_at a.ended_at env a.helm begun.plan begun.incident in
    after_execution timeout_text a (executed begun x) x.result x.error

-- The loop, over the number of attempts that are left and the number of the next one.
pub attempts : String → String → (ℕ → Attempt) → ℕ → ℕ → Next → End
unfolding next_attempt
attempts timeout_text env inputs n k (done end) = end
attempts timeout_text env inputs zero k (again run last result) = exhausted run result
attempts timeout_text env inputs (suc n) k (again run last result) =
    attempts timeout_text env inputs n (suc k) (next_attempt timeout_text env (inputs k) k run last)

-- At least one attempt is made.
abbrev pub max_attempts : ℤ → ℕ
max_attempts (pos zero) = 1
max_attempts (pos (suc n)) = suc n
max_attempts (negsuc n) = 1

pub record Pipeline : Type 0 where
  pub cooldown : CooldownManager
  pub incident : Incident
  pub store : Store
  pub rollbacks : List RollbackHistory
  pub requests : List ℤ
  pub peers : List (String × ℤ)

abbrev old_of : Option RecoveryResult → ℤ
old_of none = pos 0
old_of (some r) = r.old_revision

abbrev new_of : Option RecoveryResult → ℤ
new_of none = pos 0
new_of (some r) = r.rollback_revision

abbrev message_of : Option RecoveryResult → String
message_of none = ""
message_of (some r) = r.message

abbrev pub history_entry :
    Time → Time → String → Run → Option RecoveryResult → String → String → RollbackHistory
history_entry start end namespace run result verdict version = record {
  incident_id = run.incident.id;
  service = run.plan.service_id;
  namespace = namespace;
  helm_release = run.plan.service_id;
  old_revision = old_of result;
  rollback_revision = new_of result;
  start_time = start;
  finish_time = end;
  recovery_duration = end -ℤ start;
  verification_result = verdict;
  operator_version = version;
}

-- The incident's summary of a success.
abbrev summary : Time → Time → String → Run → Option RecoveryResult → Incident
summary start end namespace run result = record run.incident {
  end_time = end;
  duration = end -ℤ start;
  root_cause =
      sprint
        ("High failure rate/latency SLO violation detected on " ∷ run.plan.service_id ∷ "." ∷ []);
  decision = action_text run.plan.desired_action;
  recovery_action = "Helm Rollback";
  helm_release = run.plan.service_id;
  rollback_revision = new_of result;
  verification_result = "Success";
  operator_version = "1.0.0";
  recovery_confidence = 95;
  namespace = namespace;
}

-- RollbackBatchPeers, on the gate, for the failed service and its faulty revision.
abbrev pub Coordinate : Type 0
Coordinate = CooldownManager → String → ℤ → Batch

abbrev no_batch : CooldownManager → Batch
no_batch cm = record { gate = cm; results = []; asked = [] }

abbrev is_rollback : Action → Bool
is_rollback prepare_rollback = true
is_rollback _ = false

-- The peers that were released with the faulty revision. A manager may have no coordinator.
abbrev pub batch_of : Option Coordinate → CooldownManager → Run → Option RecoveryResult → Batch
batch_of none cm run result = no_batch cm
batch_of (some coordinate) cm run result =
    if is_rollback run.plan.desired_action
    then coordinate cm run.plan.service_id (old_of result)
    else no_batch cm

pub finish :
    Option Coordinate
    → Time
    → Time
    → String
    → CooldownManager
    → List RollbackHistory
    → End
    → Pipeline
finish coordinator start end namespace cm rollbacks (verified run result) =
    let batch = batch_of coordinator cm run result in
    let better =
      (transition end (summary start end namespace run result) recovered
        "System verified healthy").0 in
    let home = (transition end better healthy "Incident resolved and archived").0 in
    let closed = record home { status = "resolved" } in
    record {
      cooldown = batch.gate;
      incident = closed;
      store = (update run.store closed).0;
      rollbacks =
          rollbacks
          ++ history_entry start end namespace run result "Success" (message_of result) ∷ [];
      requests = run.requests;
      peers = batch.asked;
    }
finish coordinator start end namespace cm rollbacks (exhausted run result) =
    let ended = record run.incident {
      end_time = end;
      duration = end -ℤ run.incident.start_time;
      verification_result = "Failed";
    } in
    let given_up =
      (transition end ended failed
        "Recovery failed or max retries exceeded. Manual intervention needed.").0 in
    record {
      cooldown = cm;
      incident = given_up;
      store = (update run.store given_up).0;
      rollbacks = rollbacks ++ history_entry start end namespace run result "Failed" "" ∷ [];
      requests = run.requests;
      peers = [];
    }

-- On what the gate answers.
pub gated :
    Option Coordinate
    → String
    → String
    → (ℕ → Attempt)
    → Time
    → Time
    → List RollbackHistory
    → Run
    → CooldownManager × Bool × ℤ
    → Pipeline
unfolding finish attempts
gated coordinator timeout_text env inputs start end rollbacks run (cm, false, remaining) =
    let suppressed =
      (transition start run.incident waiting
        "Recovery suppressed: service already recovered within cooldown window").0 in
    record {
      cooldown = cm;
      incident = suppressed;
      store = (update run.store suppressed).0;
      rollbacks = rollbacks;
      requests = run.requests;
      peers = [];
    }
gated coordinator timeout_text env inputs start end rollbacks run (cm, true, remaining) =
    finish coordinator start end (resolve_release_and_namespace env run.plan.service_id).1 cm
      rollbacks
      (attempts timeout_text env inputs (max_attempts run.plan.retry_policy.max_retries) 1
        (again run none none))

unfoldable pub run_recovery_pipeline :
    Option Coordinate
    → String
    → String
    → (ℕ → Attempt)
    → Time
    → Time
    → CooldownManager
    → Store
    → List RollbackHistory
    → Incident
    → RecoveryPlan
    → Pipeline
unfolding gated
run_recovery_pipeline coordinator timeout_text env inputs start end cm store rollbacks i plan =
    gated coordinator timeout_text env inputs start end rollbacks
      (record { plan = plan; incident = i; store = store; requests = [] })
      (try_start_execution start cm plan.service_id plan.cooldown)
