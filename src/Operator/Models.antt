-- ===== src/Operator/Models.antt =====
-- The domain types of internal/operator/models/models.go. A time is the number of nanoseconds since
-- Go's zero time, a duration a signed number of nanoseconds.
use summer_project.Prelude.{ℕ, Bool, Option, List, String}
use summer_project.Prelude.Int.{ℤ}

abbrev pub Time : Type 0
Time = ℤ

abbrev pub Duration : Type 0
Duration = ℤ

abbrev pub second : ℕ
second = 1_000_000_000

abbrev pub minute : ℕ
minute = 60_000_000_000

abbrev pub hour : ℕ
hour = 3_600_000_000_000

-- `unset` is the empty string, the zero value of the source's `State`.
pub data State : Type 0 where
  unset healthy warning investigating decision_made recovery_planned executing_rollback : State
  rollback_complete verifying verification_failed retrying waiting recovered failed : State

pub State-discrete : Discrete State
State-discrete = hlevel

pub data Action : Type 0 where
  ignore wait escalate prepare_rollback prepare_restart prepare_scale : Action

pub record Alert : Type 0 where
  pub fingerprint : String
  pub name : String
  pub service : String
  pub severity : String
  pub status : String
  pub starts_at : Time
  pub ends_at : Time

pub record StateTransition : Type 0 where
  pub from_state : State
  pub to_state : State
  pub timestamp : Time
  pub reason : String

pub record RetryPolicy : Type 0 where
  pub max_retries : ℤ
  pub backoff : Duration

-- `target_revision` is none for the empty text, some v for "v<v>".
pub record RecoveryPlan : Type 0 where
  pub id : String
  pub service_id : String
  pub desired_action : Action
  pub priority : ℕ
  pub timeout : Duration
  pub verification_window : Duration
  pub retry_policy : RetryPolicy
  pub cooldown : Duration
  pub target_revision : Option ℤ
  pub execution_state : String
  pub created_at : Time

pub record DecisionEntry : Type 0 where
  pub timestamp : Time
  pub decision : Action
  pub policy_used : String
  pub reason : String
  pub operator_version : String
  pub recovery_plan : Option RecoveryPlan
  pub recovery_target_service_id : String

pub record Policy : Type 0 where
  pub id : String
  pub service : String
  pub alert_name : String
  pub recommended_action : Action
  pub cooldown_duration : Duration
  pub timeout : Duration
  pub max_retries : ℤ

-- The fields that the control plane and the execution plane read or write.
pub record Incident : Type 0 where
  pub id : String
  pub alert_id : String
  pub service : String
  pub severity : String
  pub alert_name : String
  pub start_time : Time
  pub last_update : Time
  pub status : String
  pub current_state : State
  pub history : List StateTransition
  pub recovery_attempts : ℤ
  pub decision_history : List DecisionEntry
  pub namespace : String
  pub root_cause : String
  pub decision : String
  pub recovery_action : String
  pub helm_release : String
  pub rollback_revision : ℤ
  pub end_time : Time
  pub duration : Duration
  pub verification_result : String
  pub operator_version : String
  pub recovery_confidence : ℕ

pub record RollbackHistory : Type 0 where
  pub incident_id : String
  pub service : String
  pub namespace : String
  pub helm_release : String
  pub old_revision : ℤ
  pub rollback_revision : ℤ
  pub start_time : Time
  pub finish_time : Time
  pub recovery_duration : Duration
  pub verification_result : String
  pub operator_version : String

pub record RecoveryResult : Type 0 where
  pub success : Bool
  pub old_revision : ℤ
  pub rollback_revision : ℤ
  pub message : String
  pub execution_time : Duration
