-- ===== src/Operator/Planner.antt =====
-- internal/operator/planner/planner.go: Plan. The random part of a plan's id is an argument, and so is
-- the clock's reading.
mod Examples
use summer_project.Prelude.{
  ℕ, ◌*◌, ◌<◌, Bool, true, false, if◌then◌else◌, ◌≡◌, refl, ◌≢◌, ◌↔◌, Option, none, some, List, [],
  ◌∷◌, String, arith,
}
use summer_project.Prelude.Int.{ℤ, pos, ltb_ℤ, ◌<ℤ◌}
use summer_project.Prelude.Text.{str_eq, eq_iff, sprint}
use summer_project.Operator.Models.{
  Time, Duration, minute, second, Action, ignore, wait, escalate, prepare_rollback, prepare_restart,
  prepare_scale, Incident, DecisionEntry, Policy, RetryPolicy, RecoveryPlan,
}

abbrev priority_of : Action → ℕ
priority_of prepare_rollback = 1
priority_of prepare_scale = 3
priority_of _ = 2

-- A policy's setting counts if it is positive.
abbrev positive_or : ℤ → ℤ → ℤ
positive_or setting default = if ltb_ℤ (pos 0) setting then setting else default

abbrev default_timeout : Duration
default_timeout = pos (5 * minute)

abbrev default_cooldown : Duration
default_cooldown = pos (5 * minute)

abbrev timeout_of : Option Policy → Duration
timeout_of none = default_timeout
timeout_of (some p) = positive_or p.timeout default_timeout

abbrev cooldown_of : Option Policy → Duration
cooldown_of none = default_cooldown
cooldown_of (some p) = positive_or p.cooldown_duration default_cooldown

abbrev retries_of : Option Policy → ℤ
retries_of none = pos 3
retries_of (some p) = positive_or p.max_retries (pos 3)

abbrev pub planned_service : Incident → DecisionEntry → String
planned_service incident decision =
    if str_eq decision.recovery_target_service_id ""
    then incident.service
    else decision.recovery_target_service_id

abbrev pub plan_for : Time → String → Incident → DecisionEntry → Option Policy → RecoveryPlan
plan_for now random incident decision policy = record {
  id = sprint ("plan-" ∷ planned_service incident decision ∷ "-" ∷ random ∷ []);
  service_id = planned_service incident decision;
  desired_action = decision.decision;
  priority = priority_of decision.decision;
  timeout = timeout_of policy;
  verification_window = pos minute;
  retry_policy = record { max_retries = retries_of policy; backoff = pos (30 * second) };
  cooldown = cooldown_of policy;
  target_revision = none;
  execution_state = "Pending";
  created_at = now;
}

abbrev pub needs_plan : Action → Bool
needs_plan ignore = false
needs_plan wait = false
needs_plan escalate = false
needs_plan _ = true

-- The plan, and the decision with the plan put into it.
unfoldable pub make_plan :
    Time → String → Incident → DecisionEntry → Option Policy → Option RecoveryPlan × DecisionEntry
make_plan now random incident decision policy =
    let plan = plan_for now random incident decision policy in
    if needs_plan decision.decision
    then (some plan, record decision { recovery_plan = some plan })
    else (none, decision)

-- The limits under which a plan is executed.
pub record IsBounded (plan : RecoveryPlan) : Type 0 where
  pub timeout_positive : pos 0 <ℤ plan.timeout
  pub cooldown_positive : pos 0 <ℤ plan.cooldown
  pub retries_positive : pos 0 <ℤ plan.retry_policy.max_retries

pub make_plan-IsBounded :
    (now : Time) (random : String) (incident : Incident) (decision : DecisionEntry)
    (policy : Option Policy) (plan : RecoveryPlan) (decision' : DecisionEntry)
    → make_plan now random incident decision policy ≡ (some plan, decision')
    → IsBounded plan
      × (plan.service_id ≡ planned_service incident decision)
      × (plan.desired_action ≡ decision.decision)
      × (decision'.recovery_plan ≡ some plan)
unfolding make_plan
make_plan-IsBounded now random incident decision policy plan decision' h = ground arith
