-- ===== src/Operator/Decision.antt =====
-- internal/operator/decision/engine.go: MakeDecision. The metrics it sets are returned beside the
-- entry: the confidence gauge. `now` is the clock's reading.
pub mod Guards
pub mod Failures
mod Examples
use summer_project.Prelude.{
  ℕ, ◌+◌, ◌*◌, Bool, true, false, not, ◌&&◌, leb, if◌then◌else◌, Option, none, some, List, [], ◌∷◌,
  String,
}
use summer_project.Prelude.Int.{ℤ, pos, leb_ℤ}
use summer_project.Prelude.Text.{str_eq, sprint, show_ℕ, show_ℤ}
use summer_project.Prelude.Float.{Float64}
use summer_project.Operator.Models.{
  Time, Action, ignore, wait, escalate, prepare_rollback, prepare_restart, prepare_scale, Alert,
  DecisionEntry, Policy, Incident, RollbackHistory, hour,
}
use summer_project.Operator.Reports.{
  SloReport, BudgetReport, BurnRateReport, RootCauseAnalysis, Signals,
}

abbrev pub action_text : Action → String
action_text ignore = "Ignore"
action_text wait = "Wait"
action_text escalate = "Escalate"
action_text prepare_rollback = "Prepare Rollback"
action_text prepare_restart = "Prepare Restart"
action_text prepare_scale = "Prepare Scale"

-- The three counters of the loop over the rollback history.
pub record Tally : Type 0 where
  pub consecutive_failures : ℕ
  pub total_rollbacks : ℕ
  pub successful_rollbacks : ℕ

abbrev pub no_rollbacks : Tally
no_rollbacks = record { consecutive_failures = 0; total_rollbacks = 0; successful_rollbacks = 0 }

abbrev pub count_rollback : String → Tally → RollbackHistory → Tally
count_rollback target t r =
    if str_eq r.service target
    then if str_eq r.verification_result "Success"
      then record t {
        consecutive_failures = 0;
        total_rollbacks = t.total_rollbacks + 1;
        successful_rollbacks = t.successful_rollbacks + 1;
      }
      else record t {
        consecutive_failures = t.consecutive_failures + 1;
        total_rollbacks = t.total_rollbacks + 1;
      }
    else t

pub tally : String → Tally → List RollbackHistory → Tally
tally target t [] = t
tally target t (r ∷ rs) = tally target (count_rollback target t r) rs

abbrev pub tally_listed : String → Option (List RollbackHistory) → Tally
tally_listed target none = no_rollbacks
tally_listed target (some rs) = tally target no_rollbacks rs

-- An entry as the early returns leave it.
abbrev pub early : Time → String → Action → String → String → DecisionEntry
early now version decision policy_used reason = record {
  timestamp = now;
  decision = decision;
  policy_used = policy_used;
  reason = reason;
  operator_version = version;
  recovery_plan = none;
  recovery_target_service_id = "";
}

abbrev pub has_run_out : Option Incident → Policy → Bool
has_run_out none policy = false
has_run_out (some i) policy = leb_ℤ policy.max_retries i.recovery_attempts

module _ (fl : Float64) where
  open fl use {F, lit, lt, le, show2}

  pub record Decided : Type 0 where
    pub entry : DecisionEntry
    pub confidence : F

  -- action, reason and confidence
  abbrev pub Verdict : Type 0
  Verdict = Action × String × F

  abbrev pub target_of : Alert → Option (RootCauseAnalysis F) → String
  target_of alert none = alert.service
  target_of alert (some rc) = rc.root_cause_service_id

  abbrev recorded_target : Option (RootCauseAnalysis F) → String
  recorded_target none = ""
  recorded_target (some rc) = rc.root_cause_service_id

  cascade : Alert → Policy → Option (RootCauseAnalysis F) → Verdict
  cascade alert policy none = (
    policy.recommended_action,
    sprint (
        "Policy matched: "
        ∷ policy.id
        ∷ ". Recommending action: "
        ∷ action_text policy.recommended_action
        ∷ []),
    lit 8 1,
  )
  cascade alert policy (some rc) =
      if not (str_eq rc.root_cause_service_id alert.service)
      then (
        policy.recommended_action,
        sprint (
            "Cascading failure detected. Service \"" ∷ alert.service
            ∷ "\" is impacted, but true root cause is resolved as \"" ∷ rc.root_cause_service_id
            ∷ "\". " ∷ rc.reason ∷ []),
        rc.confidence_score,
      )
      else (
        policy.recommended_action,
        sprint (
            "Policy matched: "
            ∷ policy.id
            ∷ ". Recommending action: "
            ∷ action_text policy.recommended_action
            ∷ []),
        lit 8 1,
      )

  -- The burn rate is asked for only if there is a budget report.
  abbrev pub burn_of : Signals F → String → Option (BudgetReport F) → Option (BurnRateReport F)
  burn_of sig target none = none
  burn_of sig target (some b) = sig.calculate_burn_rate target (pos hour) b.remaining_percent

  abbrev pub is_quiet : Option (BurnRateReport F) → Option (SloReport F) → Bool
  is_quiet none slo = false
  is_quiet (some burn) none = false
  is_quiet (some burn) (some slo) =
      lt burn.current_burn_rate (lit 2 0) && not slo.availability_violated

  abbrev is_burning : Option (BurnRateReport F) → Bool
  is_burning none = false
  is_burning (some burn) = burn.is_high_alert

  abbrev is_exhausted : Option (BudgetReport F) → Bool
  is_exhausted none = false
  is_exhausted (some b) = le b.remaining_percent (lit 0 0)

  abbrev rate_text : Option (BurnRateReport F) → String
  rate_text none = ""
  rate_text (some burn) = show2 burn.current_burn_rate

  -- Section 8 of the source: the rules, in their order.
  rules :
      String
      → ℕ
      → Option (SloReport F)
      → Option (BudgetReport F)
      → Option (BurnRateReport F)
      → Verdict
      → Verdict
  rules target failures slo budget burn otherwise =
      if leb 2 failures
      then (
        escalate,
        sprint (
            "Consecutive rollbacks ("
            ∷ show_ℕ failures
            ∷ ") failed for service "
            ∷ target
            ∷ ". Escalating for manual SRE intervention."
            ∷ []),
        lit 1 0,
      )
      else if is_quiet burn slo
      then (
        wait,
        sprint (
            "Target service "
            ∷ target
            ∷ " availability within limits, and burn rate is low ("
            ∷ rate_text burn
            ∷ "). Observing for transient spike recovery."
            ∷ []),
        lit 85 2,
      )
      else if is_burning burn
      then (
        prepare_rollback,
        sprint (
            "Critical burn rate threshold ("
            ∷ rate_text burn
            ∷ ") exceeded for service "
            ∷ target
            ∷ ". Initiating immediate automated rollback."
            ∷ []),
        lit 95 2,
      )
      else if is_exhausted budget
      then (
        prepare_rollback,
        sprint (
            "Error budget completely exhausted (0% remaining) for service " ∷ target
            ∷ ". Initiating emergency rollback." ∷ []),
        lit 98 2,
      )
      else otherwise

  -- Sections 5 to 8.
  investigate : Time → String → Alert → Policy → Signals F → Decided
  unfolding cascade rules tally
  investigate now version alert policy sig =
      let rc = sig.analyze alert.service in
      let target = target_of alert rc in
      let budget = sig.evaluate_budget target (pos (24 * hour)) in
      let verdict =
        rules target (tally_listed target sig.list_rollbacks).consecutive_failures
          (sig.evaluate target) budget (burn_of sig target budget) (cascade alert policy rc) in
      record {
        entry = record (early now version verdict.0 policy.id verdict.1) {
          recovery_target_service_id = recorded_target rc;
        };
        confidence = verdict.2;
      }

  under_policy : Time → String → Alert → Policy → Option Incident → Bool → Signals F → Decided
  unfolding investigate
  under_policy now version alert policy incident cooling sig =
      if cooling
      then record {
        entry =
            early now version wait policy.id "Service is in a cooldown window to prevent thrashing";
        confidence = lit 9 1;
      }
      else if has_run_out incident policy
      then record {
        entry = early now version escalate policy.id (
            sprint (
              "Maximum recovery attempts ("
              ∷ show_ℤ policy.max_retries
              ∷ ") reached. Escalating to human operators."
              ∷ []));
        confidence = lit 1 0;
      }
      else investigate now version alert policy sig

  unfoldable pub make_decision :
      Time → String → Alert → Option Policy → Option Incident → Bool → Signals F → Decided
  unfolding under_policy
  make_decision now version alert policy incident cooling sig =
      if str_eq alert.status "resolved"
      then record {
        entry = early now version ignore "" "Alert has been resolved";
        confidence = lit 1 0;
      }
      else elim policy [
        | none ↦ record {
          entry = early now version ignore "" (
              sprint (
                "No active policy found for alert: " ∷ alert.name ∷ " on service: " ∷ alert.service
                ∷ []));
          confidence = lit 5 1;
        }
        | some p ↦ under_policy now version alert p incident cooling sig
      ]
