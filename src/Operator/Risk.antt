-- ===== src/Operator/Risk.antt =====
-- internal/operator/progressive/guard.go and risk.go: whether a deployment may start, and how risky it is. The
-- engines, the incidents that are active and the downstream services are arguments; none is their error.
-- A nil report whose field is read panics. Risk/Analysis is analysis.go, which says whether it goes well.
pub mod Bounds
pub mod Ongoing
pub mod Allowed
pub mod Analysis
mod Examples
use summer_project.Prelude.{
  ℕ, zero, suc, ◌*◌, length, Bool, true, false, not, ◌&&◌, ◌||◌, if◌then◌else◌, Option, none, some,
  List, [], ◌∷◌, ◌++◌, String,
}
use summer_project.Prelude.Int.{pos}
use summer_project.Prelude.Text.{str_eq, sprint}
use summer_project.Prelude.Float.{Float64}
use summer_project.Operator.Models.{State, healthy, Incident, RollbackHistory, hour}
use summer_project.Operator.Reports.{SloReport, BudgetReport, BurnRateReport, Signals}

-- How a call ends: it returns, or a nil pointer is read.
pub data Ended (A : Type 0) : Type 0 where
  returned : A → Ended A
  panicked : Ended A

abbrev pub is_healthy : State → Bool
is_healthy healthy = true
is_healthy _ = false

module _ (fl : Float64) where
  open fl use {F, lit, add, mul, lt, le, of_ℕ, show2}

  pub record DeploymentGuardConfig : Type 0 where
    pub max_allowed_burn_rate : F
    pub min_remaining_budget : F
    pub block_on_critical_incidents : Bool

  pub record RiskAnalysisDetails : Type 0 where
    pub risk_score : F
    pub decision : String
    pub reasons : List String

  -- `inc.Service == service && inc.CurrentState != StateHealthy`
  abbrev pub is_ongoing : String → Incident → Bool
  is_ongoing service i = str_eq i.service service && not (is_healthy i.current_state)

  unfoldable pub ongoing : String → List Incident → Option Incident
  ongoing service [] = none
  ongoing service (i ∷ is) = if is_ongoing service i then some i else ongoing service is

  abbrev pub blocking : DeploymentGuardConfig → String → Option (List Incident) → Option Incident
  blocking cfg service none = none
  blocking cfg service (some incidents) =
      if cfg.block_on_critical_incidents then ongoing service incidents else none

  abbrev pub is_violating : Option (SloReport F) → Bool
  is_violating none = false
  is_violating (some r) = r.any_violation

  unfoldable pub violating : (String → Option (SloReport F)) → List String → Option String
  violating evaluate [] = none
  violating evaluate (ds ∷ rest) =
      if is_violating (evaluate ds) then some ds else violating evaluate rest

  abbrev pub Answer : Type 0
  Answer = Ended (Bool × String)

  blocked : List String → Answer
  blocked text = returned (false, sprint ("Blocked: " ∷ text))

  by_dependency : Option String → Answer
  unfolding blocked
  by_dependency none = returned (true, "Allowed: deployment matches all guard checks")
  by_dependency (some ds) =
      blocked ("downstream dependency " ∷ ds ∷ " is violating SLO targets" ∷ [])

  by_burn_rate : DeploymentGuardConfig → Option (BurnRateReport F) → Option String → Answer
  unfolding by_dependency
  by_burn_rate cfg none ds = by_dependency ds
  by_burn_rate cfg (some burn) ds =
      if lt cfg.max_allowed_burn_rate burn.current_burn_rate
      then blocked (
          "error budget burn rate ("
          ∷ show2 burn.current_burn_rate
          ∷ ") exceeds configured maximum threshold ("
          ∷ show2 cfg.max_allowed_burn_rate
          ∷ ")"
          ∷ [])
      else by_dependency ds

  by_budget :
      DeploymentGuardConfig → Signals F → String → List String → Option (BudgetReport F) → Answer
  unfolding by_burn_rate
  by_budget cfg sig service downstream none = panicked
  by_budget cfg sig service downstream (some b) =
      if lt b.remaining_percent cfg.min_remaining_budget
      then blocked (
          "remaining error budget ("
          ∷ show2 b.remaining_percent
          ∷ "%) is below configured minimum threshold ("
          ∷ show2 cfg.min_remaining_budget
          ∷ "%)"
          ∷ [])
      else by_burn_rate cfg (sig.calculate_burn_rate service (pos hour) b.remaining_percent)
          (violating sig.evaluate downstream)

  by_incident : DeploymentGuardConfig → Signals F → String → List String → Option Incident → Answer
  unfolding by_budget
  by_incident cfg sig service downstream (some i) =
      blocked ("active critical incident (" ∷ i.id ∷ ") is ongoing for this service" ∷ [])
  by_incident cfg sig service downstream none =
      by_budget cfg sig service downstream (sig.evaluate_budget service (pos (24 * hour)))

  -- `active` is what ListActive answers.
  unfoldable pub evaluate_guard :
      DeploymentGuardConfig → Signals F → List String → Option (List Incident) → String → Answer
  unfolding by_incident
  evaluate_guard cfg sig downstream active service =
      by_incident cfg sig service downstream (blocking cfg service active)

  -- The score with its reasons, as the four checks go on.
  abbrev pub Score : Type 0
  Score = F × List String

  abbrev raise : Score → F → List String → Score
  raise (score, reasons) more why = (add score more, reasons ++ why)

  risk_of_budget : F → Score → Score
  risk_of_budget left s =
      if lt left (lit 20 0)
      then raise s (lit 30 0) ("Remaining error budget is critically low" ∷ [])
      else if lt left (lit 50 0)
      then raise s (lit 15 0) ("Remaining error budget is under 50%" ∷ [])
      else s

  risk_of_burn_rate : Option (BurnRateReport F) → Score → Score
  risk_of_burn_rate none s = s
  risk_of_burn_rate (some burn) s =
      if lt (lit 144 1) burn.current_burn_rate
      then raise s (lit 40 0) ("Error budget burn rate is critically high (>14.4)" ∷ [])
      else if lt (lit 6 0) burn.current_burn_rate
      then raise s (lit 20 0) ("Error budget burn rate is elevated (>6.0)" ∷ [])
      else s

  unfoldable pub fail_count : String → List RollbackHistory → ℕ
  fail_count service [] = 0
  fail_count service (r ∷ rs) =
      let more = fail_count service rs in
      if str_eq r.service service && str_eq r.verification_result "Failed" then suc more else more

  abbrev min : F → F → F
  min a b = if lt a b then a else b

  abbrev of_failures : ℕ → Score → Score
  of_failures zero s = s
  of_failures (suc n) s =
      raise s (min (mul (of_ℕ (suc n)) (lit 10 0)) (lit 30 0))
        ("Service has a history of failed recoveries" ∷ [])

  risk_of_history : String → Option (List RollbackHistory) → Score → Score
  unfolding fail_count
  risk_of_history service none s = s
  risk_of_history service (some rs) s = of_failures (fail_count service rs) s

  risk_of_dependencies : List String → Score → Score
  risk_of_dependencies [] s = s
  risk_of_dependencies (ds ∷ rest) s = raise s (mul (of_ℕ (length (ds ∷ rest))) (lit 5 0)) []

  abbrev pub capped : F → F
  capped score =
      let top = if lt (lit 100 0) score then lit 100 0 else score in
      if lt top (lit 0 0) then lit 0 0 else top

  abbrev pub decision_of : F → String
  decision_of score =
      if le (lit 85 0) score
      then "Reject"
      else if le (lit 60 0) score
      then "Pause"
      else if le (lit 30 0) score
      then "Canary"
      else "Deploy"

  abbrev pub details : Score → RiskAnalysisDetails
  details (score, reasons) = record {
    risk_score = capped score;
    decision = decision_of (capped score);
    reasons = reasons;
  }

  -- The four checks, given a budget report.
  score_of : Signals F → List String → String → BudgetReport F → Score
  unfolding risk_of_budget risk_of_burn_rate risk_of_history risk_of_dependencies
  score_of sig downstream service b =
      let base = risk_of_budget b.remaining_percent (lit 10 0, []) in
      let burnt =
        risk_of_burn_rate (sig.calculate_burn_rate service (pos hour) b.remaining_percent) base in
      risk_of_dependencies downstream (risk_of_history service sig.list_rollbacks burnt)

  -- The report is read for the burn rate even if there is none.
  risk_from : Signals F → List String → String → Option (BudgetReport F) → Ended RiskAnalysisDetails
  unfolding score_of
  risk_from sig downstream service none = panicked
  risk_from sig downstream service (some b) = returned (details (score_of sig downstream service b))

  unfoldable pub calculate_risk : Signals F → List String → String → Ended RiskAnalysisDetails
  unfolding risk_from
  calculate_risk sig downstream service =
      risk_from sig downstream service (sig.evaluate_budget service (pos (24 * hour)))
