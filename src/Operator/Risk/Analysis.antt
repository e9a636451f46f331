-- ===== src/Operator/Risk/Analysis.antt =====
-- internal/operator/progressive/analysis.go: whether a deployment goes well, by what the engines report.
use summer_project.Prelude.{
  ◌*◌, Bool, true, false, if◌then◌else◌, ◌≡◌, refl, ◌↔◌, inl, inr, Option, none, some, [], ◌∷◌,
  String, Bool-cases,
}
use summer_project.Prelude.Int.{pos}
use summer_project.Prelude.Text.{sprint}
use summer_project.Prelude.Float.{Float64}
use summer_project.Operator.Models.{hour}
use summer_project.Operator.Reports.{SloReport, BudgetReport, BurnRateReport, Signals}

module _ (fl : Float64) where
  open fl use {F, lit, lt, show2}

  pub record AnalysisResult : Type 0 where
    pub healthy : Bool
    pub reason : String
    pub latency_ratio : F
    pub error_rate_diff : F
    pub burn_rate : F
    pub remaining_budget : F

  abbrev pub judged : SloReport F → BudgetReport F → BurnRateReport F → Bool × String
  judged slo budget burn =
      if slo.any_violation
      then (false, "Candidate violating active SLO targets")
      else if burn.is_high_alert
      then (
        false,
        sprint (
            "High burn rate ("
            ∷ show2 burn.current_burn_rate
            ∷ ") detected for candidate release"
            ∷ []),
      )
      else if lt budget.remaining_percent (lit 10 0)
      then (
        false,
        sprint (
            "Candidate consumed excessive error budget. Only "
            ∷ show2 budget.remaining_percent
            ∷ "% remaining"
            ∷ []),
      )
      else (true, "Candidate release performs successfully within SLO limits")

  abbrev analysis_result : SloReport F → BudgetReport F → BurnRateReport F → AnalysisResult
  analysis_result slo budget burn = record {
    healthy = (judged slo budget burn).0;
    reason = (judged slo budget burn).1;
    latency_ratio = lit 1 0;
    error_rate_diff = slo.error_rate_actual;
    burn_rate = burn.current_burn_rate;
    remaining_budget = budget.remaining_percent;
  }

  infixl 5 ◌>>=◌
  abbrev ◌>>=◌ : {A B : Type 0} → Option A → (A → Option B) → Option B
  none >>= f = none
  some a >>= f = f a

  unfoldable pub analyze_deployment : Signals F → String → Option AnalysisResult
  analyze_deployment sig service = do
    slo ← sig.evaluate service
    budget ← sig.evaluate_budget service (pos (24 * hour))
    burn ← sig.calculate_burn_rate service (pos hour) budget.remaining_percent
    some (analysis_result slo budget burn)

  -- The three reports of a service, all of which have to be there.
  pub record Reported (sig : Signals F) (service : String) : Type 0 where
    pub slo : SloReport F
    pub budget : BudgetReport F
    pub burn : BurnRateReport F
    pub at_slo : sig.evaluate service ≡ some slo
    pub at_budget : sig.evaluate_budget service (pos (24 * hour)) ≡ some budget
    pub at_burn : sig.calculate_burn_rate service (pos hour) budget.remaining_percent ≡ some burn

  judged_iff :
      (slo : SloReport F) (budget : BudgetReport F) (burn : BurnRateReport F)
      → ((judged slo budget burn).0 ≡ true) ↔ (
          (slo.any_violation ≡ false)
          × (burn.is_high_alert ≡ false)
          × (lt budget.remaining_percent (lit 10 0) ≡ false))
  judged_iff slo budget burn = elim (Bool-cases slo.any_violation) [
    | inl bad ↦ rw bad (λ h. cc h, λ h. cc (h.0))
    | inr good ↦ elim (Bool-cases burn.is_high_alert) [
      | inl fast ↦ rw (good, fast) (λ h. cc h, λ h. cc (h.1))
      | inr slow ↦ elim (Bool-cases (lt budget.remaining_percent (lit 10 0))) [
        | inl spent ↦ rw (good, slow, spent) (λ h. cc h, λ h. cc (h.2))
        | inr left ↦ rw (good, slow, left) (λ _. (refl, refl, refl), λ _. refl)
      ]
    ]
  ]

  -- An analysis needs all three reports, and is healthy exactly if no target is violated, the burn rate
  -- raises no high alert and a tenth of the budget is left.
  pub analyze_deployment-Reported :
      (sig : Signals F) (service : String) (r : Reported sig service)
      → (a : AnalysisResult) × (analyze_deployment sig service ≡ some a)
        × ((a.healthy ≡ true) ↔ (
            (r.slo.any_violation ≡ false)
            × (r.burn.is_high_alert ≡ false)
            × (lt r.budget.remaining_percent (lit 10 0) ≡ false)))
  unfolding analyze_deployment
  analyze_deployment-Reported sig service r = (
    analysis_result r.slo r.budget r.burn,
    rw (r.at_slo, r.at_budget, r.at_burn) refl,
    judged_iff r.slo r.budget r.burn,
  )
