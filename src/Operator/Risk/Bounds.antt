-- ===== src/Operator/Risk/Bounds.antt =====
-- internal/operator/progressive/risk.go: the range of the score, and when it is not reached.
use summer_project.Prelude.{
  ◌*◌, false, ◌≡◌, refl, inl, inr, none, some, List, String, arith, Bool-cases, Option-cases,
  if◌then◌else◌,
}
use summer_project.Prelude.Int.{pos}
use summer_project.Prelude.Float.{Float64}
use summer_project.Operator.Models.{hour}
use summer_project.Operator.Reports.{BudgetReport, Signals}
use summer_project.Operator.Risk.{
  Ended, returned, panicked, RiskAnalysisDetails, capped, decision_of, details, score_of, risk_from,
  calculate_risk,
}

module _ (fl : Float64) where
  open fl use {F, lit, lt, le, lt_asymm, lit-lt}

  lt_irrefl : (a : F) → lt a a ≡ false
  lt_irrefl a = elim (Bool-cases (lt a a)) [ inl h ↦ lt_asymm a a h | inr h ↦ h ]

  -- The two caps of a score, one after the other.
  topped-not-above :
      (score : F) → lt (lit 100 0) (if lt (lit 100 0) score then lit 100 0 else score) ≡ false
  topped-not-above score = elim (Bool-cases (lt (lit 100 0) score)) [
    | inl high ↦ rw high (lt_irrefl (lit 100 0))
    | inr low ↦ rw low low
  ]

  floored-not-above :
      (top : F)
      → lt (lit 100 0) top ≡ false
      → lt (lit 100 0) (if lt top (lit 0 0) then lit 0 0 else top) ≡ false
  floored-not-above top h = elim (Bool-cases (lt top (lit 0 0))) [
    | inl low ↦ rw low (lt_asymm (lit 0 0) (lit 100 0) (lit-lt 0 100 0 (omega arith) (omega arith)))
    | inr high ↦ rw high h
  ]

  floored-not-below : (top : F) → lt (if lt top (lit 0 0) then lit 0 0 else top) (lit 0 0) ≡ false
  floored-not-below top = elim (Bool-cases (lt top (lit 0 0))) [
    | inl low ↦ rw low (lt_irrefl (lit 0 0))
    | inr high ↦ rw high high
  ]

  pub capped-not-above : (score : F) → lt (lit 100 0) (capped fl score) ≡ false
  capped-not-above score = floored-not-above _ (topped-not-above score)

  pub capped-not-below : (score : F) → lt (capped fl score) (lit 0 0) ≡ false
  capped-not-below score = floored-not-below _

  -- What a risk analysis comes to.
  pub data RiskEnd (sig : Signals F) (service : String) (e : Ended (RiskAnalysisDetails fl))
      : Type 0 where
    scored :
        (b : BudgetReport F) (r : RiskAnalysisDetails fl)
        → sig.evaluate_budget service (pos (24 * hour)) ≡ some b
        → e ≡ returned r
        → lt (lit 100 0) r.risk_score ≡ false
        → lt r.risk_score (lit 0 0) ≡ false
        → r.decision ≡ decision_of fl r.risk_score
        → RiskEnd sig service e
    nil_read :
        sig.evaluate_budget service (pos (24 * hour)) ≡ none → e ≡ panicked → RiskEnd sig service e

  -- Whatever the engines and the history report, CalculateRisk returns a score that is neither above 100
  -- nor below 0, with the decision that its thresholds give, exactly if there is a budget report; if the
  -- budget cannot be evaluated it reads a nil pointer.
  pub calculate_risk-RiskEnd :
      (sig : Signals F) (downstream : List String) (service : String)
      → RiskEnd sig service (calculate_risk fl sig downstream service)
  unfolding calculate_risk risk_from
  calculate_risk-RiskEnd sig downstream service =
      elim (Option-cases (sig.evaluate_budget service (pos (24 * hour)))) [
        | inl e ↦ nil_read e (rw (e, risk_from))
        | inr (b, e) ↦
            let score = (score_of fl sig downstream service b).0 in
            scored b (details fl (score_of fl sig downstream service b)) e (rw (e, risk_from))
              (capped-not-above score) (capped-not-below score) refl
      ]
