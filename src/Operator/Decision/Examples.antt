-- ===== src/Operator/Decision/Examples.antt =====
-- Decisions on one alert, and the theorems at them.
use summer_project.Prelude.{◌≡◌, refl, ◌≢◌, false, some, [], ◌∷◌, arith}
use summer_project.Prelude.Int.{pos}
use summer_project.Prelude.Text.{eq_iff}
use summer_project.Prelude.Milli.{milli}
use summer_project.Operator.Models.{escalate, prepare_rollback, Policy, RollbackHistory}
use summer_project.Operator.Samples.{burning, fresh_incident, alert_with, order_policy, rollback_of}
use summer_project.Operator.Decision.{make_decision}
use summer_project.Operator.Decision.Guards.{Permits, decision_guarded}
use summer_project.Operator.Decision.Failures.{last_failures_escalate}

burning_test :
    (make_decision milli
      (pos 5)
      "1.0.0"
      (alert_with "firing")
      (some order_policy)
      (some fresh_incident)
      false
      (burning [])).entry.decision
    ≡ prepare_rollback
unfolding make_decision
burning_test = refl

decision_guarded_example :
    ((alert_with "firing").status ≢ "resolved")
    × (false ≡ false)
    × ((p : Policy) × (some order_policy ≡ some p)
        × Permits milli (alert_with "firing") (some fresh_incident) (burning []) p)
unfolding make_decision
decision_guarded_example =
    decision_guarded milli (pos 5) "1.0.0" (alert_with "firing") (some order_policy)
      (some fresh_incident) false (burning []) refl

abbrev good : RollbackHistory
good = rollback_of "order-service" "Success"

abbrev bad : RollbackHistory
bad = rollback_of "order-service" "Failed"

-- The newest rollback, listed first, was a success.
last_failures_escalate_example :
    (make_decision milli
      (pos 5)
      "1.0.0"
      (alert_with "firing")
      (some order_policy)
      (some fresh_incident)
      false
      (burning (good ∷ bad ∷ bad ∷ []))).entry.decision
    ≡ escalate
last_failures_escalate_example =
    last_failures_escalate milli (pos 5) "1.0.0" (alert_with "firing") order_policy
      (some fresh_incident) (burning (good ∷ bad ∷ bad ∷ [])) (good ∷ []) bad bad
      (λ e. ground (arith, (eq_iff "firing" "resolved").1 e)) refl (refl, refl) (refl, refl)
