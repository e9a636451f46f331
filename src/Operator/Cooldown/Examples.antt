-- ===== src/Operator/Cooldown/Examples.antt =====
-- Two incidents of one service that ask for its slot, and the theorems at them.
use summer_project.Prelude.{◌≡◌, refl, List, [], ◌∷◌, none, arith}
use summer_project.Prelude.Int.{pos, ◌+ℤ◌, ◌-ℤ◌}
use summer_project.Prelude.Text.{eq_iff}
use summer_project.Prelude.Maps.{lookup, insert}
use summer_project.Operator.Models.{Time}
use summer_project.Operator.Cooldown.{new, record_recovery, try_start_execution}
use summer_project.Operator.Cooldown.Exclusion.{
  Call, record_call, start, grants, Spaced, executions_exclusive,
}

-- The second start comes inside the window of the first.
abbrev batch : List (Time × Call)
batch =
    (pos 100, start "order-service" (pos 300))
    ∷ (pos 101, record_call "order-service" "Slow" (pos 10))
    ∷ (pos 101, start "order-service" (pos 300))
    ∷ (pos 450, start "order-service" (pos 300))
    ∷ []

grants_test : grants "order-service" new batch ≡ pos 100 ∷ pos 450 ∷ []
unfolding grants try_start_execution record_recovery ◌+ℤ◌ ◌-ℤ◌ lookup insert
grants_test = refl

executions_exclusive_example : Spaced (pos 300) none (grants "order-service" new batch)
executions_exclusive_example = executions_exclusive "order-service" (pos 300) new batch (
  (λ _. omega arith),
  (
    (λ e. ground (arith, (eq_iff "order-service/Slow" "exec/order-service").1 e)),
    ((λ _. omega arith), ((λ _. omega arith), tt)),
  ),
)
