-- ===== src/Operator/Policies/Examples.antt =====
-- The policy for an alert, among two.
use summer_project.Prelude.{◌≡◌, refl, some, List, [], ◌∷◌}
use summer_project.Operator.Models.{Policy}
use summer_project.Operator.Samples.{alert_with, order_policy}
use summer_project.Operator.Policies.{match_policy}

abbrev policies : List Policy
policies = record order_policy { service = "payment-service" } ∷ order_policy ∷ []

match_policy_test : match_policy policies (alert_with "firing") ≡ some order_policy
unfolding match_policy
match_policy_test = refl
