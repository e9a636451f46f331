-- ===== src/Operator/Helm/Examples.antt =====
-- A release that was rolled back once: revision 4 re-applies revision 2, and 3 was the faulty one.
use summer_project.Prelude.{ℕ, ◌==◌, ◌≡◌, refl, ◌⊎◌, Bool, some, List, [], ◌∷◌, All}
use summer_project.Prelude.Int.{ℤ, pos, ◌≤ℤ◌}
use summer_project.Operator.Helm.{
  ok, err, Status, deployed, superseded, failed, Release, get_last_healthy_revision, no_target,
}
use summer_project.Operator.Helm.Eligible.{IsEligible}
use summer_project.Operator.Helm.Sorting.{Any}
use summer_project.Operator.Helm.LastHealthy.{IsPick, get_last_healthy_revision_newest}

abbrev revision : ℕ → ℕ → Status → Release ℕ
revision version config status = record {
  version = pos version;
  config = some config;
  info = some (record { status = status; last_deployed = pos version });
}

abbrev same : ℕ → ℕ → Bool
same a b = a == b

-- In the order of the secrets' names, not of the versions.
abbrev history : List (Release ℕ)
history =
    revision 10 7 deployed
    ∷ revision 1 5 superseded
    ∷ revision 2 6 superseded
    ∷ revision 8 7 superseded
    ∷ revision 9 8 failed
    ∷ []

newest_test : get_last_healthy_revision same (ok history) (ok (pos 10)) "order-service" ≡ ok (pos 2)
unfolding get_last_healthy_revision
newest_test = refl

get_last_healthy_revision_newest_example :
    ((v : ℤ) × (get_last_healthy_revision same (ok history) (ok (pos 10)) "order-service" ≡ ok v)
      × Any same (IsPick same (pos 10) history v) history
      × All (λ r. IsEligible same (pos 10) history r → r.version ≤ℤ v) history)
    ⊎ ((get_last_healthy_revision same (ok history) (ok (pos 10)) "order-service"
          ≡ err (no_target "order-service"))
        × All (λ r. ¬ (IsEligible same (pos 10) history r)) history)
get_last_healthy_revision_newest_example =
    get_last_healthy_revision_newest same history (ok (pos 10)) "order-service"

-- Where Helm does not tell the current revision, it can be the answer itself.
unknown_test :
    get_last_healthy_revision same (ok history) (err "timeout") "order-service" ≡ ok (pos 10)
unfolding get_last_healthy_revision
unknown_test = refl
