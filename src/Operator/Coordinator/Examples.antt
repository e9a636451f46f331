-- ===== src/Operator/Coordinator/Examples.antt =====
-- A run of internal/operator/dependency/coordinator.go, and the theorem at it.
use summer_project.Prelude.{ℕ, ◌*◌, none, some, [], ◌∷◌, String, ◌≡◌, refl, arith, if◌then◌else◌}
use summer_project.Prelude.Int.{ℤ, pos, ◌+ℤ◌, ◌-ℤ◌, int_laws}
use summer_project.Prelude.Maps.{lookup, insert}
use summer_project.Prelude.Text.{str_eq, show_ℤ}
use summer_project.Operator.Models.{Time, minute}
use summer_project.Operator.Helm.{ok, Release, deployed}
use summer_project.Operator.Cooldown.{try_start_execution}
use summer_project.Operator.Dependency.{DependencyGraph}
use summer_project.Operator.Coordinator.{
  HelmOps, Coordinator, find_deployed, deploy_time, attempted, targeted, gated, dated, at_revision,
  consider_peer, consider_peers, batch_at, rollback_batch_peers,
}
use summer_project.Operator.Coordinator.Rollbacks.{BatchEnd, rollback_batch_peers-BatchEnd}

abbrev order_edges : DependencyGraph
order_edges = record {
  parents_of = λ s. "api-gateway" ∷ [];
  children_of = λ s. "payment-service" ∷ "inventory-service" ∷ [];
  upstream_of = λ s. [];
  downstream_of = λ s. [];
}

abbrev released_at : ℤ → Time → Release String
released_at version at = record {
  version = version;
  config = none;
  info = some (record { status = deployed; last_deployed = at });
}

-- The gateway is at its first revision, the inventory was deployed an hour later.
abbrev answers : HelmOps String
answers = record {
  get_history = λ s. ok (
      released_at (pos 4) (pos (if str_eq s "inventory-service" then 70 * minute else 9 * minute))
      ∷ []);
  get_current_revision = λ s. ok (pos (if str_eq s "api-gateway" then 1 else 4));
  get_last_healthy_revision = λ s. ok (pos 3);
  rollback = λ s v. none;
}

abbrev coordinator : Coordinator
coordinator = record {
  graph = order_edges;
  batch_window = pos (10 * minute);
  gate_window = pos (5 * minute);
}

abbrev at_minute : ℕ → Time
at_minute i = pos (100 * minute)

payment_only :
    (rollback_batch_peers show_ℤ at_minute
      (λ i. answers)
      coordinator
      []
      (ok (released_at (pos 7) (pos (5 * minute)) ∷ []))
      "order-service"
      (pos 7)).asked
    ≡ ("payment-service", pos 3) ∷ []
unfolding rollback_batch_peers batch_at consider_peers consider_peer at_revision dated gated
    targeted attempted deploy_time find_deployed try_start_execution lookup insert ◌-ℤ◌ ◌+ℤ◌
payment_only = refl

rollback_batch_peers-BatchEnd_example :
    BatchEnd show_ℤ at_minute
      (λ i. answers)
      coordinator
      []
      "order-service"
      (deploy_time (ok (released_at (pos 7) (pos (5 * minute)) ∷ [])) "order-service" (pos 7))
      (rollback_batch_peers show_ℤ at_minute
        (λ i. answers)
        coordinator
        []
        (ok (released_at (pos 7) (pos (5 * minute)) ∷ []))
        "order-service"
        (pos 7))
rollback_batch_peers-BatchEnd_example =
    rollback_batch_peers-BatchEnd show_ℤ at_minute (λ i. answers) coordinator (pos (100 * minute))
      [] (ok (released_at (pos 7) (pos (5 * minute)) ∷ [])) "order-service" (pos 7)
      (λ i. (omega arith, omega int_laws))
