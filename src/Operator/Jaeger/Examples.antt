-- ===== src/Operator/Jaeger/Examples.antt =====
-- Runs of internal/operator/dependency/jaeger.go, and the theorems at concrete answers.
use summer_project.Prelude.{true, none, some, List, [], ◌∷◌, ◌≡◌, ◌⊎◌, ◌↔◌, refl}
use summer_project.Prelude.Int.{pos}
use summer_project.Prelude.Maps.{lookup, insert}
use summer_project.Operator.Dependency.{
  Graph, empty_graph, add_edge, get_children, linked, ensure_node, append_child, append_parent,
}
use summer_project.Operator.Dependency.Mirror.{IsMirrored, IsMirrored-empty, IsMirrored-add_edge}
use summer_project.Operator.Jaeger.{
  Edge, JaegerDependencyGraph, refresh, new_jaeger_graph, run, merged, edges, out_of, add_seeds,
  add_observed, is_skipped,
}
use summer_project.Operator.Jaeger.Seeded.{IsKeyed, IsKeyed-add_edge, has_edge}
use summer_project.Operator.Jaeger.Refresh.{
  Taken, IsSeeded, run-new_jaeger_graph-IsSeeded, refresh_exact,
}

abbrev contract : Graph
contract = add_edge "order-service" "payment-service" empty_graph

abbrev traffic : List Edge
traffic =
    record { parent = "api-gateway"; child = "order-service"; call_count = pos 40 }
    ∷ record { parent = "order-service"; child = "order-service"; call_count = pos 90 }
    ∷ record { parent = "order-service"; child = "redis"; call_count = pos 1 }
    ∷ []

contract-IsMirrored : IsMirrored contract
contract-IsMirrored =
    IsMirrored-add_edge "order-service" "payment-service" empty_graph IsMirrored-empty

contract-IsKeyed : IsKeyed contract
contract-IsKeyed = IsKeyed-add_edge "order-service" "payment-service" empty_graph tt

abbrev started : JaegerDependencyGraph
started = record { seed = contract; min_call_count = pos 5; current = contract }

started-IsSeeded : IsSeeded contract started
started-IsSeeded = record { same_seed = refl; kept = λ p c m. m; mirrored = contract-IsMirrored }

gateway_found :
    get_children (refresh (λ es. es) started (some traffic)).current "api-gateway"
    ≡ "order-service" ∷ []
unfolding refresh merged edges out_of add_seeds add_observed is_skipped add_edge linked ensure_node
    get_children append_child append_parent lookup insert
gateway_found = refl

run-new_jaeger_graph-IsSeeded_example : IsSeeded contract (
    run
      (λ es. es)
      (new_jaeger_graph (λ es. es) contract (pos 5) none)
      (some traffic ∷ none ∷ some [] ∷ []))
run-new_jaeger_graph-IsSeeded_example =
    run-new_jaeger_graph-IsSeeded (λ es. es) (λ es p c. refl) contract contract-IsKeyed (pos 5) none
      (some traffic ∷ none ∷ some [] ∷ []) contract-IsMirrored

refresh_exact_example :
    ((has_edge "api-gateway" "order-service" (refresh (λ es. es) started (some traffic)).current
        ≡ true)
      ↔ ((has_edge "api-gateway" "order-service" contract ≡ true)
          ⊎ Taken (pos 5) "api-gateway" "order-service" traffic))
    × (refresh (λ es. es) started none ≡ started)
refresh_exact_example =
    refresh_exact (λ es. es) (λ es p c. refl) contract contract-IsKeyed started traffic
      "api-gateway" "order-service" started-IsSeeded
