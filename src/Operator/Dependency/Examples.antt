-- ===== src/Operator/Dependency/Examples.antt =====
-- Runs of internal/operator/dependency/graph.go, and the theorems at concrete graphs.
use summer_project.Prelude.{true, some, List, [], ◌∷◌, String, ◌≡◌, ◌≢◌, ◌↔◌, refl}
use summer_project.Prelude.Maps.{lookup}
use summer_project.Operator.Dependency.{
  Graph, has, empty_graph, add_edge, new_graph, closure, get_downstream, get_root_services, dfs,
  visit_each, without,
}
use summer_project.Operator.Dependency.Search.{Reaches, closure_decides}
use summer_project.Operator.Dependency.Mirror.{IsMirrored, IsMirrored-empty, IsMirrored-add_edge}

abbrev cyclic : Graph
cyclic = add_edge "b" "a" (add_edge "a" "b" empty_graph)

cyclic-IsMirrored : IsMirrored cyclic
cyclic-IsMirrored =
    IsMirrored-add_edge "b" "a" _ (IsMirrored-add_edge "a" "b" empty_graph IsMirrored-empty)

gateway_downstream :
    get_downstream (λ names. names) new_graph "api-gateway"
    ≡ some ("payment-service" ∷ "inventory-service" ∷ "order-service" ∷ [])
unfolding get_downstream closure dfs visit_each without new_graph lookup
gateway_downstream = refl

roots : get_root_services (λ names. names) new_graph ≡ "api-gateway" ∷ []
unfolding get_root_services new_graph
roots = refl

closure_decides_example :
    (names : List String) × (closure (λ n. n.children) (λ xs. xs) cyclic "a" ≡ some names)
    × ((x : String) → (has x names ≡ true) ↔ (Reaches (λ n. n.children) cyclic "a" x × (x ≢ "a")))
closure_decides_example = closure_decides (λ n. n.children) (λ xs. xs) cyclic "a" (λ names x. refl)
