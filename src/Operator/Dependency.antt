-- ===== src/Operator/Dependency.antt =====
-- internal/operator/dependency/graph.go: the dependency graph. A node points to nodes of the same map,
-- one to a name, so a pointer is a name here. The order in which Go ranges over a map is an argument.
pub mod Search
pub mod Edges
pub mod Mirror
mod Examples
use mathlib.Core.Option
use summer_project.Prelude.{
  ℕ, zero, suc, Bool, true, false, not, ◌||◌, if◌then◌else◌, Option, none, some, List, [], ◌∷◌,
  ◌++◌, String, map, length,
}
use summer_project.Prelude.Text.{str_eq}
use summer_project.Prelude.Maps.{Map, lookup, insert}

pub record Node : Type 0 where
  pub id : String
  pub parents : List String
  pub children : List String

abbrev pub Graph : Type 0
Graph = Map Node

abbrev pub has : String → List String → Bool
has x [] = false
has x (y ∷ ys) = str_eq x y || has x ys

abbrev pub empty_graph : Graph
empty_graph = []

abbrev pub fresh_node : String → Node
fresh_node id = record { id = id; parents = []; children = [] }

unfoldable pub ensure_node : String → Graph → Graph
ensure_node id g = elim (lookup id g) [ none ↦ insert id (fresh_node id) g | some _ ↦ g ]

-- The side of a node that is followed: its parents or its children.
abbrev pub Side : Type 0
Side = Node → List String

abbrev pub side_of : Side → Option Node → List String
side_of side none = []
side_of side (some n) = side n

abbrev pub neighbours : Side → Graph → String → List String
neighbours side g id = side_of side (lookup id g)

unfoldable pub get_parents : Graph → String → List String
get_parents g service = neighbours (λ n. n.parents) g service

unfoldable pub get_children : Graph → String → List String
get_children g service = neighbours (λ n. n.children) g service

-- `parent.Children = append(parent.Children, child)`, and the same for the parents of the child.
unfoldable pub append_child : String → String → Graph → Graph
append_child parent child g = elim (lookup parent g) [
  | none ↦ g
  | some n ↦ insert parent (record n { children = n.children ++ child ∷ [] }) g
]

unfoldable pub append_parent : String → String → Graph → Graph
append_parent child parent g = elim (lookup child g) [
  | none ↦ g
  | some n ↦ insert child (record n { parents = n.parents ++ parent ∷ [] }) g
]

unfoldable pub linked : String → String → Graph → Graph
linked parent child g =
    if has child (get_children g parent)
    then g
    else append_parent child parent (append_child parent child g)

unfoldable pub add_edge : String → String → Graph → Graph
add_edge parent child g = linked parent child (ensure_node child (ensure_node parent g))

unfoldable pub new_graph : Graph
unfolding add_edge linked ensure_node get_children append_child append_parent lookup insert
new_graph = add_edge "order-service" "payment-service" (
    add_edge "order-service" "inventory-service"
      (add_edge "api-gateway" "order-service" empty_graph))

-- The loop of a search over the neighbours of a node; none says that the fuel ran out.
unfoldable pub visit_each :
    (String → List String → Option (List String)) → List String → List String → Option (List String)
visit_each visit [] visited = some visited
visit_each visit (id ∷ ids) visited = elim (visit id visited) [
  | none ↦ none
  | some visited' ↦ visit_each visit ids visited'
]

-- dfsParents and dfsChildren, which differ in the side that they follow.
unfoldable pub dfs : Side → Graph → ℕ → String → List String → Option (List String)
dfs side g zero id visited = none
dfs side g (suc fuel) id visited =
    let rest = visit_each (dfs side g fuel) (neighbours side g id) (id ∷ visited) in
    if has id visited then some visited else rest

-- delete(visited, service).
unfoldable pub without : String → List String → List String
without x [] = []
without x (y ∷ ys) = if str_eq x y then without x ys else y ∷ without x ys

-- The keys of a map in the order in which Go ranges over them.
abbrev pub Range : Type 0
Range = List String → List String

unfoldable pub closure : Side → Range → Graph → String → Option (List String)
closure side range g service =
    Option.map (λ visited. range (without service visited)) (dfs side g (suc (length g)) service [])

unfoldable pub get_upstream : Range → Graph → String → Option (List String)
get_upstream = closure (λ n. n.parents)

unfoldable pub get_downstream : Range → Graph → String → Option (List String)
get_downstream = closure (λ n. n.children)

unfoldable pub root_names : Graph → List String
root_names [] = []
root_names ((id, n) ∷ rest) = elim n.parents [ [] ↦ id ∷ root_names rest | _ ∷ _ ↦ root_names rest ]

unfoldable pub get_root_services : Range → Graph → List String
unfolding root_names
get_root_services range g = range (root_names g)

abbrev pub or_empty : Option (List String) → List String
or_empty none = []
or_empty (some names) = names

-- The Go interface, by which the analyzer and the coordinator ask.
pub record DependencyGraph : Type 0 where
  pub parents_of : String → List String
  pub children_of : String → List String
  pub upstream_of : String → List String
  pub downstream_of : String → List String

abbrev pub as_dependency_graph : Range → Graph → DependencyGraph
as_dependency_graph range g = record {
  parents_of = get_parents g;
  children_of = get_children g;
  upstream_of = λ s. or_empty (get_upstream range g s);
  downstream_of = λ s. or_empty (get_downstream range g s);
}
