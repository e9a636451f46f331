-- ===== src/Operator/Jaeger.antt =====
-- internal/operator/dependency/jaeger.go: the graph merged from a static seed and observed traffic. What
-- Jaeger answers to a query is an argument; the lock makes each refresh one step.
pub mod Seeded
pub mod Refresh
mod Examples
use summer_project.Prelude.{
  Bool, true, false, ◌||◌, if◌then◌else◌, Option, none, some, List, [], ◌∷◌, ◌++◌, String,
}
use summer_project.Prelude.Int.{ℤ, pos, ltb_ℤ}
use summer_project.Prelude.Text.{str_eq}
use summer_project.Operator.Dependency.{Graph, empty_graph, add_edge}

-- A call between two services, as Jaeger counts it.
pub record Edge : Type 0 where
  pub parent : String
  pub child : String
  pub call_count : ℤ

abbrev pub Pair : Type 0
Pair = String × String

unfoldable pub out_of : String → List String → List Pair
out_of id [] = []
out_of id (c ∷ cs) = (id, c) ∷ out_of id cs

-- Edges, in the order in which the map is ranged over.
unfoldable pub edges : Graph → List Pair
unfolding out_of
edges [] = []
edges ((id, n) ∷ rest) = out_of n.id n.children ++ edges rest

unfoldable pub add_seeds : List Pair → Graph → Graph
add_seeds [] g = g
add_seeds ((p, c) ∷ es) g = add_seeds es (add_edge p c g)

-- The observed calls that are not taken: without a name, of a service to itself, or too few.
unfoldable pub is_skipped : ℤ → Edge → Bool
is_skipped min e =
    str_eq e.parent "" || str_eq e.child "" || str_eq e.parent e.child || ltb_ℤ e.call_count min

unfoldable pub add_observed : ℤ → List Edge → Graph → Graph
add_observed min [] g = g
add_observed min (e ∷ es) g =
    add_observed min es (if is_skipped min e then g else add_edge e.parent e.child g)

pub record JaegerDependencyGraph : Type 0 where
  pub seed : Graph
  pub min_call_count : ℤ
  pub current : Graph

-- What the client answers: none is an error.
abbrev pub Observed : Type 0
Observed = Option (List Edge)

-- The order in which Go ranges over the nodes of the seed.
abbrev pub EdgeRange : Type 0
EdgeRange = List Pair → List Pair

unfoldable pub merged : EdgeRange → JaegerDependencyGraph → List Edge → Graph
merged range jdg observed =
    add_observed jdg.min_call_count observed (add_seeds (range (edges jdg.seed)) empty_graph)

unfoldable pub refresh : EdgeRange → JaegerDependencyGraph → Observed → JaegerDependencyGraph
refresh range jdg none = jdg
refresh range jdg (some observed) = record jdg { current = merged range jdg observed }

-- NewJaegerDependencyGraph, with its first refresh.
unfoldable pub new_jaeger_graph : EdgeRange → Graph → ℤ → Observed → JaegerDependencyGraph
new_jaeger_graph range seed min first =
    refresh range
      (record {
        seed = seed;
        min_call_count = if ltb_ℤ min (pos 1) then pos 1 else min;
        current = seed;
      })
      first

-- Run: one refresh for each tick.
unfoldable pub run : EdgeRange → JaegerDependencyGraph → List Observed → JaegerDependencyGraph
run range jdg [] = jdg
run range jdg (answer ∷ answers) = run range (refresh range jdg answer) answers
