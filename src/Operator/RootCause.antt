-- ===== src/Operator/RootCause.antt =====
-- internal/operator/rootcause/analyzer.go: Analyze, over the dependency graph and the targets. Its counters
-- are left out. It returns no error.

pub mod Blame
mod Examples
use summer_project.Prelude.{
  ℕ, ltb, length, Bool, true, false, if◌then◌else◌, Option, none, some, List, [], ◌∷◌, String,
}
use summer_project.Prelude.Float.{Float64}
use summer_project.Prelude.Text.{sprint}
use summer_project.Operator.Reports.{SloReport, RootCauseAnalysis}
use summer_project.Operator.Dependency.{DependencyGraph}

module _ (fl : Float64) where
  open fl use {F, lit}

  abbrev pub is_violated : Option (SloReport F) → Bool
  is_violated none = false
  is_violated (some r) = r.any_violation

  -- The downstream services whose targets are violated, in their order.
  unfoldable pub degraded_nodes : (String → Option (SloReport F)) → List String → List String
  degraded_nodes evaluate [] = []
  degraded_nodes evaluate (ds ∷ rest) =
      let more = degraded_nodes evaluate rest in
      if is_violated (evaluate ds) then ds ∷ more else more

  abbrev pub depth : DependencyGraph → String → ℕ
  depth graph service = length (graph.upstream_of service)

  -- The loop over the degraded nodes: the first one with the most upstream services.
  unfoldable pub deepest : DependencyGraph → ℕ → String → List String → String
  deepest graph max_depth candidate [] = candidate
  deepest graph max_depth candidate (node ∷ nodes) =
      let deeper = ltb max_depth (depth graph node) in
      deepest graph (if deeper then depth graph node else max_depth)
        (if deeper then node else candidate) nodes

  abbrev pub itself : String → String → F → RootCauseAnalysis F
  itself service reason confidence = record {
    alerted_service_id = service;
    root_cause_service_id = service;
    reason = reason;
    confidence_score = confidence;
  }

  blame : DependencyGraph → String → List String → RootCauseAnalysis F
  unfolding deepest
  blame graph service [] =
      itself service "All downstream dependencies are performing within SLO targets." (lit 9 1)
  blame graph service (node ∷ nodes) =
      let candidate = deepest graph 0 node (node ∷ nodes) in
      record {
        alerted_service_id = service;
        root_cause_service_id = candidate;
        reason = sprint (
            "Downstream dependency " ∷ candidate
            ∷ " is violating SLOs, causing cascading failures upstream to " ∷ service ∷ []);
        confidence_score = lit 85 2;
      }

  analyze_downstream :
      DependencyGraph → (String → Option (SloReport F)) → String → List String → RootCauseAnalysis F
  unfolding blame degraded_nodes
  analyze_downstream graph evaluate service [] =
      itself service "Service is a leaf node in the system topology." (lit 1 0)
  analyze_downstream graph evaluate service (ds ∷ rest) =
      blame graph service (degraded_nodes evaluate (ds ∷ rest))

  unfoldable pub analyze :
      DependencyGraph → (String → Option (SloReport F)) → String → RootCauseAnalysis F
  unfolding analyze_downstream
  analyze graph evaluate service =
      analyze_downstream graph evaluate service (graph.downstream_of service)
