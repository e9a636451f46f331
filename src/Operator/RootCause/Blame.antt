-- ===== src/Operator/RootCause/Blame.antt =====
-- internal/operator/rootcause/analyzer.go: which service is blamed.
use summer_project.Prelude.{
  ℕ, ltb, length, ◌≤◌, true, false, ◌&&◌, Option, List, [], ◌∷◌, String, ◌≡◌, ◌≢◌, refl, sym, ap,
  subst, ◌∙◌, ◌⊎◌, inl, inr, ◌↔◌, arith, tests, Bool-cases,
}
use native.Mathlib.Nat.{le_trans}
use summer_project.Prelude.Text.{eq_iff}
use summer_project.Prelude.Float.{Float64}
use summer_project.Operator.Reports.{SloReport}
use summer_project.Operator.Dependency.{
  Graph, has, Range, get_upstream, get_downstream, or_empty, DependencyGraph, as_dependency_graph,
}
use summer_project.Operator.Dependency.Search.{Reaches, IsRange, closure_decides, has-cons}
use summer_project.Operator.RootCause.{
  is_violated, degraded_nodes, depth, deepest, blame, analyze_downstream, analyze,
}

not_lt : (a b : ℕ) → ltb b a ≡ false → a ≤ b
not_lt a b h = ground (arith, h)

module _ (fl : Float64) (evaluate : String → Option (SloReport fl.F)) where
  degraded_nodes-has :
      (x : String) (xs : List String)
      → has x (degraded_nodes fl evaluate xs) ≡ (has x xs && is_violated fl (evaluate x))
  unfolding degraded_nodes
  degraded_nodes-has x [] = refl
  degraded_nodes-has x (y ∷ ys) = elim (Bool-cases (is_violated fl (evaluate y))) [
    | inl bad ↦ rw bad (ground (arith, degraded_nodes-has x ys, eq_iff x y, bad))
    | inr good ↦ rw good (ground (arith, degraded_nodes-has x ys, eq_iff x y, good))
  ]

  module _ (graph : DependencyGraph) where
    -- The result of the loop: at least as deep as the candidate bound and all nodes, and one of them.
    record IsDeepest (m : ℕ) (candidate : String) (nodes : List String) (r : String) : Type 0 where
      above : m ≤ depth fl graph r
      top : (x : String) → has x nodes ≡ true → depth fl graph x ≤ depth fl graph r
      chosen : (r ≡ candidate) ⊎ (has r nodes ≡ true)

    IsDeepest-deeper :
        (m : ℕ) (candidate node : String) (nodes : List String) (r : String)
        → ltb m (depth fl graph node) ≡ true
        → IsDeepest (depth fl graph node) node nodes r
        → IsDeepest m candidate (node ∷ nodes) r
    IsDeepest-deeper m candidate node nodes r deeper d = record {
      above = omega (tests, d.above, deeper);
      top = λ x e. elim (has-cons x node nodes e) [
        | inl at ↦ subst (λ z. depth fl graph z ≤ depth fl graph r) (sym at) d.above
        | inr later ↦ d.top x later
      ];
      chosen = inr (ground (arith, d.chosen, eq_iff r node));
    }

    IsDeepest-other :
        (m : ℕ) (candidate node : String) (nodes : List String) (r : String)
        → ltb m (depth fl graph node) ≡ false
        → IsDeepest m candidate nodes r
        → IsDeepest m candidate (node ∷ nodes) r
    IsDeepest-other m candidate node nodes r not_deeper d = record {
      above = d.above;
      top = λ x e. elim (has-cons x node nodes e) [
        | inl at ↦
            subst (λ z. depth fl graph z ≤ depth fl graph r) (sym at)
              (le_trans (not_lt (depth fl graph node) m not_deeper) d.above)
        | inr later ↦ d.top x later
      ];
      chosen = elim d.chosen [ inl same ↦ inl same | inr later ↦ inr (ground (arith, later)) ];
    }

    deepest-IsDeepest :
        (m : ℕ) (candidate : String) (nodes : List String)
        → m ≤ depth fl graph candidate
        → IsDeepest m candidate nodes (deepest fl graph m candidate nodes)
    unfolding deepest
    deepest-IsDeepest m candidate [] low = record {
      above = low;
      top = λ x e. cc e;
      chosen = inl refl;
    }
    deepest-IsDeepest m candidate (node ∷ nodes) low =
        elim (Bool-cases (ltb m (depth fl graph node))) [
          | inl deeper ↦ rw deeper (
              IsDeepest-deeper m candidate node nodes _ deeper
                (deepest-IsDeepest (depth fl graph node) node nodes (omega arith)))
          | inr not_deeper ↦ rw not_deeper (
              IsDeepest-other m candidate node nodes _ not_deeper
                (deepest-IsDeepest m candidate nodes low))
        ]

    -- What an analysis of a list of downstream services comes to.
    data Blames (service : String) (downstream : List String) (r : String) : Type 0 where
      alone :
          r ≡ service
          → ((x : String) → has x downstream ≡ true → is_violated fl (evaluate x) ≡ false)
          → Blames service downstream r
      blamed :
          has r downstream ≡ true
          → is_violated fl (evaluate r) ≡ true
          → ((x : String)
              → has x downstream ≡ true
              → is_violated fl (evaluate x) ≡ true
              → depth fl graph x ≤ depth fl graph r)
          → Blames service downstream r

    blame-Blames :
        (service : String) (downstream nodes : List String)
        → degraded_nodes fl evaluate downstream ≡ nodes
        → Blames service downstream (blame fl graph service nodes).root_cause_service_id
    unfolding blame
    blame-Blames service downstream [] e =
        alone refl (λ x there. ground (arith, degraded_nodes-has x downstream, ap (has x) e))
    blame-Blames service downstream (node ∷ nodes) e =
        let r = deepest fl graph 0 node (node ∷ nodes) in
        let d = deepest-IsDeepest 0 node (node ∷ nodes) (omega arith) in
        let among : has r (node ∷ nodes) ≡ true = ground (arith, d.chosen, eq_iff r node) in
        let degraded : has r (degraded_nodes fl evaluate downstream) ≡ true =
          ap (has r) e ∙ among in
        blamed (ground (arith, degraded_nodes-has r downstream, degraded))
          (ground (arith, degraded_nodes-has r downstream, degraded))
          (λ x there bad.
            d.top x
              (sym (ap (has x) e) ∙ (degraded_nodes-has x downstream ∙ ground (arith, there, bad))))

    analyze_downstream-Blames :
        (service : String) (downstream : List String)
        → Blames service downstream
            (analyze_downstream fl graph evaluate service downstream).root_cause_service_id
    unfolding analyze_downstream
    analyze_downstream-Blames service [] = alone refl (λ x e. cc e)
    analyze_downstream-Blames service (ds ∷ rest) = blame-Blames service (ds ∷ rest) _ refl

  module _ (range : Range) (g : Graph) where
    abbrev Below : String → String → Type 0
    Below service x = Reaches (λ n. n.children) g service x × (x ≢ service)

    -- The service that is blamed for an alert of a service, over a graph.
    pub data RootCause (service r : String) : Type 0 where
      alone :
          r ≡ service
          → ((x : String) → Below service x → is_violated fl (evaluate x) ≡ false)
          → RootCause service r
      blamed :
          Below service r
          → is_violated fl (evaluate r) ≡ true
          → ((x : String)
              → Below service x
              → is_violated fl (evaluate x) ≡ true
              → length (or_empty (get_upstream range g x))
                ≤ length (or_empty (get_upstream range g r)))
          → RootCause service r

    RootCause-Blames :
        (service r : String) (downstream : List String)
        → ((x : String) → (has x downstream ≡ true) ↔ Below service x)
        → Blames (as_dependency_graph range g) service downstream r
        → RootCause service r
    RootCause-Blames service r downstream inside (Blames.alone same fine) =
        alone same (λ x below. fine x ((inside x).1 below))
    RootCause-Blames service r downstream inside (Blames.blamed there bad top) =
        blamed ((inside r).0 there) bad (λ x below x_bad. top x ((inside x).1 below) x_bad)

    -- On every graph, whatever the order of the runtime: if no service that the alerted one reaches along
    -- the calls violates a target, the alerted one itself is blamed; else one of those that do is, one
    -- with the most upstream services.
    pub analyze-RootCause :
        (service : String)
        → IsRange range
        → RootCause service
            (analyze fl (as_dependency_graph range g) evaluate service).root_cause_service_id
    unfolding analyze get_downstream
    analyze-RootCause service ranges =
        let (names, found, inside) = closure_decides (λ n. n.children) range g service ranges in
        RootCause-Blames service _ names inside (
          subst
            (λ ds.
              Blames (as_dependency_graph range g) service names
                (analyze_downstream fl (as_dependency_graph range g) evaluate service
                  ds).root_cause_service_id)
            (sym (ap or_empty found))
            (analyze_downstream-Blames (as_dependency_graph range g) service names))
