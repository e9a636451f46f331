-- ===== src/Operator/Jaeger/Refresh.antt =====
-- internal/operator/dependency/jaeger.go: what a refresh leaves, and what no run of refreshes changes.
use summer_project.Prelude.{
  Bool, true, false, ◌&&◌, ◌||◌, not, none, some, List, [], ◌∷◌, String, ◌≡◌, ◌≢◌, refl, sym, ap,
  subst, ◌∙◌, ◌⊎◌, inl, inr, ◌↔◌, arith, Bool-cases,
}
use summer_project.Prelude.Int.{ℤ, ◌≤ℤ◌}
use summer_project.Prelude.Text.{str_eq, eq_iff}
use summer_project.Prelude.Maps.{lookup}
use summer_project.Operator.Dependency.{Graph, empty_graph, get_children, add_edge}
use summer_project.Operator.Dependency.Mirror.{IsMirrored, IsMirrored-empty, IsMirrored-add_edge}
use summer_project.Operator.Jaeger.{
  Edge, Pair, edges, add_seeds, is_skipped, add_observed, JaegerDependencyGraph, Observed,
  EdgeRange, merged, refresh, new_jaeger_graph, run,
}
use summer_project.Operator.Jaeger.Seeded.{
  has_pair, has_edge, is_taken, IsKeyed, has_pair-edges, add_seeds-has_edge, add_observed-has_edge,
}

abbrev pub In : {A : Type 0} → A → List A → Type 0
In a [] = ⊥
In a (b ∷ bs) = (a ≡ b) ⊎ In a bs

-- A call between two different named services that was counted often enough.
pub record IsObserved (min : ℤ) (p c : String) (e : Edge) : Type 0 where
  pub from : e.parent ≡ p
  pub to : e.child ≡ c
  pub parent_named : p ≢ ""
  pub child_named : c ≢ ""
  pub other : p ≢ c
  pub counted : min ≤ℤ e.call_count

IsObserved-iff :
    (min : ℤ) (p c : String) (e : Edge)
    → ((not (is_skipped min e) && (str_eq e.parent p && str_eq c e.child)) ≡ true)
      ↔ IsObserved min p c e
unfolding is_skipped
IsObserved-iff min p c e = (
  λ t. record {
    from = ground (arith, eq_iff e.parent p);
    to = ground (arith, eq_iff c e.child, eq_iff e.parent p);
    parent_named = λ q. ground (arith, eq_iff e.parent p, eq_iff e.parent "");
    child_named = λ q. ground (arith, eq_iff c e.child, eq_iff e.child "");
    other = λ q. ground (arith, eq_iff c e.child, eq_iff e.parent p, eq_iff e.parent e.child);
    counted = ground arith;
  },
  λ o. ground (
    arith,
    o.from,
    o.to,
    o.parent_named,
    o.child_named,
    o.other,
    o.counted,
    eq_iff e.parent p,
    eq_iff c e.child,
    eq_iff e.parent "",
    eq_iff e.child "",
    eq_iff e.parent e.child,
  ),
)

abbrev pub Taken : ℤ → String → String → List Edge → Type 0
Taken min p c es = (e : Edge) × In e es × IsObserved min p c e

is_taken_iff :
    (min : ℤ) (p c : String) (es : List Edge) → (is_taken min p c es ≡ true) ↔ Taken min p c es
is_taken_iff min p c [] = (λ t. cc, λ (e, i, o). absurd i)
is_taken_iff min p c (e ∷ es) =
    let (first, first') = IsObserved-iff min p c e in
    let (later, later') = is_taken_iff min p c es in
    (
      λ t. elim (Bool-cases (not (is_skipped min e) && (str_eq e.parent p && str_eq c e.child))) [
        | inl hit ↦ (e, inl refl, first hit)
        | inr miss ↦ let (f, i, o) = later (rw miss at t) in (f, inr i, o)
      ],
      λ (f, i, o). elim i [
        | inl here ↦ rw (first' (subst (IsObserved min p c) here o)) refl
        | inr there ↦ ground (arith, later' (f, there, o))
      ],
    )

-- Ranging over the edges of the seed meets each of them.
abbrev pub IsEdgeRange : EdgeRange → Type 0
IsEdgeRange range = (es : List Pair) (p c : String) → has_pair p c (range es) ≡ has_pair p c es

empty-has_edge : (p c : String) → has_edge p c empty_graph ≡ false
unfolding get_children lookup
empty-has_edge p c = refl

merged-has_edge :
    (range : EdgeRange) (jdg : JaegerDependencyGraph) (observed : List Edge) (p c : String)
    → IsEdgeRange range
    → IsKeyed jdg.seed
    → has_edge p c (merged range jdg observed)
      ≡ (has_edge p c jdg.seed || is_taken jdg.min_call_count p c observed)
unfolding merged
merged-has_edge range jdg observed p c ranges k = ground (
  arith,
  add_observed-has_edge jdg.min_call_count observed (add_seeds (range (edges jdg.seed)) empty_graph)
      p c,
  add_seeds-has_edge (range (edges jdg.seed)) empty_graph p c,
  ranges (edges jdg.seed) p c,
  has_pair-edges jdg.seed p c k,
  empty-has_edge p c,
)

IsMirrored-add_seeds : (es : List Pair) (g : Graph) → IsMirrored g → IsMirrored (add_seeds es g)
unfolding add_seeds
IsMirrored-add_seeds [] g same = same
IsMirrored-add_seeds ((p, c) ∷ es) g same =
    IsMirrored-add_seeds es (add_edge p c g) (IsMirrored-add_edge p c g same)

IsMirrored-add_observed :
    (min : ℤ) (es : List Edge) (g : Graph) → IsMirrored g → IsMirrored (add_observed min es g)
unfolding add_observed
IsMirrored-add_observed min [] g same = same
IsMirrored-add_observed min (e ∷ es) g same = elim (Bool-cases (is_skipped min e)) [
  | inl skipped ↦ rw skipped (IsMirrored-add_observed min es g same)
  | inr taken ↦ rw taken (
      IsMirrored-add_observed min es (add_edge e.parent e.child g)
        (IsMirrored-add_edge e.parent e.child g same))
]

or_left : {a c : Bool} (b : Bool) → a ≡ true → c ≡ a → (c || b) ≡ true
or_left b h e = ground arith

or-cases : (a b : Bool) → (a || b) ≡ true → (a ≡ true) ⊎ (b ≡ true)
or-cases true b h = inl refl
or-cases false b h = inr h

-- What the graph is between refreshes: the seed and the threshold are those it was made with, the edges
-- of the seed are there, and the parents and the children of the nodes tell the same edges.
pub record IsSeeded (seed : Graph) (jdg : JaegerDependencyGraph) : Type 0 where
  pub same_seed : jdg.seed ≡ seed
  pub kept : (p c : String) → has_edge p c seed ≡ true → has_edge p c jdg.current ≡ true
  pub mirrored : IsMirrored jdg.current

module _ (range : EdgeRange) (ranges : IsEdgeRange range) (seed : Graph)
    (keyed : IsKeyed seed) where
  same_edge :
      (p c : String) (jdg : JaegerDependencyGraph)
      → IsSeeded seed jdg
      → has_edge p c jdg.seed ≡ has_edge p c seed
  same_edge p c jdg s = ap (λ g. has_edge p c g) s.same_seed

  refresh-IsSeeded :
      (jdg : JaegerDependencyGraph) (answer : Observed)
      → IsSeeded seed jdg
      → IsSeeded seed (refresh range jdg answer)
  unfolding refresh merged
  refresh-IsSeeded jdg none s = s
  refresh-IsSeeded jdg (some es) s =
      let k : IsKeyed jdg.seed = subst IsKeyed (sym s.same_seed) keyed in
      record {
        same_seed = s.same_seed;
        kept = λ p c there.
            merged-has_edge range jdg es p c ranges k ∙ or_left _ there (same_edge p c jdg s);
        mirrored =
            IsMirrored-add_observed jdg.min_call_count es
              (add_seeds (range (edges jdg.seed)) empty_graph)
              (IsMirrored-add_seeds (range (edges jdg.seed)) empty_graph IsMirrored-empty);
      }

  run-IsSeeded :
      (jdg : JaegerDependencyGraph) (answers : List Observed)
      → IsSeeded seed jdg
      → IsSeeded seed (run range jdg answers)
  unfolding run
  run-IsSeeded jdg [] s = s
  run-IsSeeded jdg (a ∷ answers) s =
      run-IsSeeded (refresh range jdg a) answers (refresh-IsSeeded jdg a s)

  -- However often Jaeger answers, fails to answer or leaves services out, the graph keeps every edge of
  -- the seed, and its two sides agree, if the seed is a well-formed graph.
  pub run-new_jaeger_graph-IsSeeded :
      (min : ℤ) (first : Observed) (answers : List Observed)
      → IsMirrored seed
      → IsSeeded seed (run range (new_jaeger_graph range seed min first) answers)
  unfolding new_jaeger_graph
  run-new_jaeger_graph-IsSeeded min first answers same = run-IsSeeded _ answers (
      refresh-IsSeeded _ first
        (record { same_seed = refl; kept = λ p c there. there; mirrored = same }))

  -- A refresh that Jaeger answers replaces the graph by one whose edges are exactly those of the seed and
  -- the observed calls between two different named services that were counted at least as often as the
  -- threshold; a refresh that it does not answer changes nothing.
  pub refresh_exact :
      (jdg : JaegerDependencyGraph) (es : List Edge) (p c : String)
      → IsSeeded seed jdg
      → ((has_edge p c (refresh range jdg (some es)).current ≡ true)
          ↔ ((has_edge p c seed ≡ true) ⊎ Taken jdg.min_call_count p c es))
        × (refresh range jdg none ≡ jdg)
  unfolding refresh
  refresh_exact jdg es p c s =
      let k : IsKeyed jdg.seed = subst IsKeyed (sym s.same_seed) keyed in
      let exact = merged-has_edge range jdg es p c ranges k in
      let seeded = same_edge p c jdg s in
      let (taken, taken') = is_taken_iff jdg.min_call_count p c es in
      (
        (
          λ m. elim (or-cases _ _ (sym exact ∙ m)) [
            | inl from_seed ↦ inl (sym seeded ∙ from_seed)
            | inr seen ↦ inr (taken seen)
          ],
          λ t. elim t [
            | inl from_seed ↦ exact ∙ or_left _ from_seed seeded
            | inr seen ↦ ground (arith, exact, taken' seen)
          ],
        ),
        refl,
      )
