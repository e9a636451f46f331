-- ===== src/Operator/Dependency/Mirror.antt =====
-- internal/operator/dependency/graph.go: the parents and the children of the nodes tell the same edges.
use summer_project.Prelude.{true, ◌&&◌, ◌||◌, List, String, ◌≡◌, refl, sym, ◌∙◌, ◌↔◌, arith}
use summer_project.Prelude.Text.{str_eq, eq_iff}
use summer_project.Prelude.Maps.{lookup}
use summer_project.Operator.Dependency.{
  Node, Graph, has, empty_graph, ensure_node, get_parents, get_children, append_child, linked,
  add_edge, Range, get_upstream, get_downstream, or_empty,
}
use summer_project.Operator.Dependency.Edges.{
  has-append, add_edge-children, ensure_node-parents, ensure_node-children, ensure_node-IsPresent,
  append_child-parents, append_child-keeps, append_parent-parents,
}
use summer_project.Operator.Dependency.Search.{Next, Reaches, here, step, IsRange, closure_decides}

abbrev pub IsMirrored : Graph → Type 0
IsMirrored g = (p c : String) → has c (get_children g p) ≡ has p (get_parents g c)

add_edge-parents :
    (p c x y : String) (g : Graph)
    → IsMirrored g
    → has x (get_parents (add_edge p c g) y)
      ≡ (has x (get_parents g y) || (str_eq p x && str_eq y c))
unfolding add_edge linked
add_edge-parents p c x y g same =
    let g1 = ensure_node p g in
    let g2 = ensure_node c g1 in
    let at_c = append_child-keeps p c c g2 (ensure_node-IsPresent c g1) in
    ground (
      arith,
      same p c,
      ensure_node-children p p g,
      ensure_node-children c p g1,
      ensure_node-parents p y g,
      ensure_node-parents c y g1,
      append_parent-parents c p y (append_child p c g2) at_c,
      append_child-parents p c y g2,
      has-append x p (get_parents g y),
      eq_iff p x,
      eq_iff x p,
      eq_iff c y,
      eq_iff y c,
    )

pub IsMirrored-empty : IsMirrored empty_graph
unfolding get_children get_parents lookup
IsMirrored-empty p c = refl

pub IsMirrored-add_edge : (p c : String) (g : Graph) → IsMirrored g → IsMirrored (add_edge p c g)
IsMirrored-add_edge p c g same x y =
    ground (arith, add_edge-children p c x y g, same x y, add_edge-parents p c x y g same)

Reaches-snoc :
    {side : Node → List String} (g : Graph) {a b c : String}
    → Reaches side g a b
    → Next side g b c
    → Reaches side g a c
Reaches-snoc g (here b) e = step e (here _)
Reaches-snoc g (step f r) e = step f (Reaches-snoc g r e)

Reaches-turn :
    (g : Graph) {a b : String}
    → IsMirrored g
    → Reaches (λ n. n.children) g a b
    → Reaches (λ n. n.parents) g b a
unfolding get_children get_parents
Reaches-turn g same (here a) = here a
Reaches-turn g same (step {a} {b} e r) = Reaches-snoc g (Reaches-turn g same r) (sym (same a b) ∙ e)

Reaches-back :
    (g : Graph) {a b : String}
    → IsMirrored g
    → Reaches (λ n. n.parents) g a b
    → Reaches (λ n. n.children) g b a
unfolding get_children get_parents
Reaches-back g same (here a) = here a
Reaches-back g same (step {a} {b} e r) = Reaches-snoc g (Reaches-back g same r) (same b a ∙ e)

-- In a graph whose sides agree, as every graph built by AddEdge is, one service is in the downstream of
-- another exactly if that one is in its upstream.
pub downstream-iff-upstream :
    (range : Range) (g : Graph) (s t : String)
    → IsRange range
    → IsMirrored g
    → (has t (or_empty (get_downstream range g s)) ≡ true)
      ↔ (has s (or_empty (get_upstream range g t)) ≡ true)
unfolding get_downstream get_upstream
downstream-iff-upstream range g s t ranges same =
    let (down, e, inside) = closure_decides (λ n. n.children) range g s ranges in
    let (up, f, above) = closure_decides (λ n. n.parents) range g t ranges in
    rw (e, f)
      (
        (λ m.
            let (r, other) = (inside t).0 m in
            (above s).1 (Reaches-turn g same r, λ q. other (sym q))),
        (λ m.
            let (r, other) = (above s).0 m in
            (inside t).1 (Reaches-back g same r, λ q. other (sym q))),
      )
