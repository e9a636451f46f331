-- ===== src/Operator/Dependency/Edges.antt =====
-- internal/operator/dependency/graph.go: what an edge adds, and that the two sides of the nodes agree.
use summer_project.Prelude.{
  ◌&&◌, ◌||◌, if◌then◌else◌, some, List, [], ◌∷◌, ◌++◌, String, ◌≡◌, refl, inl, inr, arith,
  Bool-cases, Option-cases,
}
use summer_project.Prelude.Text.{str_eq, eq_iff}
use summer_project.Prelude.Maps.{lookup, lookup-insert, lookup-insert_self}
use summer_project.Operator.Dependency.{
  Node, Graph, has, fresh_node, ensure_node, get_parents, get_children, append_child, append_parent,
  linked, add_edge,
}

abbrev pub IsPresent : String → Graph → Type 0
IsPresent x g = (n : Node) × (lookup x g ≡ some n)

pub ensure_node-children :
    (id x : String) (g : Graph) → get_children (ensure_node id g) x ≡ get_children g x
unfolding ensure_node get_children
ensure_node-children id x g = ground (arith, lookup-insert id x (fresh_node id) g, eq_iff id x)

pub ensure_node-parents :
    (id x : String) (g : Graph) → get_parents (ensure_node id g) x ≡ get_parents g x
unfolding ensure_node get_parents
ensure_node-parents id x g = ground (arith, lookup-insert id x (fresh_node id) g, eq_iff id x)

pub ensure_node-IsPresent : (id : String) (g : Graph) → IsPresent id (ensure_node id g)
unfolding ensure_node
ensure_node-IsPresent id g = elim (Option-cases (lookup id g)) [
  | inl e ↦ (fresh_node id, rw (e, ensure_node) (lookup-insert_self id (fresh_node id) g))
  | inr (n, e) ↦ (n, rw (e, ensure_node) e)
]

pub ensure_node-keeps : (id x : String) (g : Graph) → IsPresent x g → IsPresent x (ensure_node id g)
unfolding ensure_node
ensure_node-keeps id x g (n, e) = elim (Option-cases (lookup id g)) [
  | inl absent ↦ (
    n,
    rw (absent, ensure_node) (ground (arith, lookup-insert id x (fresh_node id) g, eq_iff id x)),
  )
  | inr (m, there) ↦ (n, rw (there, ensure_node) e)
]

append_child-children :
    (p c x : String) (g : Graph)
    → IsPresent p g
    → get_children (append_child p c g) x
      ≡ (if str_eq p x then get_children g x ++ c ∷ [] else get_children g x)
unfolding append_child get_children
append_child-children p c x g (n, e) =
    ground (arith, lookup-insert p x (record n { children = n.children ++ c ∷ [] }) g, eq_iff p x)

pub append_child-parents :
    (p c x : String) (g : Graph) → get_parents (append_child p c g) x ≡ get_parents g x
unfolding append_child get_parents
append_child-parents p c x g = elim (Option-cases (lookup p g)) [
  | inl e ↦ rw (e, append_child) refl
  | inr (n, e) ↦
      ground (arith, lookup-insert p x (record n { children = n.children ++ c ∷ [] }) g, eq_iff p x)
]

pub append_child-keeps :
    (p c x : String) (g : Graph) → IsPresent x g → IsPresent x (append_child p c g)
unfolding append_child
append_child-keeps p c x g (m, there) = elim (Option-cases (lookup p g)) [
  | inl e ↦ (m, rw (e, append_child) there)
  | inr (n, e) ↦
      let n' = record n { children = n.children ++ c ∷ [] } in
      elim (Bool-cases (str_eq p x)) [
        | inl at_p ↦ (n', rw (e, append_child) (rw (lookup-insert, at_p) refl))
        | inr away ↦ (m, rw (e, append_child) (rw lookup-insert (rw away there)))
      ]
]

pub append_parent-parents :
    (c p x : String) (g : Graph)
    → IsPresent c g
    → get_parents (append_parent c p g) x
      ≡ (if str_eq c x then get_parents g x ++ p ∷ [] else get_parents g x)
unfolding append_parent get_parents
append_parent-parents c p x g (n, e) =
    ground (arith, lookup-insert c x (record n { parents = n.parents ++ p ∷ [] }) g, eq_iff c x)

append_parent-children :
    (c p x : String) (g : Graph) → get_children (append_parent c p g) x ≡ get_children g x
unfolding append_parent get_children
append_parent-children c p x g = elim (Option-cases (lookup c g)) [
  | inl e ↦ rw (e, append_parent) refl
  | inr (n, e) ↦
      ground (arith, lookup-insert c x (record n { parents = n.parents ++ p ∷ [] }) g, eq_iff c x)
]

pub has-append : (x y : String) (ys : List String) → has x (ys ++ y ∷ []) ≡ (has x ys || str_eq x y)
has-append x y [] = ground arith
has-append x y (z ∷ zs) = ground (arith, has-append x y zs)

-- An edge is there afterwards if it was there or is the new one.
pub add_edge-children :
    (p c x y : String) (g : Graph)
    → has y (get_children (add_edge p c g) x)
      ≡ (has y (get_children g x) || (str_eq p x && str_eq y c))
unfolding add_edge linked
add_edge-children p c x y g =
    let g1 = ensure_node p g in
    let g2 = ensure_node c g1 in
    let at_p = ensure_node-keeps c p g1 (ensure_node-IsPresent p g) in
    ground (
      arith,
      ensure_node-children p p g,
      ensure_node-children p x g,
      ensure_node-children c p g1,
      ensure_node-children c x g1,
      append_parent-children c p x (append_child p c g2),
      append_child-children p c x g2 at_p,
      has-append y c (get_children g x),
      eq_iff p x,
      eq_iff y c,
    )
