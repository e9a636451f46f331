-- ===== src/Operator/Jaeger/Seeded.antt =====
-- internal/operator/dependency/jaeger.go: what a refreshed graph holds, and that the seed never leaves it.
use summer_project.Prelude.{
  Bool, false, ◌&&◌, ◌||◌, not, none, some, List, [], ◌∷◌, ◌++◌, String, ◌≡◌, refl, inl, inr, arith,
  Bool-cases, Option-cases,
}
use summer_project.Prelude.Int.{ℤ}
use summer_project.Prelude.Text.{str_eq, eq_iff}
use summer_project.Prelude.Maps.{lookup, insert, lookup-insert}
use summer_project.Operator.Dependency.{
  Node, Graph, has, fresh_node, ensure_node, add_edge, linked, get_children, append_child,
  append_parent,
}
use summer_project.Operator.Dependency.Edges.{add_edge-children}
use summer_project.Operator.Jaeger.{Edge, Pair, out_of, edges, add_seeds, is_skipped, add_observed}

abbrev pub has_pair : String → String → List Pair → Bool
has_pair p c [] = false
has_pair p c ((q, d) ∷ es) = (str_eq q p && str_eq c d) || has_pair p c es

-- A traffic edge is taken from the list if it is not skipped.
abbrev pub is_taken : ℤ → String → String → List Edge → Bool
is_taken min p c [] = false
is_taken min p c (e ∷ es) =
    (not (is_skipped min e) && (str_eq e.parent p && str_eq c e.child)) || is_taken min p c es

abbrev pub has_edge : String → String → Graph → Bool
has_edge p c g = has c (get_children g p)

pub add_seeds-has_edge :
    (es : List Pair) (g : Graph) (p c : String)
    → has_edge p c (add_seeds es g) ≡ (has_edge p c g || has_pair p c es)
unfolding add_seeds
add_seeds-has_edge [] g p c = ground arith
add_seeds-has_edge ((q, d) ∷ es) g p c =
    ground (arith, add_seeds-has_edge es (add_edge q d g) p c, add_edge-children q d p c g)

pub add_observed-has_edge :
    (min : ℤ) (es : List Edge) (g : Graph) (p c : String)
    → has_edge p c (add_observed min es g) ≡ (has_edge p c g || is_taken min p c es)
unfolding add_observed
add_observed-has_edge min [] g p c = ground arith
add_observed-has_edge min (e ∷ es) g p c = elim (Bool-cases (is_skipped min e)) [
  | inl skipped ↦ rw skipped (add_observed-has_edge min es g p c)
  | inr taken ↦ rw taken (
      ground (
        arith,
        add_observed-has_edge min es (add_edge e.parent e.child g) p c,
        add_edge-children e.parent e.child p c g,
      ))
]

-- A node stands once in the map, under its own name.
abbrev pub IsKeyed : Graph → Type 0
IsKeyed [] = Unit
IsKeyed ((key, n) ∷ rest) = (n.id ≡ key) × (lookup key rest ≡ none) × IsKeyed rest

IsKeyed-lookup :
    (key : String) (n : Node) (g : Graph) → IsKeyed g → lookup key g ≡ some n → n.id ≡ key
unfolding lookup
IsKeyed-lookup key n [] k e = cc
IsKeyed-lookup key n ((name, m) ∷ rest) k e =
    ground (arith, eq_iff key name, IsKeyed-lookup key n rest k.2)

IsKeyed-insert :
    (key : String) (n : Node) (g : Graph) → n.id ≡ key → IsKeyed g → IsKeyed (insert key n g)
unfolding lookup insert
IsKeyed-insert key n [] own k = (own, refl, tt)
IsKeyed-insert key n ((name, m) ∷ rest) own k = elim (Bool-cases (str_eq key name)) [
  | inl at ↦ rw at (ground (arith, eq_iff key name))
  | inr away ↦ rw away (k.0, rw lookup-insert (rw away k.1), IsKeyed-insert key n rest own k.2)
]

IsKeyed-ensure_node : (id : String) (g : Graph) → IsKeyed g → IsKeyed (ensure_node id g)
unfolding ensure_node
IsKeyed-ensure_node id g k = elim (Option-cases (lookup id g)) [
  | inl e ↦ rw (e, ensure_node) (IsKeyed-insert id (fresh_node id) g refl k)
  | inr (n, e) ↦ rw (e, ensure_node) k
]

IsKeyed-append_child : (p c : String) (g : Graph) → IsKeyed g → IsKeyed (append_child p c g)
unfolding append_child
IsKeyed-append_child p c g k = elim (Option-cases (lookup p g)) [
  | inl e ↦ rw (e, append_child) k
  | inr (n, e) ↦ rw (e, append_child) (IsKeyed-insert p _ g (IsKeyed-lookup p n g k e) k)
]

IsKeyed-append_parent : (c p : String) (g : Graph) → IsKeyed g → IsKeyed (append_parent c p g)
unfolding append_parent
IsKeyed-append_parent c p g k = elim (Option-cases (lookup c g)) [
  | inl e ↦ rw (e, append_parent) k
  | inr (n, e) ↦ rw (e, append_parent) (IsKeyed-insert c _ g (IsKeyed-lookup c n g k e) k)
]

pub IsKeyed-add_edge : (p c : String) (g : Graph) → IsKeyed g → IsKeyed (add_edge p c g)
unfolding add_edge linked
IsKeyed-add_edge p c g k =
    let g2 = ensure_node c (ensure_node p g) in
    let k2 = IsKeyed-ensure_node c (ensure_node p g) (IsKeyed-ensure_node p g k) in
    elim (Bool-cases (has c (get_children g2 p))) [
      | inl old ↦ rw old k2
      | inr new ↦
          rw new (IsKeyed-append_parent c p (append_child p c g2) (IsKeyed-append_child p c g2 k2))
    ]

has_pair-append :
    (es fs : List Pair) (p c : String)
    → has_pair p c (es ++ fs) ≡ (has_pair p c es || has_pair p c fs)
has_pair-append [] fs p c = refl
has_pair-append ((q, d) ∷ es) fs p c = ground (arith, has_pair-append es fs p c)

has_pair-out_of :
    (id : String) (cs : List String) (p c : String)
    → has_pair p c (out_of id cs) ≡ (str_eq id p && has c cs)
unfolding out_of
has_pair-out_of id [] p c = ground arith
has_pair-out_of id (d ∷ cs) p c = ground (arith, has_pair-out_of id cs p c)

pub has_pair-edges :
    (g : Graph) (p c : String) → IsKeyed g → has_pair p c (edges g) ≡ has_edge p c g
unfolding edges get_children lookup
has_pair-edges [] p c k = refl
has_pair-edges ((key, n) ∷ rest) p c k = ground (
  arith,
  has_pair-append (out_of n.id n.children) (edges rest) p c,
  has_pair-out_of n.id n.children p c,
  has_pair-edges rest p c k.2,
  eq_iff n.id p,
  eq_iff p key,
)
