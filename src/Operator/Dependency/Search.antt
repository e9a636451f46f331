-- ===== src/Operator/Dependency/Search.antt =====
-- internal/operator/dependency/graph.go: the searches end on every graph, cycles included, and find what
-- can be reached.
use summer_project.Prelude.{
  ℕ, zero, suc, ◌≤◌, ◌<◌, true, false, if◌then◌else◌, Option, some, List, [], ◌∷◌, String, length,
  Option-cases, ◌≡◌, ◌≢◌, refl, sym, subst, ◌∙◌, ◌⊎◌, inl, inr, ◌↔◌, arith, Bool-cases,
}
use summer_project.Prelude.Text.{eq_iff, eq_refl}
use summer_project.Prelude.Maps.{lookup}
use summer_project.Operator.Dependency.{
  Node, Graph, has, Side, neighbours, visit_each, dfs, without, Range, closure,
}

pub has-cons :
    (x y : String) (ys : List String) → has x (y ∷ ys) ≡ true → (x ≡ y) ⊎ (has x ys ≡ true)
has-cons x y ys m = ground (arith, eq_iff x y)

module _ (side : Side) (g : Graph) where
  abbrev pub Next : String → String → Type 0
  Next a b = has b (neighbours side g a) ≡ true

  pub data Reaches : String → String → Type 0 where
    here : (a : String) → Reaches a a
    step : {a b c : String} → Next a b → Reaches b c → Reaches a c

  -- The nodes that are not yet visited.
  abbrev unseen : Graph → List String → ℕ
  unseen [] visited = 0
  unseen ((id, n) ∷ rest) visited =
      if has id visited then unseen rest visited else suc (unseen rest visited)

  unseen-none : (h : Graph) → unseen h [] ≡ length h
  unseen-none [] = refl
  unseen-none ((id, n) ∷ rest) = omega (arith, unseen-none rest)

  unseen_mono :
      (h : Graph) (v w : List String)
      → ((x : String) → has x v ≡ true → has x w ≡ true)
      → unseen h w ≤ unseen h v
  unseen_mono [] v w sub = omega arith
  unseen_mono ((id, n) ∷ rest) v w sub = ground (arith, sub id, unseen_mono rest v w sub)

  unseen-visit-le : (h : Graph) (id : String) (v : List String) → unseen h (id ∷ v) ≤ unseen h v
  unseen-visit-le h id v = unseen_mono h v (id ∷ v) (λ x m. ground arith)

  -- A node that has neighbours stands in the map, so that its visit leaves fewer.
  unseen-visit :
      (h : Graph) (id : String) (n : Node) (v : List String)
      → lookup id h ≡ some n
      → has id v ≡ false
      → unseen h (id ∷ v) < unseen h v
  unfolding lookup
  unseen-visit [] id n v found new = cc
  unseen-visit ((name, m) ∷ rest) id n v found new =
      ground
        (arith, eq_iff id name, eq_iff name id, unseen-visit rest id n v, unseen-visit-le rest id v)

  -- What a search leaves: `from` says where it started.
  record Searched (from : String → Type 0) (v w : List String) : Type 0 where
    keeps : (x : String) → has x v ≡ true → has x w ≡ true
    closed : (x y : String) → has x w ≡ true → Next x y → (has x v ≡ true) ⊎ (has y w ≡ true)
    sound : (x : String) → has x w ≡ true → (has x v ≡ true) ⊎ ((a : String) × from a × Reaches a x)
    found : (x : String) → from x → has x w ≡ true

  abbrev Visits :
      ℕ → (List String → Option (List String)) → (String → Type 0) → List String → Type 0
  Visits fuel run from v =
      unseen g v < fuel → (w : List String) × (run v ≡ some w) × Searched from v w

  Searched-stay :
      (from : String → Type 0) (v : List String)
      → ((x : String) → from x → has x v ≡ true)
      → Searched from v v
  Searched-stay from v first = record {
    keeps = λ x m. m;
    closed = λ x y m e. inl m;
    sound = λ x m. inl m;
    found = first;
  }

  visit_each-Searched :
      (fuel : ℕ) (visit : String → List String → Option (List String))
      → ((id : String) (v : List String) → Visits fuel (visit id) (λ x. x ≡ id) v)
      → (ids v : List String) → Visits fuel (visit_each visit ids) (λ x. has x ids ≡ true) v
  unfolding visit_each
  visit_each-Searched fuel visit one [] v enough = (v, refl, Searched-stay _ v (λ x m. cc))
  visit_each-Searched fuel visit one (id ∷ ids) v enough =
      let (u, ran, s) = one id v enough in
      let less = unseen_mono g v u s.keeps in
      let (w, rest, t) = visit_each-Searched fuel visit one ids u (omega arith) in
      (
        w,
        rw (ran, visit_each) rest,
        record {
          keeps = λ x m. t.keeps x (s.keeps x m);
          closed = λ x y m e. elim (t.closed x y m e) [
            | inl before ↦ elim (s.closed x y before e) [
              | inl old ↦ inl old
              | inr new ↦ inr (t.keeps y new)
            ]
            | inr new ↦ inr new
          ];
          sound = λ x m. elim (t.sound x m) [
            | inl before ↦ elim (s.sound x before) [
              | inl old ↦ inl old
              | inr (a, e, r) ↦ inr (a, rw e (rw eq_refl refl), r)
            ]
            | inr (a, e, r) ↦ inr (a, ground arith, r)
          ];
          found = λ x m. ground (arith, eq_iff x id, s.found x, t.keeps x, t.found x);
        },
      )

  Searched-visit :
      (id : String) (v w : List String) → Searched (Next id) (id ∷ v) w → Searched (λ x. x ≡ id) v w
  Searched-visit id v w s = record {
    keeps = λ x m. s.keeps x (ground arith);
    closed = λ x y m e. elim (s.closed x y m e) [
      | inl before ↦ elim (has-cons x id v before) [
        | inl at_id ↦ inr (s.found y (subst (λ z. Next z y) at_id e))
        | inr old ↦ inl old
      ]
      | inr new ↦ inr new
    ];
    sound = λ x m. elim (s.sound x m) [
      | inl before ↦ elim (has-cons x id v before) [
        | inl at_id ↦ inr (id, refl, subst (λ z. Reaches id z) (sym at_id) (here id))
        | inr old ↦ inl old
      ]
      | inr (a, e, r) ↦ inr (id, refl, step e r)
    ];
    found = λ x e. s.keeps x (ground (arith, eq_iff x id));
  }

  dfs-Searched :
      (fuel : ℕ) (id : String) (v : List String) → Visits fuel (dfs side g fuel id) (λ x. x ≡ id) v
  unfolding dfs visit_each
  dfs-Searched zero id v enough = absurd (omega arith)
  dfs-Searched (suc fuel) id v enough = elim (Bool-cases (has id v)) [
    | inl old ↦ (v, rw old, Searched-stay _ v (λ x e. rw e old))
    | inr new ↦ elim (Option-cases (lookup id g)) [
      | inl absent ↦ (
        id ∷ v,
        rw (new, absent, visit_each),
        Searched-visit id v (id ∷ v) (Searched-stay _ _ (λ x m. ground arith)),
      )
      | inr (n, e) ↦
          let (w, ran, s) =
            visit_each-Searched fuel (dfs side g fuel) (dfs-Searched fuel) (neighbours side g id)
              (id ∷ v) (omega (arith, unseen-visit g id n v e new)) in
          (w, rw new ran, Searched-visit id v w s)
    ]
  ]

  without-has :
      (x y : String) (ys : List String)
      → (has x (without y ys) ≡ true) ↔ ((has x ys ≡ true) × (x ≢ y))
  unfolding without
  without-has x y [] = (λ m. cc, λ m. m.0)
  without-has x y (z ∷ zs) = ground (arith, without-has x y zs, eq_iff x z, eq_iff y z, eq_iff x y)

  Reaches-closed :
      (w : List String) {a c : String}
      → ((x y : String) → has x w ≡ true → Next x y → has y w ≡ true)
      → has a w ≡ true
      → Reaches a c
      → has c w ≡ true
  Reaches-closed w shut m (here _) = m
  Reaches-closed w shut m (step {a} {b} e r) = Reaches-closed w shut (shut a b m e) r

-- Ranging over the keys of a map meets each of them.
abbrev pub IsRange : Range → Type 0
IsRange range = (names : List String) (x : String) → has x (range names) ≡ has x names

-- On every graph, cyclic or not, and in whatever order the runtime ranges over a map, the search for
-- the upstream or downstream services of a service ends, and its answer holds exactly the other
-- services that can be reached along edges of that side.
pub closure_decides :
    (side : Side) (range : Range) (g : Graph) (service : String)
    → IsRange range
    → (names : List String) × (closure side range g service ≡ some names)
      × ((x : String) → (has x names ≡ true) ↔ (Reaches side g service x × (x ≢ service)))
unfolding closure
closure_decides side range g service ranges =
    let (w, ran, s) =
      dfs-Searched side g (suc (length g)) service [] (omega (arith, unseen-none side g g)) in
    (
      range (without service w),
      rw ran,
      λ x. (
        λ m.
            let (inside, other) = (without-has side g x service w).0 (sym (ranges _ x) ∙ m) in
            elim (s.sound x inside) [
              | inl old ↦ cc
              | inr (a, e, r) ↦ (subst (λ z. Reaches side g z x) e r, other)
            ],
        λ (r, other).
            ranges (without service w) x
            ∙ (without-has side g x service w).1 (
              Reaches-closed side g w
                  (λ y z m e. elim (s.closed y z m e) [ inl old ↦ cc | inr new ↦ new ])
                  (s.found service refl) r,
              other,
            ),
      ),
    )
