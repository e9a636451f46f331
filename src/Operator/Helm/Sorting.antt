-- ===== src/Operator/Helm/Sorting.antt =====
-- What the sort of GetLastHealthyRevision keeps: the releases, and their order by version.
use summer_project.Prelude.{Bool, ◌⊎◌, inl, inr, List, [], ◌∷◌, arith, Bool-cases, All}
use summer_project.Prelude.Int.{ℤ, leb_ℤ, ◌≤ℤ◌}
use summer_project.Operator.Helm.{Release, insert_release, sort_releases}

module _ {C : Type 0} (deep_equal : C → C → Bool) where
  -- Some release of the list has the property.
  abbrev pub Any : (Release C → Type 0) → List (Release C) → Type 0
  Any P [] = ⊥
  Any P (r ∷ rs) = P r ⊎ Any P rs

  abbrev pub Sorted : List (Release C) → Type 0
  Sorted [] = Unit
  Sorted (r ∷ rs) = All (λ s. r.version ≤ℤ s.version) rs × Sorted rs

  insert_release-All :
      (P : Release C → Type 0) (r : Release C) (rs : List (Release C))
      → P r
      → All P rs
      → All P (insert_release deep_equal r rs)
  unfolding insert_release
  insert_release-All P r [] p ps = (p, tt)
  insert_release-All P r (s ∷ ss) p ps = elim (Bool-cases (leb_ℤ r.version s.version)) [
    | inl le ↦ rw le (p, ps)
    | inr gt ↦ rw gt (ps.0, insert_release-All P r ss p ps.1)
  ]

  All-insert_release :
      (P : Release C → Type 0) (r : Release C) (rs : List (Release C))
      → All P (insert_release deep_equal r rs)
      → P r × All P rs
  unfolding insert_release
  All-insert_release P r [] h = h
  All-insert_release P r (s ∷ ss) h = elim (Bool-cases (leb_ℤ r.version s.version)) [
    | inl le ↦ rw le at h
    | inr gt ↦
        let h' = rw gt at h in let rest = All-insert_release P r ss h'.1 in (rest.0, (h'.0, rest.1))
  ]

  Any-insert_release :
      (P : Release C → Type 0) (r : Release C) (rs : List (Release C))
      → Any P (insert_release deep_equal r rs)
      → P r ⊎ Any P rs
  unfolding insert_release
  Any-insert_release P r [] h = h
  Any-insert_release P r (s ∷ ss) h = elim (Bool-cases (leb_ℤ r.version s.version)) [
    | inl le ↦ rw le at h
    | inr gt ↦ elim (rw gt at h) as (λ _. P r ⊎ (P s ⊎ Any P ss)) [
      | inl p ↦ inr (inl p)
      | inr later ↦ elim (Any-insert_release P r ss later) [ inl p ↦ inl p | inr q ↦ inr (inr q) ]
    ]
  ]

  le-All :
      (a b : ℤ) (rs : List (Release C))
      → a ≤ℤ b
      → All (λ s. b ≤ℤ s.version) rs
      → All (λ s. a ≤ℤ s.version) rs
  le-All a b [] h p = tt
  le-All a b (r ∷ rs) h p = (omega arith, le-All a b rs h p.1)

  insert_release-Sorted :
      (r : Release C) (rs : List (Release C)) → Sorted rs → Sorted (insert_release deep_equal r rs)
  unfolding insert_release
  insert_release-Sorted r [] h = (tt, tt)
  insert_release-Sorted r (s ∷ ss) h = elim (Bool-cases (leb_ℤ r.version s.version)) [
    | inl le ↦ rw le (((ground arith), le-All r.version s.version ss (ground arith) h.0), h)
    | inr gt ↦ rw gt (
      insert_release-All (λ t. s.version ≤ℤ t.version) r ss (ground arith) h.0,
      insert_release-Sorted r ss h.1,
    )
  ]

  pub sort_releases-Sorted : (rs : List (Release C)) → Sorted (sort_releases deep_equal rs)
  unfolding sort_releases
  sort_releases-Sorted [] = tt
  sort_releases-Sorted (r ∷ rs) = insert_release-Sorted r _ (sort_releases-Sorted rs)

  pub All-sort_releases :
      (P : Release C → Type 0) (rs : List (Release C))
      → All P (sort_releases deep_equal rs)
      → All P rs
  unfolding sort_releases
  All-sort_releases P [] h = tt
  All-sort_releases P (r ∷ rs) h =
      let parts = All-insert_release P r (sort_releases deep_equal rs) h in
      (parts.0, All-sort_releases P rs parts.1)

  pub Any-sort_releases :
      (P : Release C → Type 0) (rs : List (Release C))
      → Any P (sort_releases deep_equal rs)
      → Any P rs
  unfolding sort_releases
  Any-sort_releases P [] h = h
  Any-sort_releases P (r ∷ rs) h = elim (Any-insert_release P r (sort_releases deep_equal rs) h) [
    | inl p ↦ inl p
    | inr q ↦ inr (Any-sort_releases P rs q)
  ]
