-- ===== src/Operator/Helm/LastHealthy.antt =====
-- The revision that GetLastHealthyRevision picks.
use summer_project.Prelude.{
  Bool, true, false, ◌≡◌, refl, ◌⊎◌, inl, inr, Option, none, some, List, [], ◌∷◌, String, arith,
  Bool-cases, Option-cases, All,
}
use summer_project.Prelude.Int.{ℤ, ◌≤ℤ◌}
use summer_project.Operator.Helm.Eligible.{IsEligible, is_target-IsEligible, IsEligible-is_target}
use summer_project.Operator.Helm.{
  Result, ok, err, Release, sort_releases, current_config, is_target, walk_back,
  get_last_healthy_revision, or_unknown, no_target,
}
use summer_project.Operator.Helm.Sorting.{
  Any, Sorted, sort_releases-Sorted, All-sort_releases, Any-sort_releases,
}

module _ {C : Type 0} (deep_equal : C → C → Bool) where
  -- A release that may be rolled back to, and has the version.
  abbrev IsTarget : ℤ → Option C → ℤ → Release C → Type 0
  IsTarget current config v r = (is_target deep_equal current config r ≡ true) × (r.version ≡ v)

  -- If it may be rolled back to, it is no newer than the version.
  abbrev NotNewer : ℤ → Option C → ℤ → Release C → Type 0
  NotNewer current config v r = is_target deep_equal current config r ≡ true → r.version ≤ℤ v

  module _ (current : ℤ) (config : Option C) where
    walk_none :
        (rs : List (Release C))
        → walk_back deep_equal current config rs ≡ none
        → All (λ r. is_target deep_equal current config r ≡ false) rs
    unfolding walk_back
    walk_none [] h = tt
    walk_none (r ∷ rs) h = elim (Option-cases (walk_back deep_equal current config rs)) [
      | inl e ↦ elim (Bool-cases (is_target deep_equal current config r)) [
        | inl hit ↦ cc (rw (e, walk_back, hit) at h)
        | inr miss ↦ (miss, walk_none rs e)
      ]
      | inr (v, e) ↦ cc (rw (e, walk_back) at h)
    ]

    none_newer :
        (v : ℤ) (rs : List (Release C))
        → All (λ r. is_target deep_equal current config r ≡ false) rs
        → All (NotNewer current config v) rs
    none_newer v [] h = tt
    none_newer v (r ∷ rs) h = ((λ e. cc (h.0)), none_newer v rs h.1)

    older_of_Any :
        (a v : ℤ) (rs : List (Release C))
        → All (λ s. a ≤ℤ s.version) rs
        → Any deep_equal (IsTarget current config v) rs
        → a ≤ℤ v
    older_of_Any a v [] h p = absurd p
    older_of_Any a v (r ∷ rs) h (inl (_, e)) = rw e at h.0
    older_of_Any a v (r ∷ rs) h (inr p) = older_of_Any a v rs h.1 p

    walk_some :
        (rs : List (Release C)) (v : ℤ)
        → Sorted deep_equal rs
        → walk_back deep_equal current config rs ≡ some v
        → Any deep_equal (IsTarget current config v) rs × All (NotNewer current config v) rs
    unfolding walk_back
    walk_some [] v s h = cc
    walk_some (r ∷ rs) v s h = elim (Option-cases (walk_back deep_equal current config rs)) [
      | inl e ↦ elim (Bool-cases (is_target deep_equal current config r)) [
        | inl hit ↦
            let it : r.version ≡ v = cc (rw (e, walk_back, hit) at h) in
            (inl (hit, it), ((λ _. ground arith), none_newer v rs (walk_none rs e)))
        | inr miss ↦ cc (rw (e, walk_back, miss) at h)
      ]
      | inr (w, e) ↦
          let it : w ≡ v = cc (rw (e, walk_back) at h) in
          let later = walk_some rs v s.1 (rw it at e) in
          (inr later.0, ((λ _. older_of_Any r.version v rs s.0 later.0), later.1))
    ]

  -- It is an eligible revision, and has the version.
  abbrev pub IsPick : ℤ → List (Release C) → ℤ → Release C → Type 0
  IsPick current history v r = IsEligible deep_equal current history r × (r.version ≡ v)

  Any-IsPick :
      (current : ℤ) (history : List (Release C)) (v : ℤ) (rs : List (Release C))
      → Any deep_equal (IsTarget current (current_config deep_equal current history) v) rs
      → Any deep_equal (IsPick current history v) rs
  Any-IsPick current history v [] h = h
  Any-IsPick current history v (r ∷ rs) (inl (hit, e)) =
      inl (is_target-IsEligible deep_equal current history r hit, e)
  Any-IsPick current history v (r ∷ rs) (inr later) = inr (Any-IsPick current history v rs later)

  All-NotNewer :
      (current : ℤ) (history : List (Release C)) (v : ℤ) (rs : List (Release C))
      → All (NotNewer current (current_config deep_equal current history) v) rs
      → All (λ r. IsEligible deep_equal current history r → r.version ≤ℤ v) rs
  All-NotNewer current history v [] h = tt
  All-NotNewer current history v (r ∷ rs) h = (
    (λ eligible. h.0 (IsEligible-is_target deep_equal current history r eligible)),
    All-NotNewer current history v rs h.1,
  )

  none-IsEligible :
      (current : ℤ) (history rs : List (Release C))
      → All
          (λ r. is_target deep_equal current (current_config deep_equal current history) r ≡ false)
          rs
      → All (λ r. ¬ (IsEligible deep_equal current history r)) rs
  none-IsEligible current history [] h = tt
  none-IsEligible current history (r ∷ rs) h = (
    (λ eligible. cc (h.0, IsEligible-is_target deep_equal current history r eligible)),
    none-IsEligible current history rs h.1,
  )

  -- The answer is the newest revision that Helm once deployed (its status is deployed or superseded),
  -- that is not the current one, and that carries other values than the current one where both carry
  -- values. There is an error exactly where the history has no such revision. Where Helm does not tell
  -- the current revision, 0 is taken for it, which no revision need have.
  pub get_last_healthy_revision_newest :
      (history : List (Release C)) (current : Result ℤ) (name : String)
      → ((v : ℤ) × (get_last_healthy_revision deep_equal (ok history) current name ≡ ok v)
          × Any deep_equal (IsPick (or_unknown current) history v) history
          × All
              (λ r. IsEligible deep_equal (or_unknown current) history r → r.version ≤ℤ v)
              history)
        ⊎ ((get_last_healthy_revision deep_equal (ok history) current name ≡ err (no_target name))
            × All (λ r. ¬ (IsEligible deep_equal (or_unknown current) history r)) history)
  unfolding get_last_healthy_revision
  get_last_healthy_revision_newest history current name =
      let rev = or_unknown current in
      let config = current_config deep_equal rev history in
      let sorted = sort_releases deep_equal history in
      elim (Option-cases (walk_back deep_equal rev config sorted)) [
        | inl e ↦ inr (
          rw e refl,
          none-IsEligible rev history history (
              All-sort_releases deep_equal (λ r. is_target deep_equal rev config r ≡ false) history
                (walk_none rev config sorted e)),
        )
        | inr (v, e) ↦
            let facts = walk_some rev config sorted v (sort_releases-Sorted deep_equal history) e in
            inl (
              v,
              rw e refl,
              Any-IsPick rev history v history
                  (Any-sort_releases deep_equal (IsTarget rev config v) history facts.0),
              All-NotNewer rev history v history
                  (All-sort_releases deep_equal (NotNewer rev config v) history facts.1),
            )
      ]
