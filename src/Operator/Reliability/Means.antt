-- ===== src/Operator/Reliability/Means.antt =====
-- internal/operator/reliability/engine.go: the averages, against the samples that they are made of.
use summer_project.Prelude.{
  ℕ, suc, ◌+◌, ◌*◌, ◌^◌, ◌<◌, ◌≡◌, ◌≢◌, refl, inl, inr, Option, none, some, List, [], ◌∷◌, arith,
  length, All, Option-cases,
}
use summer_project.Prelude.Int64.{wrap_int64, wrap_exact}
use summer_project.Prelude.Int.{pos, ◌+ℤ◌, negsuc, ◌≤ℤ◌, +ℤ_parts}
use summer_project.Operator.Models.{Duration}
use summer_project.Operator.Reliability.{Sum, add_sample, gather, no_samples, quot, quot_or, mean}
use native.Mathlib.Nat.{le-div_iff_mul-le, div-le_of_le-mul}

module _ {A : Type 0} where
  -- The samples of a figure.
  abbrev pub samples : (A → Option Duration) → List A → List Duration
  samples sample [] = []
  samples sample (x ∷ xs) = elim (sample x) [
    | none ↦ samples sample xs
    | some d ↦ d ∷ samples sample xs
  ]

abbrev Within : ℕ → ℕ → Duration → Type 0
Within lo hi d = (pos lo ≤ℤ d) × (d ≤ℤ pos hi)

-- The figure of some samples: the default if there are none, else no less than any number from 0 on that
-- no sample is below and no more than any that none is above, where as many times the greater one still
-- fit in an int64.
pub record IsMean (default_d : Duration) (ds : List Duration) (d : Duration) : Type 0 where
  pub without_samples : ds ≡ [] → d ≡ default_d
  pub amid_samples :
      ds ≢ []
      → (lo hi : ℕ) → All (λ x. (pos lo ≤ℤ x) × (x ≤ℤ pos hi)) ds
      → hi * length ds < 2 ^ 63
      → (pos lo ≤ℤ d) × (d ≤ℤ pos hi)

abbrev sum : List Duration → Sum → Sum
sum [] s = s
sum (d ∷ ds) s = sum ds (add_sample (some d) s)

gather-sum :
    {A : Type 0} (sample : A → Option Duration) (xs : List A) (s : Sum)
    → gather sample xs s ≡ sum (samples sample xs) s
unfolding gather
gather-sum sample [] s = refl
gather-sum sample (x ∷ xs) s = elim (Option-cases (sample x)) [
  | inl missing ↦ rw (missing, samples) (gather-sum sample xs s)
  | inr (d, found) ↦ rw (found, samples) (gather-sum sample xs _)
]

-- What holds of a total while its samples are read.
record IsTotal (lo hi : ℕ) (s : Sum) : Type 0 where
  at_least : pos (lo * s.count) ≤ℤ s.total
  at_most : s.total ≤ℤ pos (hi * s.count)

add_sample-IsTotal :
    (lo hi : ℕ) (d : Duration) (s : Sum)
    → Within lo hi d
    → hi * suc s.count < 2 ^ 63
    → IsTotal lo hi s
    → IsTotal lo hi (add_sample (some d) s)
add_sample-IsTotal lo hi d s (low, high) fits t =
    let parts = +ℤ_parts s.total d in
    let whole : wrap_int64 (s.total +ℤ d) ≡ s.total +ℤ d =
      wrap_exact (s.total +ℤ d) (omega (arith, parts, low, t.at_least))
        (omega (arith, parts, high, t.at_most, fits)) in
    rw whole (record {
      at_least = omega (arith, parts, low, t.at_least);
      at_most = omega (arith, parts, high, t.at_most);
    })

sum-IsTotal :
    (lo hi : ℕ) (ds : List Duration) (s : Sum)
    → All (Within lo hi) ds
    → hi * (s.count + length ds) < 2 ^ 63
    → IsTotal lo hi s
    → IsTotal lo hi (sum ds s)
sum-IsTotal lo hi [] s ok fits t = t
sum-IsTotal lo hi (d ∷ ds) s (first, ok) fits t =
    sum-IsTotal lo hi ds _ ok (omega (arith, fits))
      (add_sample-IsTotal lo hi d s first (grind (arith, fits)) t)

sum-count : (ds : List Duration) (s : Sum) → (sum ds s).count ≡ length ds + s.count
sum-count [] s = omega arith
sum-count (d ∷ ds) s = omega (arith, sum-count ds (add_sample (some d) s))

quot-Within :
    (lo hi n : ℕ) (total : Duration)
    → pos (lo * suc n) ≤ℤ total
    → total ≤ℤ pos (hi * suc n)
    → Within lo hi (quot total (suc n))
quot-Within lo hi n (pos t) low high = (
  omega (
    arith,
    (le-div_iff_mul-le {k = suc n} {x = lo} {y = t} (omega arith)).1 (omega (arith, low)),
  ),
  omega (arith, div-le_of_le-mul (suc n) {m = t} {n = hi} (omega (arith, high))),
)
quot-Within lo hi n (negsuc t) low high = absurd (omega (arith, low))

quot_or-Within :
    (lo hi n : ℕ) (default_d : Duration) (s : Sum)
    → s.count ≡ suc n
    → IsTotal lo hi s
    → Within lo hi (quot_or default_d s.total s.count)
quot_or-Within lo hi n default_d s counted t =
    rw counted (quot-Within lo hi n s.total (rw counted at t.at_least) (rw counted at t.at_most))

quot_or-IsMean :
    (default_d : Duration) (ds : List Duration)
    → IsMean default_d ds (quot_or default_d (sum ds no_samples).total (sum ds no_samples).count)
quot_or-IsMean default_d [] = record {
  without_samples = λ e. refl;
  amid_samples = λ some_samples. absurd (some_samples refl);
}
quot_or-IsMean default_d (d ∷ ds) = record {
  without_samples = λ e. absurd (cc e);
  amid_samples = λ _ lo hi ok fits.
      quot_or-Within lo hi (length ds) default_d _ (omega (arith, sum-count (d ∷ ds) no_samples)) (
        sum-IsTotal lo hi (d ∷ ds) no_samples ok (omega (arith, fits))
          (record { at_least = omega arith; at_most = omega arith }));
}

pub mean-IsMean :
    {A : Type 0} (default_d : Duration) (sample : A → Option Duration) (xs : List A)
    → IsMean default_d (samples sample xs) (mean default_d sample xs)
mean-IsMean default_d sample xs = rw gather-sum (quot_or-IsMean default_d (samples sample xs))
