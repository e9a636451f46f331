-- ===== src/Prelude/Float.antt =====
-- Go's float64, which the language here does not have: its operations, with the laws of IEEE 754 that
-- the theorems use. A comparison with a NaN is false.
use Prim.Native.Nat.{ℕ, suc, ◌*◌, ◌<◌, ◌≤◌}
use mathlib.Core.Path.{◌≡◌}
use mathlib.Core.Bool.{Bool, true, false}
use Prim.Native.String.{String}
use summer_project.Prelude.Int.{ℤ}

pub record Float64 : Type 1 where
  pub F : Type 0
  -- `lit n d` is the literal n / 10^d.
  pub lit : ℕ → ℕ → F
  pub of_seconds : ℤ → F
  pub add : F → F → F
  pub sub : F → F → F
  pub mul : F → F → F
  pub div : F → F → F
  pub lt : F → F → Bool
  pub le : F → F → Bool
  -- The conversion to an int64, and that of a count.
  pub truncate : F → ℤ
  pub of_ℕ : ℕ → F
  -- The verbs %.2f and %.3f.
  pub show2 : F → String
  pub show3 : F → String
  pub lt_trans : (a b c : F) → lt a b ≡ true → lt b c ≡ true → lt a c ≡ true
  pub lt_asymm : (a b : F) → lt a b ≡ true → lt b a ≡ false
  pub lit-lt : (m n d : ℕ) → d ≤ 3 → m < n → lt (lit m d) (lit n d) ≡ true
  pub lit_scale : (n d : ℕ) → d ≤ 2 → lit n d ≡ lit (n * 10) (suc d)
