-- ===== src/Prelude/Milli.antt =====
-- Floats counted in thousandths: a type with the laws of `Float64`, on which the examples run.
use Prim.Native.Nat.{ℕ, zero, suc, ◌+◌, ◌*◌, ◌/◌, ◌^◌, ◌≤◌, ◌<◌}
use mathlib.Core.Path.{◌≡◌}
use mathlib.Core.Bool.{Bool, true, false}
use native.Mathlib.Omega.{arith}
use summer_project.Prelude.Int.{ℤ, pos, pos_part, neg_part, sub_ℕ, ◌+ℤ◌, ◌-ℤ◌, ltb_ℤ, leb_ℤ}
use summer_project.Prelude.Text.{show_ℤ}
use summer_project.Prelude.Float.{Float64}

-- Exact for d ≤ 3.
abbrev pub milli_lit : ℕ → ℕ → ℤ
milli_lit n d = pos (n * 1000 / 10 ^ d)

abbrev pub milli_lt : ℤ → ℤ → Bool
milli_lt a b = ltb_ℤ a b

pub milli_lit-lt : (m n d : ℕ) → d ≤ 3 → m < n → milli_lt (milli_lit m d) (milli_lit n d) ≡ true
milli_lit-lt m n zero _ h = ground arith
milli_lit-lt m n (suc zero) _ h = ground arith
milli_lit-lt m n (suc (suc zero)) _ h = ground arith
milli_lit-lt m n (suc (suc (suc zero))) _ h = ground arith
milli_lit-lt m n (suc (suc (suc (suc d)))) p h = absurd (omega arith)

pub milli_lt_trans : (a b c : ℤ) → milli_lt a b ≡ true → milli_lt b c ≡ true → milli_lt a c ≡ true
milli_lt_trans a b c p q = ground arith

pub milli_lt_asymm : (a b : ℤ) → milli_lt a b ≡ true → milli_lt b a ≡ false
milli_lt_asymm a b p = ground arith

pub milli_lit_scale : (n d : ℕ) → d ≤ 2 → milli_lit n d ≡ milli_lit (n * 10) (suc d)
milli_lit_scale n zero _ = ground arith
milli_lit_scale n (suc zero) _ = ground arith
milli_lit_scale n (suc (suc zero)) _ = ground arith
milli_lit_scale n (suc (suc (suc d))) p = absurd (omega arith)

abbrev pub milli : Float64
milli = record {
  F = ℤ;
  lit = milli_lit;
  of_seconds = λ d. pos (pos_part d / 1_000_000);
  add = ◌+ℤ◌;
  sub = ◌-ℤ◌;
  mul = λ a b.
      sub_ℕ ((pos_part a * pos_part b + neg_part a * neg_part b) / 1000)
        ((pos_part a * neg_part b + neg_part a * pos_part b) / 1000);
  div = λ a b.
      sub_ℕ (pos_part a * 1000 / (pos_part b + neg_part b))
        (neg_part a * 1000 / (pos_part b + neg_part b));
  lt = milli_lt;
  le = λ a b. leb_ℤ a b;
  truncate = λ a. sub_ℕ (pos_part a / 1000) (neg_part a / 1000);
  of_ℕ = λ n. pos (n * 1000);
  show2 = show_ℤ;
  show3 = show_ℤ;
  lt_trans = milli_lt_trans;
  lt_asymm = milli_lt_asymm;
  lit-lt = milli_lit-lt;
  lit_scale = milli_lit_scale;
}
