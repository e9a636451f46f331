-- ===== src/Prelude/Int64.antt =====
-- Go's int64: the integer that a sum or a product wraps to, and the one that Time.Sub stops at.
use summer_project.Prelude.Tests.{ltb, if◌then◌else◌}
use summer_project.Prelude.{ℕ, ◌-◌, ◌^◌, ◌%◌, ◌<◌, ◌≡◌, inl, inr, arith, Bool-cases}
use summer_project.Prelude.Int.{ℤ, pos, negsuc, sub_ℕ, ltb_ℤ, ◌≤ℤ◌, ◌<ℤ◌}

-- The int64 that an integer wraps to.
abbrev signed : ℕ → ℤ
signed m = if ltb m (2 ^ 63) then pos m else sub_ℕ m (2 ^ 64)

unfoldable pub wrap_int64 : ℤ → ℤ
wrap_int64 (pos n) = signed (n % 2 ^ 64)
wrap_int64 (negsuc n) = signed (2 ^ 64 - 1 - n % 2 ^ 64)

pub wrap_small : (n : ℕ) → n < 2 ^ 63 → wrap_int64 (pos n) ≡ pos n
unfolding wrap_int64
wrap_small n h = ground arith

pub wrap_exact : (z : ℤ) → pos 0 ≤ℤ z → z <ℤ pos (2 ^ 63) → wrap_int64 z ≡ z
wrap_exact (pos n) low high = wrap_small n (omega (arith, high))
wrap_exact (negsuc n) low high = absurd (omega (arith, low))

-- The end of int64 that an integer lies beyond, or else the integer.
abbrev pub saturated : ℤ → ℤ
saturated z =
    if ltb_ℤ (pos (2 ^ 63 - 1)) z
    then pos (2 ^ 63 - 1)
    else if ltb_ℤ z (negsuc (2 ^ 63 - 1))
    then negsuc (2 ^ 63 - 1)
    else z

pub saturated-not_negative : (z : ℤ) → pos 0 ≤ℤ z → pos 0 ≤ℤ saturated z
saturated-not_negative (negsuc n) h = absurd (omega (arith, h))
saturated-not_negative (pos n) h = elim (Bool-cases (ltb_ℤ (pos (2 ^ 63 - 1)) (pos n))) [
  | inl above ↦ rw above (omega arith)
  | inr within ↦ rw within (grind arith)
]
