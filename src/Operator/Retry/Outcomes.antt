-- ===== src/Operator/Retry/Outcomes.antt =====
-- internal/operator/retry/engine.go: how a run of ExecuteWithRetry ends.
use summer_project.Prelude.{
  ℕ, zero, suc, ◌+◌, ◌<◌, ◌==◌, ◌≡◌, refl, subst, true, false, Option, none, some, String, arith,
  Bool-cases, Option-cases, inl, inr,
}
use summer_project.Prelude.Int.{pos, negsuc}
use summer_project.Operator.Retry.{
  Trials, Retried, retried, go_on, is_transient, judged, interrupted, pass, loop,
  execute_with_retry,
}

-- Each of the first k attempts was made, and failed with a transient error.
abbrev pub FailedTransiently : Trials → ℕ → Type 0
FailedTransiently t k =
    (j : ℕ) → j < k → (e : String) × (t.operation j ≡ some e) × (is_transient (some e) ≡ true)

pub data RetryEnd (t : Trials) (most : ℕ) (r : Retried) : Type 0 where
  succeeded :
      (k : ℕ)
      → k < most
      → FailedTransiently t k
      → t.operation k ≡ none
      → r ≡ retried (suc k) none
      → RetryEnd t most r
  permanent :
      (k : ℕ) (e : String)
      → k < most
      → FailedTransiently t k
      → t.operation k ≡ some e
      → is_transient (some e) ≡ false
      → r ≡ retried (suc k) (some e)
      → RetryEnd t most r
  cancelled :
      (k : ℕ) (e : String)
      → 0 < k
      → k < most
      → FailedTransiently t k
      → t.cancelled k ≡ some e
      → r ≡ retried k (some e)
      → RetryEnd t most r
  exhausted :
      (k : ℕ) (e : String)
      → suc k ≡ most
      → FailedTransiently t most
      → t.operation k ≡ some e
      → r ≡ retried most (some e)
      → RetryEnd t most r

abbrev last_of : Trials → ℕ → Option String
last_of t zero = none
last_of t (suc j) = t.operation j

one_more :
    (t : Trials) (k : ℕ) (e : String)
    → FailedTransiently t k
    → t.operation k ≡ some e
    → is_transient (some e) ≡ true
    → FailedTransiently t (suc k)
one_more t k e before op transient j below = elim (Bool-cases (j == k)) [
  | inl at ↦ let it : j ≡ k = ground (arith, at) in rw it (e, op, transient)
  | inr away ↦ before j (ground (arith, away, below))
]

interrupted-cases :
    (t : Trials) (k : ℕ) (e : String)
    → interrupted t k ≡ some e
    → (0 < k) × (t.cancelled k ≡ some e)
interrupted-cases t zero e h = cc
interrupted-cases t (suc k) e h = (omega arith, h)

module _ (t : Trials) (total : ℕ) where
  -- One attempt that is not interrupted, if the rest goes on well from its failure.
  judged-RetryEnd :
      (left k : ℕ) (op : Option String)
      → k < total
      → t.operation k ≡ op
      → FailedTransiently t k
      → (FailedTransiently t (suc k) → RetryEnd t total (loop t left (suc k) (go_on op)))
      → RetryEnd t total (loop t left (suc k) (judged k op))
  unfolding loop judged
  judged-RetryEnd left k none low op before rest = succeeded k low before op refl
  judged-RetryEnd left k (some e) low op before rest = elim (Bool-cases (is_transient (some e))) [
    | inl yes_it ↦ rw yes_it (rest (one_more t k e before op yes_it))
    | inr no_it ↦ rw no_it (permanent k e low before op no_it refl)
  ]

  loop-RetryEnd :
      (left k : ℕ)
      → k + left ≡ total
      → 0 < total
      → FailedTransiently t k
      → RetryEnd t total (loop t left k (go_on (last_of t k)))
  unfolding loop
  loop-RetryEnd zero zero n room before = absurd (omega arith)
  loop-RetryEnd zero (suc j) n room before =
      let (e, op, transient) = before j (omega arith) in
      let it : suc j ≡ total = omega arith in
      exhausted j e it (subst (FailedTransiently t) it before) op (rw op (ground (arith, it)))
  loop-RetryEnd (suc left) k n room before = elim (Option-cases (interrupted t k)) [
    | inr (e, off) ↦
        let (later, stopped) = interrupted-cases t k e off in
        rw (off, loop, pass) (cancelled k e later (omega arith) before stopped refl)
    | inl on ↦
        rw (on, loop, pass)
          (judged-RetryEnd left k (t.operation k) (omega arith) refl before
            (λ failed. loop-RetryEnd left (suc k) (omega arith) room failed))
  ]

-- With maxRetries not negative, ExecuteWithRetry ends in one of four ways: with the first attempt that
-- succeeds, with the first error that is not transient, with what a cancelled context says while it
-- waits, or with the last error after maxRetries + 1 attempts; every attempt before the last failed with
-- a transient error.
pub execute_with_retry-RetryEnd :
    (n : ℕ) (t : Trials) → RetryEnd t (suc n) (execute_with_retry (pos n) t)
unfolding execute_with_retry
execute_with_retry-RetryEnd n t =
    loop-RetryEnd t (suc n) (suc n) 0 (omega arith) (omega arith) (λ j low. absurd (omega arith))

-- A negative maxRetries makes it answer success without one attempt.
pub execute_with_retry_negative :
    (n : ℕ) (t : Trials) → execute_with_retry (negsuc n) t ≡ retried 0 none
unfolding execute_with_retry loop
execute_with_retry_negative n t = refl
