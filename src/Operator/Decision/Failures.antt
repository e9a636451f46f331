-- ===== src/Operator/Decision/Failures.antt =====
-- The counter of failed rollbacks over the listed history, and the escalation that it causes.
use summer_project.Prelude.{
  ℕ, ◌+◌, ◌≤◌, Bool, false, not, ◌&&◌, if◌then◌else◌, ◌≡◌, refl, ◌∙◌, ap, ◌≢◌, inl, inr, Option,
  some, List, [], ◌∷◌, ◌++◌, String, arith, Bool-cases, All, le→leb,
}
use summer_project.Prelude.Text.{str_eq, eq_iff, str_eq-false}
use summer_project.Prelude.Float.{Float64}
use summer_project.Operator.Models.{Time, escalate, Alert, Policy, Incident, RollbackHistory}
use summer_project.Operator.Reports.{Signals}
use summer_project.Operator.Decision.{
  Tally, count_rollback, no_rollbacks, tally, tally_listed, make_decision, investigate, rules,
  target_of, has_run_out,
}

-- A rollback of the target that is not recorded as a success, and one that is.
abbrev pub IsFailure : String → RollbackHistory → Type 0
IsFailure target r = (r.service ≡ target) × (str_eq r.verification_result "Success" ≡ false)

abbrev pub IsSuccess : String → RollbackHistory → Type 0
IsSuccess target r = (r.service ≡ target) × (r.verification_result ≡ "Success")

abbrev is_failure : String → RollbackHistory → Bool
is_failure target r = str_eq r.service target && not (str_eq r.verification_result "Success")

-- The failures of the target in a part of the history.
pub failures : String → List RollbackHistory → ℕ
failures target [] = 0
failures target (r ∷ rs) = let n = failures target rs in if is_failure target r then n + 1 else n

-- No success of the target.
abbrev pub NoSuccess : String → List RollbackHistory → Type 0
NoSuccess target =
    All (λ r. str_eq r.service target && str_eq r.verification_result "Success" ≡ false)

tally-append :
    (target : String) (t : Tally) (xs ys : List RollbackHistory)
    → tally target t (xs ++ ys) ≡ tally target (tally target t xs) ys
unfolding tally
tally-append target t [] ys = refl
tally-append target t (x ∷ xs) ys = tally-append target (count_rollback target t x) xs ys

tally_run :
    (target : String) (t : Tally) (ys : List RollbackHistory)
    → NoSuccess target ys
    → (tally target t ys).consecutive_failures ≡ t.consecutive_failures + failures target ys
unfolding tally failures
tally_run target t [] h = omega arith
tally_run target t (y ∷ ys) h = ground (arith, tally_run target (count_rollback target t y) ys h.1)

count_success :
    (target : String) (t : Tally) (s : RollbackHistory)
    → IsSuccess target s
    → (count_rollback target t s).consecutive_failures ≡ 0
count_success target t s (ours, good) =
    ground (arith, eq_iff s.service target, eq_iff s.verification_result "Success")

-- The counter is the number of failures of the target listed after its last listed success.
pub consecutive_failures_lem :
    (target : String) (xs : List RollbackHistory) (s : RollbackHistory) (ys : List RollbackHistory)
    → IsSuccess target s
    → NoSuccess target ys
    → (tally target no_rollbacks (xs ++ s ∷ ys)).consecutive_failures ≡ failures target ys
unfolding tally
consecutive_failures_lem target xs s ys good h =
    let before = tally target no_rollbacks xs in
    ap (λ t. t.consecutive_failures) (tally-append target no_rollbacks xs (s ∷ ys))
    ∙ omega (
      arith,
      tally_run target (count_rollback target before s) ys h,
      count_success target before s good,
    )

tally_mono :
    (target : String) (t : Tally) (f g : RollbackHistory)
    → IsFailure target f
    → IsFailure target g
    → 2 ≤ (tally target t (f ∷ g ∷ [])).consecutive_failures
unfolding tally
tally_mono target t f g (mine, bad) (mine', bad') =
    ground (arith, eq_iff f.service target, eq_iff g.service target)

tally_ends :
    (target : String) (xs : List RollbackHistory) (f g : RollbackHistory)
    → IsFailure target f
    → IsFailure target g
    → 2 ≤ (tally target no_rollbacks (xs ++ f ∷ g ∷ [])).consecutive_failures
tally_ends target xs f g hf hg =
    rw (tally-append target no_rollbacks xs (f ∷ g ∷ []))
      (tally_mono target (tally target no_rollbacks xs) f g hf hg)

module _ (fl : Float64) where
  open fl use {F}

  investigate_escalates :
      (now : Time) (version : String) (alert : Alert) (p : Policy) (sig : Signals F)
      → 2
        ≤ (tally_listed
            (target_of fl alert (sig.analyze alert.service))
            sig.list_rollbacks).consecutive_failures
      → (investigate fl now version alert p sig).entry.decision ≡ escalate
  unfolding investigate rules
  investigate_escalates now version alert p sig h = rw (le→leb 2 _ h) refl

  -- If the history lists two failed rollbacks of the target at its end, the decision on an alert that is
  -- not resolved, under a policy that applies to it and outside its cooldown window, is to escalate,
  -- whatever stands before them, successes of the target included.
  pub last_failures_escalate :
      (now : Time) (version : String) (alert : Alert) (p : Policy) (incident : Option Incident)
      (sig : Signals F) (xs : List RollbackHistory) (f g : RollbackHistory)
      → alert.status ≢ "resolved"
      → sig.list_rollbacks ≡ some (xs ++ f ∷ g ∷ [])
      → IsFailure (target_of fl alert (sig.analyze alert.service)) f
      → IsFailure (target_of fl alert (sig.analyze alert.service)) g
      → (make_decision fl now version alert (some p) incident false sig).entry.decision ≡ escalate
  unfolding make_decision
  last_failures_escalate now version alert p incident sig xs f g firing listed hf hg =
      rw (str_eq-false _ _ firing) (elim (Bool-cases (has_run_out incident p)) [
        | inl out ↦ rw out
        | inr left ↦
            rw left (
              investigate_escalates now version alert p sig (rw listed (tally_ends _ xs f g hf hg)))
      ])
